-- ===== src/Ack.antt =====
-- The queues of answers: `read_key`, `wait_keys` and the class `Ack` of `include/litearm/ack.hpp` and
-- `src/ack.cpp`. The reading thread's deliveries and the waiter's looks are steps on one state; the
-- lock makes each of them whole. Clock readings are counted in ticks.
pub mod Keys
pub mod Wait
pub mod Readings
pub mod Deliver
pub mod Expect
pub mod Owner
pub mod Refusal
pub mod Unanswered
pub mod Drain
pub mod History
mod Examples
use litearm_cpp.Base.{
  ℕ, zero, suc, ◌+◌, ◌-◌, ◌%◌, ◌^◌, List, [], ◌∷◌, ◌++◌, Option, none, some, Bool, true, false,
  ◌==◌, ◌&&◌, ◌||◌, leb, ltb, if◌then◌else◌, length, drop,
}
use litearm_cpp.Errors.{Failure, Result, ok, err, invalid_command, transport}
use litearm_cpp.Floats.{Floats}
use litearm_cpp.State.{RobotState, decode_state}
use litearm_cpp.Protocol.Tables.{rsp_of}

abbrev pub u64 : ℕ → ℕ
u64 n = n % 2 ^ 64

-- `std::pair<uint8_t, int>`, with `none` for `kNoEcho`.
pub record QueueKey : Type 0 where
  pub id : ℕ
  pub echo : Option ℕ

abbrev pub plain : ℕ → QueueKey
plain id = record { id = id; echo = none }

abbrev pub echoed : ℕ → ℕ → QueueKey
echoed id cmd = record { id = id; echo = some cmd }

abbrev same_echo : Option ℕ → Option ℕ → Bool
same_echo none none = true
same_echo (some a) (some b) = a == b
same_echo _ _ = false

abbrev pub same_key : QueueKey → QueueKey → Bool
same_key a b = (a.id == b.id) && same_echo a.echo b.echo

abbrev pub is_echoed : ℕ → Bool
is_echoed c = (c == 0x45) || (c == 0x46)

unfoldable pub read_key : ℕ → List ℕ → QueueKey
read_key c [] = plain c
read_key c (first ∷ payload) = if is_echoed c then echoed c first else plain c

abbrev keys_of_answer : ℕ → Option ℕ → Result (List QueueKey)
keys_of_answer want none = ok (plain want ∷ [])
keys_of_answer want (some cmd) = ok (plain want ∷ echoed 0x46 cmd ∷ [])

abbrev keys_of_echo : ℕ → Option ℕ → Result (List QueueKey)
keys_of_echo want none = err invalid_command
keys_of_echo want (some cmd) =
    if want == 0x45 then ok (echoed 0x45 cmd ∷ echoed 0x46 cmd ∷ []) else ok (echoed want cmd ∷ [])

unfoldable pub wait_keys : ℕ → Option ℕ → Result (List QueueKey)
wait_keys want echo_cmd =
    if is_echoed want then keys_of_echo want echo_cmd else keys_of_answer want echo_cmd

pub record QueueEntry : Type 0 where
  pub id : ℕ
  pub payload : List ℕ
  pub seq : ℕ

abbrev pub Queue : Type 0
Queue = List QueueEntry

-- `std::map<QueueKey, Queue>`: a key that is missing and a key with an empty queue are the same to
-- every reader of the map.
abbrev pub Queues : Type 0
Queues = QueueKey → Queue

abbrev pub set_queue : QueueKey → Queue → Queues → Queues
set_queue key queue queues k = if same_key key k then queue else queues k

pub record RecvEnt : Type 0 where
  pub count : ℕ
  pub first : ℕ
  pub last : ℕ

-- The collector that takes the answers of Cartesian plans, which may throw.
pub record Collector : Type 1 where
  pub State : Type 0
  pub on_reply : List ℕ → ℕ → State → State × Option Failure

pub record Inbox (D S : Type 0) : Type 0 where
  pub queues : Queues
  pub next_seq : ℕ
  pub dropped : ℕ
  pub state : Option (RobotState D)
  pub status_seq : ℕ
  pub bad_status_frames : ℕ
  pub recv : ℕ → Option RecvEnt
  pub errors : List Failure
  pub reader_error : Bool
  pub collector : S

abbrev pub queue_max : ℕ
queue_max = 64

-- `if (q.size() >= kQueueMax) q.pop_front();`, then the entry at the end.
unfoldable pub push : QueueEntry → Queue → Queue
push entry queue =
    if leb queue_max (length queue) then drop 1 queue ++ entry ∷ [] else queue ++ entry ∷ []

abbrev noted : Option RecvEnt → ℕ → RecvEnt
noted none now = record { count = 1; first = now; last = now }
noted (some e) now = record { count = u64 (e.count + 1); first = e.first; last = now }

unfoldable pub note_recv : ℕ → ℕ → (ℕ → Option RecvEnt) → ℕ → Option RecvEnt
note_recv c now recv id = if id == c then some (noted (recv c) now) else recv id

-- The rate as the fraction `(count - 1) / span`, and the time of the last frame.
pub recv_stats : {D S : Type 0} → Inbox D S → ℕ → (ℕ × ℕ) × ℕ
recv_stats inbox c = elim (inbox.recv c) [
  | none ↦ ((0, 1), 0)
  | some e ↦
      if ltb e.count 2 || leb e.last e.first
      then ((0, 1), e.last)
      else ((e.count - 1, e.last - e.first), e.last)
]

module _ {D S : Type 0} where
  unfoldable pub enqueue : ℕ → List ℕ → Inbox D S → Inbox D S
  enqueue c payload inbox =
      let key = read_key c payload in
      let queue = inbox.queues key in
      let entry : QueueEntry = record { id = c; payload = payload; seq = inbox.next_seq } in
      record inbox {
        queues = set_queue key (push entry queue) inbox.queues;
        next_seq = u64 (inbox.next_seq + 1);
        dropped = if leb queue_max (length queue) then u64 (inbox.dropped + 1) else inbox.dropped;
      }

  abbrev drop_queue : QueueKey → Inbox D S → Inbox D S
  drop_queue key inbox = record inbox {
    queues = set_queue key [] inbox.queues;
    dropped = u64 (inbox.dropped + length (inbox.queues key));
  }

  abbrev drop_answer : Option ℕ → Inbox D S → Inbox D S
  drop_answer none inbox = inbox
  drop_answer (some rsp) inbox = drop_queue (plain rsp) inbox

  unfoldable pub drain_for : ℕ → Inbox D S → Inbox D S
  drain_for cmd inbox =
      drop_answer (rsp_of cmd) (drop_queue (echoed 0x46 cmd) (drop_queue (echoed 0x45 cmd) inbox))

  -- What `die` records.
  unfoldable pub die : Inbox D S → Inbox D S
  die inbox = record inbox { reader_error = true }

module _ (floats : Floats) (cart : Collector) where
  open floats use {Double}
  open cart use {State, on_reply}

  abbrev pub caught : Result (RobotState Double) → Inbox Double State → Inbox Double State
  caught (ok s) inbox = record inbox { state = some s }
  caught (err e) inbox = record inbox { bad_status_frames = u64 (inbox.bad_status_frames + 1) }

  unfoldable pub on_status : List ℕ → Inbox Double State → Inbox Double State
  on_status payload inbox = caught (decode_state floats payload) inbox

  abbrev pub kept_error : State × Option Failure → Inbox Double State → Inbox Double State
  kept_error (s, none) inbox = record inbox { collector = s }
  kept_error (s, some e) inbox = record inbox { collector = s; errors = inbox.errors ++ e ∷ [] }

  -- `deliver`, with the catch around it in `reader_loop`: what the collector throws is kept.
  unfoldable pub deliver : ℕ → List ℕ → ℕ → Inbox Double State → Inbox Double State
  deliver c payload now inbox =
      let seen = record inbox { recv = note_recv c now inbox.recv } in
      if c == 0x40
      then (let st = on_status payload seen in record st { status_seq = u64 (st.status_seq + 1) })
      else if c == 0x4e
      then kept_error (on_reply payload now seen.collector) seen
      else enqueue c payload seen

  -- One round of `reader_loop` that brings something: a frame with the clock reading, or the
  -- transport's failure.
  pub data Event : Type 0 where
    frame : ℕ → List ℕ → ℕ → Event
    broken : Event

  -- The rounds of `reader_loop`, which ends with the first failure.
  unfoldable pub reader_loop : List Event → Inbox Double State → Inbox Double State
  reader_loop [] inbox = inbox
  reader_loop (frame c payload now ∷ events) inbox =
      reader_loop events (deliver c payload now inbox)
  reader_loop (broken ∷ events) inbox = die inbox
