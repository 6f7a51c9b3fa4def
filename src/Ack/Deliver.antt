-- ===== src/Ack/Deliver.antt =====
-- What holds of the queues after every delivery and every drain.
use litearm_cpp.Base.{
  ℕ, ◌+◌, ◌≤◌, ◌≡◌, refl, subst, sym, inl, inr, List, [], ◌∷◌, Option, none, some, arith, Bool,
  true, false, Bool-cases, Option-cases, ◌==◌, leb, if◌then◌else◌, length, length-append,
  length-drop, drop, All, All-append, All-drop,
}
use litearm_cpp.Errors.{Failure, Result, ok, err}
use litearm_cpp.Floats.{Floats}
use litearm_cpp.State.{RobotState, decode_state}
use litearm_cpp.Protocol.Tables.{rsp_of}
use litearm_cpp.Ack.{
  QueueKey, QueueEntry, Queue, Queues, same_key, plain, echoed, read_key, set_queue, push, enqueue,
  drain_for, die, Inbox, Collector, Event, frame, broken, deliver, on_status, note_recv, caught,
  kept_error, u64, reader_loop, queue_max,
}
use litearm_cpp.Ack.Keys.{same_key→≡}
use litearm_cpp.Ack.Wait.{arrive}

-- An entry stands in the queue of its own key.
abbrev pub IsHome : QueueKey → QueueEntry → Type 0
IsHome key e = read_key e.id e.payload ≡ key

-- Every entry is in the queue of its own key, and no queue is longer than the limit.
abbrev pub IsFiled : Queues → Type 0
IsFiled queues =
    (key : QueueKey) → All (IsHome key) (queues key) × (length (queues key) ≤ queue_max)

push-IsHome :
    (key : QueueKey) (e : QueueEntry) (queue : Queue)
    → IsHome key e
    → All (IsHome key) queue
    → All (IsHome key) (push e queue)
unfolding push
push-IsHome key e queue h all = elim (Bool-cases (leb queue_max (length queue))) [
  | inl full ↦
      rw full (
        All-append (IsHome key) (drop 1 queue) (e ∷ []) (All-drop (IsHome key) 1 queue all) (h, tt))
  | inr room ↦ rw room (All-append (IsHome key) queue (e ∷ []) all (h, tt))
]

length-push :
    (e : QueueEntry) (queue : Queue) → length queue ≤ queue_max → length (push e queue) ≤ queue_max
unfolding push
length-push e queue h = ground (
  arith,
  length-append queue (e ∷ []),
  length-append (drop 1 queue) (e ∷ []),
  length-drop 1 queue,
)

-- A change of one queue that keeps the invariant of that queue.
pub set-IsFiled :
    (key : QueueKey) (queue : Queue) (queues : Queues)
    → All (IsHome key) queue × (length queue ≤ queue_max)
    → IsFiled queues
    → IsFiled (set_queue key queue queues)
set-IsFiled key queue queues h filed k = elim (Bool-cases (same_key key k)) [
  | inl same ↦ rw same (
      subst (λ (home : QueueKey). All (IsHome home) queue × (length queue ≤ queue_max))
        (same_key→≡ key k same) h)
  | inr other ↦ rw other (filed k)
]

empty-IsFiled : (key : QueueKey) → All (IsHome key) [] × (length {A = QueueEntry} [] ≤ queue_max)
empty-IsFiled key = (tt, omega arith)

module _ {D S : Type 0} where
  enqueue-IsFiled :
      (c : ℕ) (payload : List ℕ) (box : Inbox D S)
      → IsFiled box.queues
      → IsFiled (enqueue c payload box).queues
  unfolding enqueue
  enqueue-IsFiled c payload box filed =
      let key = read_key c payload in
      let e : QueueEntry = record { id = c; payload = payload; seq = box.next_seq } in
      set-IsFiled key (push e (box.queues key)) box.queues
        (
          push-IsHome key e (box.queues key) refl (filed key).0,
          length-push e (box.queues key) (filed key).1,
        )
        filed

  pub drain_for-IsFiled :
      (cmd : ℕ) (box : Inbox D S) → IsFiled box.queues → IsFiled (drain_for cmd box).queues
  unfolding drain_for
  drain_for-IsFiled cmd box filed =
      let first =
        set-IsFiled (echoed 0x45 cmd) [] box.queues (empty-IsFiled (echoed 0x45 cmd)) filed in
      let second =
        set-IsFiled (echoed 0x46 cmd) [] (set_queue (echoed 0x45 cmd) [] box.queues)
          (empty-IsFiled (echoed 0x46 cmd)) first in
      elim (Option-cases (rsp_of cmd)) [
        | inl none_of ↦ rw none_of second
        | inr (rsp, e) ↦ rw e (
            set-IsFiled (plain rsp) []
              (set_queue (echoed 0x46 cmd) [] (set_queue (echoed 0x45 cmd) [] box.queues))
              (empty-IsFiled (plain rsp)) second)
      ]

module _ (floats : Floats) (cart : Collector) where
  open floats use {Double}
  open cart use {State, on_reply}

  caught-queues :
      (r : Result (RobotState Double)) (box : Inbox Double State)
      → (caught floats cart r box).queues ≡ box.queues
  caught-queues (ok s) box = refl
  caught-queues (err e) box = refl

  kept_error-queues :
      (r : State × Option Failure) (box : Inbox Double State)
      → (kept_error floats cart r box).queues ≡ box.queues
  kept_error-queues (s, none) box = refl
  kept_error-queues (s, some e) box = refl

  either-IsFiled :
      (b : Bool) (x y : Inbox Double State)
      → IsFiled x.queues
      → IsFiled y.queues
      → IsFiled (if b then x else y).queues
  either-IsFiled true x y hx hy = hx
  either-IsFiled false x y hx hy = hy

  deliver-IsFiled :
      (c : ℕ) (payload : List ℕ) (now : ℕ) (box : Inbox Double State)
      → IsFiled box.queues
      → IsFiled (deliver floats cart c payload now box).queues
  unfolding deliver on_status
  deliver-IsFiled c payload now box filed =
      let seen = record box { recv = note_recv c now box.recv } in
      let reply = on_reply payload now seen.collector in
      let st = on_status floats cart payload seen in
      let enqueued = enqueue c payload seen in
      either-IsFiled (c == 0x40) (record st { status_seq = u64 (st.status_seq + 1) })
        (if c == 0x4e then kept_error floats cart reply seen else enqueued)
        (subst IsFiled (sym (caught-queues (decode_state floats payload) seen)) filed)
        (either-IsFiled (c == 0x4e) (kept_error floats cart reply seen) enqueued
          (subst IsFiled (sym (kept_error-queues reply seen)) filed)
          (enqueue-IsFiled c payload seen filed))

  reader_loop-IsFiled :
      (events : List (Event floats cart)) (box : Inbox Double State)
      → IsFiled box.queues
      → IsFiled (reader_loop floats cart events box).queues
  unfolding reader_loop die
  reader_loop-IsFiled [] box filed = filed
  reader_loop-IsFiled (frame c payload now ∷ events) box filed =
      reader_loop-IsFiled events (deliver floats cart c payload now box)
        (deliver-IsFiled c payload now box filed)
  reader_loop-IsFiled (broken ∷ events) box filed = filed

  pub arrive-IsFiled :
      (events : List (Event floats cart)) (box : Inbox Double State)
      → IsFiled box.queues
      → IsFiled (arrive floats cart events box).queues
  unfolding arrive
  arrive-IsFiled events box filed =
      either-IsFiled box.reader_error box (reader_loop floats cart events box) filed
        (reader_loop-IsFiled events box filed)

  -- What the reading thread delivers and what `drain_for` clears keep every entry in the queue of its
  -- own key, and no queue longer than 64 entries.
  pub operations-IsFiled :
      (events : List (Event floats cart)) (cmd : ℕ) (box : Inbox Double State)
      → IsFiled box.queues
      → IsFiled (arrive floats cart events box).queues × IsFiled (drain_for cmd box).queues
  operations-IsFiled events cmd box filed =
      (arrive-IsFiled events box filed, drain_for-IsFiled cmd box filed)
