-- ===== src/Arm/Status.antt =====
-- Reading the state: `pump_until`, `read_status`, `get_state`, `get_status_now`, `get_tcp` and
-- `wait_until_link_lost` of `src/arm.cpp`. A message's value is modelled, without its rate and time.
use litearm_cpp.Base.{
  ℕ, ◌+◌, List, [], ◌∷◌, Option, none, some, Bool, true, false, not, ◌==◌, ◌||◌, leb, if◌then◌else◌,
  length,
}
use litearm_cpp.Errors.{Result, ok, err, transport, motion_timeout}
use litearm_cpp.Errors.Reason.{raise_firmware_error}
use litearm_cpp.Action.{pure, gets, result, ◌>>=◌, ◌>>◌}
use litearm_cpp.Floats.{Floats}
use litearm_cpp.Protocol.Scalar.{unpack_f32s}
use litearm_cpp.State.{RobotState}
use litearm_cpp.Ack.{QueueEntry, echoed, set_queue}
use litearm_cpp.Ack.Wait.{Moments, Box}
use litearm_cpp.Cart.{cart_collector}
use litearm_cpp.Arm.{Arm, Act, hear, now_s, require, write_query, answer}

module _ (floats : Floats) where
  open floats use {Double}

  abbrev pub Queued : Type 0
  Queued = Box floats cart_collector

  -- One look of the loop: what ends it, if anything does.
  abbrev pub pump_look : (Queued → Bool) → Queued → Option (Result Bool × Queued)
  pump_look done box = if box.reader_error then some (err transport, box) else elim box.errors [
    | e ∷ errors ↦ some (err e, record box { errors = errors })
    | [] ↦ if done box then some (ok true, box) else none
  ]

  abbrev pub pump_settle :
      Option (Result Bool × Queued)
      → Arm floats
      → Result Bool × Arm floats
      → Result Bool × Arm floats
  pump_settle (some (r, box)) arm rest = (r, record arm { box = box })
  pump_settle none arm rest = rest

  -- The loop, on the readings that the session has left. Where they end, the deadline has passed.
  unfoldable pub pump_loop :
      (Queued → Bool) → ℕ → Moments floats cart_collector → Arm floats → Result Bool × Arm floats
  pump_loop done end [] arm = pump_settle (pump_look done arm.box) arm (ok false, arm)
  pump_loop done end (m ∷ moments) arm =
      let next = hear floats m.arrived (record arm { later = moments }) in
      let rest = pump_loop done end moments next in
      pump_settle (pump_look done arm.box) arm (if leb end m.now then (ok false, next) else rest)

  unfoldable pub pump : (Queued → Bool) → ℕ → Act floats Bool
  unfolding pump_loop
  pump done end arm = pump_loop done end arm.later arm

  unfoldable pub pump_until : ℕ → (Queued → Bool) → Act floats Bool
  unfolding require now_s pump
  pump_until timeout done = do require floats; start ← now_s floats; pump done (start + timeout)

  unfoldable pub read_status : ℕ → Act floats (Option (RobotState Double))
  unfolding require pump_until
  read_status timeout = do
    require floats
    seq0 ← gets (λ arm. arm.box.status_seq)
    pump_until timeout (λ box. not (box.status_seq == seq0))
    gets (λ arm. arm.box.state)

  abbrev is_none : Option (RobotState Double) → Bool
  is_none none = true
  is_none (some st) = false

  unfoldable pub get_state : Bool → ℕ → Act floats (Option (RobotState Double))
  unfolding require read_status
  get_state refresh timeout = do
    require floats
    cached ← gets (λ arm. arm.box.state)
    if is_none cached || refresh then read_status timeout else gets (λ arm. arm.box.state)

  abbrev or_timeout : Option (RobotState Double) → Result (RobotState Double)
  or_timeout none = err motion_timeout
  or_timeout (some st) = ok st

  -- The refusal of this command, which is taken out.
  unfoldable pub raise_front : List QueueEntry → Act floats (Unit {0})
  raise_front [] arm = (ok tt, arm)
  raise_front (e ∷ queue) arm =
      let queues = set_queue (echoed 0x46 0x40) queue arm.box.queues in
      (
        err (raise_firmware_error e.payload),
        record arm { box = record arm.box { queues = queues } },
      )

  -- What is waited for: a refusal of the command, or any new state frame.
  abbrev pub is_concluded : ℕ → Queued → Bool
  is_concluded seq0 box =
      not (length (box.queues (echoed 0x46 0x40)) == 0) || not (box.status_seq == seq0)

  unfoldable pub await_status : ℕ → ℕ → Act floats (Unit {0})
  unfolding pump_until raise_front
  await_status timeout seq0 = do
    pump_until timeout (is_concluded seq0)
    raise_front (← gets (λ arm. arm.box.queues (echoed 0x46 0x40)))

  unfoldable pub get_status_now : ℕ → Act floats (RobotState Double)
  unfolding require write_query await_status
  get_status_now timeout = do
    require floats
    write_query floats 0x40 []
    seq0 ← gets (λ arm. arm.box.status_seq)
    if timeout == 0 then pure tt else await_status timeout seq0
    result (or_timeout (← gets (λ arm. arm.box.state)))

  unfoldable pub get_tcp : ℕ → Act floats (Option (List Double))
  unfolding require write_query answer
  get_tcp timeout = do
    require floats
    write_query floats 0x43 []
    payload ← answer floats 0x48 timeout (some 0x43)
    pure (if leb 24 (length payload) then some (unpack_f32s floats payload 0 6) else none)

  -- The loop of `wait_until_link_lost`.
  unfoldable pub lost_loop :
      ℕ → Moments floats cart_collector → Arm floats → Result Bool × Arm floats
  lost_loop end [] arm = (ok arm.box.reader_error, arm)
  lost_loop end (m ∷ moments) arm =
      let next = hear floats m.arrived (record arm { later = moments }) in
      let rest = lost_loop end moments next in
      if arm.box.reader_error
      then (ok true, arm)
      else if leb end m.now
      then (ok false, next)
      else rest

  unfoldable pub until_lost : ℕ → Act floats Bool
  unfolding lost_loop
  until_lost end arm = lost_loop end arm.later arm

  unfoldable pub wait_until_link_lost : ℕ → Act floats Bool
  unfolding require now_s until_lost
  wait_until_link_lost timeout = do
    require floats
    start ← now_s floats
    until_lost (start + timeout)
