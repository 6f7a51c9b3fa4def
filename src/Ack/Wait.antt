-- ===== src/Ack/Wait.antt =====
-- Waiting for an answer: `Ack::wait` and `Ack::expect` of `src/ack.cpp`, with the session's guards of
-- `Arm::guard_for_ack_wait`.
use litearm_cpp.Base.{
  ℕ, ◌+◌, ◌-◌, List, [], ◌∷◌, Option, none, some, Bool, true, false, ◌==◌, leb, ltb, not,
  if◌then◌else◌, drop,
}
use litearm_cpp.Errors.{
  Failure, Result, ok, err, require, after, arm_is_in_dfu, forked_session, not_connected,
  invalid_command, transport, motion_timeout,
}
use litearm_cpp.Errors.Reason.{raise_firmware_error}
use litearm_cpp.Floats.{Floats}
use litearm_cpp.Ack.{
  QueueKey, QueueEntry, Queues, Queue, set_queue, wait_keys, Inbox, Collector, Event, reader_loop,
}

abbrev pub Best : Type 0
Best = Option (QueueKey × QueueEntry)

-- The front entry of a queue against the best one so far, where the queue's key comes later.
abbrev better : QueueKey → QueueEntry → Best → QueueKey × QueueEntry
better key e none = (key, e)
better key e (some (best_key, best)) = if ltb e.seq best.seq then (key, e) else (best_key, best)

abbrev pub with_front : QueueKey → Queue → Best → Best
with_front key [] best = best
with_front key (e ∷ queue) best = some (better key e best)

-- `for (const auto& k : keys)`, with the best entry so far.
unfoldable pub look : List QueueKey → Queues → Best → Best
look [] queues best = best
look (key ∷ keys) queues best = look keys queues (with_front key (queues key) best)

-- A clock reading of the waiter, and what the reading thread receives between it and the next one.
pub record Moment (E : Type 0) : Type 0 where
  pub now : ℕ
  pub arrived : List E

-- A timeout in seconds may be negative, which is refused.
pub data Timeout : Type 0 where
  negative : Timeout
  ticks : ℕ → Timeout

-- What the guards read of the session: whether it handed the device over to its boot loader,
-- whether this process owns it, and whether its queues exist.
pub record Session : Type 0 where
  pub in_dfu : Bool
  pub own_process : Bool
  pub ack_open : Bool

unfoldable pub guard_for_ack_wait : Session → Result (Unit {0})
guard_for_ack_wait session =
    require (not session.in_dfu) arm_is_in_dfu
      (require session.own_process forked_session (require session.ack_open not_connected (ok tt)))

pub data Kind : Type 0 where
  ack_kind err_kind rsp_kind : Kind

pub record ExpectResult : Type 0 where
  pub kind : Kind
  pub payload : List ℕ

module _ (floats : Floats) (cart : Collector) where
  open floats use {Double}
  open cart use {State}

  abbrev pub Box : Type 0
  Box = Inbox Double State

  abbrev pub Moments : Type 0
  Moments = List (Moment (Event floats cart))

  -- What a call leaves: its outcome, the queues, and the readings that are left.
  pub record Outcome (R : Type 0) : Type 0 where
    pub result : Result R
    pub box : Box
    pub later : Moments

  -- The reading thread ends with its first failure.
  unfoldable pub arrive : List (Event floats cart) → Box → Box
  arrive events box = if box.reader_error then box else reader_loop floats cart events box

  -- One round of the loop in `wait`, up to its look at the clock.
  pub data Round : Type 0 where
    found : QueueEntry → Box → Round
    failed : Failure → Box → Round
    nothing : Round

  abbrev pub take_best : Best → Box → Round
  take_best (some (key, e)) box =
      found e (record box { queues = set_queue key (drop 1 (box.queues key)) box.queues })
  take_best none box = elim box.errors [
    | e ∷ errors ↦ failed e (record box { errors = errors })
    | [] ↦ if box.reader_error then failed transport box else nothing
  ]

  unfoldable pub round : List QueueKey → Box → Round
  round keys box = take_best (look keys box.queues none) box

  abbrev pub settle : Round → Moments → Outcome (Option QueueEntry) → Outcome (Option QueueEntry)
  settle (found e box) moments rest = record { result = ok (some e); box = box; later = moments }
  settle (failed e box) moments rest = record { result = err e; box = box; later = moments }
  settle nothing moments rest = rest

  abbrev pub gave_up : Box → Moments → Outcome (Option QueueEntry)
  gave_up box moments = record { result = ok none; box = box; later = moments }

  -- The loop of `wait`. Where the readings end, the deadline has passed.
  unfoldable pub wait_loop : List QueueKey → ℕ → Moments → Box → Outcome (Option QueueEntry)
  wait_loop keys end [] box = settle (round keys box) [] (gave_up box [])
  wait_loop keys end (m ∷ moments) box =
      let next = wait_loop keys end moments (arrive m.arrived box) in
      settle (round keys box) (m ∷ moments) (if leb end m.now then gave_up box moments else next)

  abbrev pub wait_guards : Session → Timeout → Result ℕ
  wait_guards session negative = after (guard_for_ack_wait session) (err invalid_command)
  wait_guards session (ticks n) = after (guard_for_ack_wait session) (ok n)

  -- `wait`: the guards, the reading that sets the deadline, and the loop.
  abbrev pub wait_after : Result ℕ → List QueueKey → Moments → Box → Outcome (Option QueueEntry)
  wait_after (err e) keys moments box = record { result = err e; box = box; later = moments }
  wait_after (ok timeout) keys [] box = wait_loop keys 0 [] box
  wait_after (ok timeout) keys (m ∷ moments) box =
      wait_loop keys (m.now + timeout) moments (arrive m.arrived box)

  unfoldable pub wait :
      Session → List QueueKey → Timeout → Moments → Box → Outcome (Option QueueEntry)
  wait session keys timeout moments box = wait_after (wait_guards session timeout) keys moments box

  -- What `expect` does with a recorded or a fresh refusal.
  abbrev pub refused : Bool → List ℕ → Result ExpectResult
  refused true payload = err (raise_firmware_error payload)
  refused false payload = ok (record { kind = err_kind; payload = payload })

  abbrev pub answered : ℕ → List ℕ → Result ExpectResult
  answered want payload =
      ok (record { kind = if want == 0x45 then ack_kind else rsp_kind; payload = payload })

  -- After the loop.
  abbrev pub concluded : Bool → Option (List ℕ) → Result ExpectResult
  concluded raise_on_err (some payload) = refused raise_on_err payload
  concluded raise_on_err none = err motion_timeout

  -- A round of the loop in `expect` that finds time left: one call of `wait`.
  abbrev pub waited : Session → List QueueKey → ℕ → Moments → Box → Outcome (Option QueueEntry)
  waited session keys end [] box = gave_up box []
  waited session keys end (m ∷ moments) box =
      if leb end m.now
      then gave_up box moments
      else wait session keys (ticks (end - m.now)) moments (arrive m.arrived box)

  -- The rounds once a refusal was recorded: there is one, since only the first is recorded.
  abbrev pub expect_again : ℕ → Bool → List ℕ → Result (Option QueueEntry) → Result ExpectResult
  expect_again want raise_on_err seen (err e) = err e
  expect_again want raise_on_err seen (ok none) = concluded raise_on_err (some seen)
  expect_again want raise_on_err seen (ok (some e)) =
      if e.id == 0x46 then refused raise_on_err e.payload else answered want e.payload

  abbrev pub done : Result ExpectResult → Outcome (Option QueueEntry) → Outcome ExpectResult
  done r out = record { result = r; box = out.box; later = out.later }

  abbrev pub expect_once :
      Session
      → List QueueKey
      → ℕ
      → ℕ
      → Bool
      → Bool
      → Result (Option QueueEntry)
      → Outcome (Option QueueEntry)
      → Outcome ExpectResult
  expect_once session keys want end raise_on_err err_waits (err e) out = done (err e) out
  expect_once session keys want end raise_on_err err_waits (ok none) out =
      done (concluded raise_on_err none) out
  expect_once session keys want end raise_on_err err_waits (ok (some e)) out =
      let again = waited session keys end out.later out.box in
      if e.id == 0x46
      then (if err_waits
          then done (expect_again want raise_on_err e.payload again.result) again
          else done (refused raise_on_err e.payload) out)
      else done (answered want e.payload) out

  abbrev pub expect_on :
      Result (List QueueKey) → Session → ℕ → ℕ → Bool → Bool → Moments → Box → Outcome ExpectResult
  expect_on (err e) session want timeout raise_on_err err_waits moments box = record {
    result = err e;
    box = box;
    later = moments;
  }
  expect_on (ok keys) session want timeout raise_on_err err_waits [] box = record {
    result = err motion_timeout;
    box = box;
    later = [];
  }
  expect_on (ok keys) session want timeout raise_on_err err_waits (m ∷ moments) box =
      let out = waited session keys (m.now + timeout) moments (arrive m.arrived box) in
      expect_once session keys want (m.now + timeout) raise_on_err err_waits out.result out

  unfoldable pub expect :
      Session → ℕ → ℕ → Bool → Option ℕ → Bool → Moments → Box → Outcome ExpectResult
  expect session want timeout raise_on_err echo_cmd err_waits moments box =
      expect_on (wait_keys want echo_cmd) session want timeout raise_on_err err_waits moments box
