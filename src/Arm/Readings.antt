-- ===== src/Arm/Readings.antt =====
-- How many rounds the loops of `move_p` and `wait_settled` need: each uses up a reading of the clock,
-- and no call adds one.
use litearm_cpp.Base.{
  ℕ, zero, suc, ◌≤◌, ◌≡◌, refl, arith, List, [], ◌∷◌, Option, none, some, Bool, true, false, leb,
  if◌then◌else◌, length, Bool-cases, inl, inr,
}
use litearm_cpp.Errors.{Result, ok, err, motion_timeout}
use litearm_cpp.Action.{throw, modify, gets, pure, ◌>>=◌}
use litearm_cpp.Action.Preserves.{Preserves, preserves_rules, bind_same}
use litearm_cpp.Floats.{Floats}
use litearm_cpp.State.{RobotState}
use litearm_cpp.Ack.Readings.{expect_shorter}
use litearm_cpp.Ack.{Event}
use litearm_cpp.Ack.Wait.{Moment, Moments}
use litearm_cpp.Cart.{CartPending, cart_collector}
use litearm_cpp.Arm.{
  Arm, Act, session, hear, reading, now_s, reject_if_in_dfu, reject_if_wrong_process, require,
  drain, void_plans, write_frame, raw_write, write_query, a_expect, answer, with_cart,
}
use litearm_cpp.Arm.Status.{
  Queued, pump_look, pump_settle, pump_loop, pump, pump_until, read_status, get_state, get_tcp,
}
use litearm_cpp.Arm.Settle.{
  Arrived, Watch, await_next, look_at, ended_or_on, settle_round, settle_loop,
}
use litearm_cpp.Arm.Pose.{is_over, reached, pose_round, pose_loop}

module _ (floats : Floats) where
  open floats use {Double}

  -- At most `n` readings are left.
  abbrev pub IsShort : ℕ → Arm floats → Type 0
  IsShort n arm = length arm.later ≤ n

  module _ (n : ℕ) where
    abbrev Short : Arm floats → Type 0
    Short = IsShort n

    reading-Short :
        (moments : Moments floats cart_collector) (arm : Arm floats)
        → arm.later ≡ moments
        → Short arm
        → Short ((reading floats moments arm).1)
    reading-Short [] arm e h = h
    reading-Short (m ∷ moments) arm e h = ground (arith, e, h)

    now_s-Short : Preserves Short (now_s floats)
    unfolding now_s
    now_s-Short = record { holds = λ arm h. reading-Short arm.later arm refl h }

    require-Short : Preserves Short (require floats)
    unfolding require reject_if_in_dfu reject_if_wrong_process
    require-Short = search preserves_rules

    with_cart-Short :
        (f : CartPending → CartPending) → Preserves Short (modify (with_cart floats f))
    unfolding modify
    with_cart-Short f = record { holds = λ arm h. h }

    drain-Short : (cmd : ℕ) → Preserves Short (modify (drain floats cmd))
    unfolding modify
    drain-Short cmd = record { holds = λ arm h. h }

    write_frame-Short :
        (cmd : ℕ) (payload : List ℕ) → Preserves Short (write_frame floats cmd payload)
    unfolding write_frame
    write_frame-Short cmd payload = record { holds = λ arm h. h }

    void_plans-Short : (cmd : ℕ) → Preserves Short (void_plans floats cmd)
    unfolding void_plans
    void_plans-Short cmd = search (preserves_rules, now_s-Short, with_cart-Short) depth 12

    write_query-Short :
        (cmd : ℕ) (payload : List ℕ) → Preserves Short (write_query floats cmd payload)
    unfolding write_query raw_write reject_if_in_dfu reject_if_wrong_process
    write_query-Short cmd payload =
        search (preserves_rules, require-Short, void_plans-Short, drain-Short, write_frame-Short)
          depth 12

    a_expect-Short :
        (want timeout : ℕ) (raise_on_err : Bool) (echo_cmd : Option ℕ) (err_waits : Bool)
        → Preserves Short (a_expect floats want timeout raise_on_err echo_cmd err_waits)
    unfolding a_expect
    a_expect-Short want timeout raise echo_cmd err_waits = record {
      holds = λ arm h.
          let le =
            expect_shorter floats cart_collector (session floats arm) want timeout raise echo_cmd
              err_waits arm.later arm.box in
          omega (arith, h, le);
    }

    answer-Short :
        (want timeout : ℕ) (echo_cmd : Option ℕ)
        → Preserves Short (answer floats want timeout echo_cmd)
    unfolding answer
    answer-Short want timeout echo_cmd = search (preserves_rules, a_expect-Short)

    settled :
        (look : Option (Result Bool × Queued floats)) (arm : Arm floats)
        (rest : Result Bool × Arm floats)
        → Short arm
        → Short (rest.1)
        → Short ((pump_settle floats look arm rest).1)
    settled none arm rest h k = k
    settled (some (r, box)) arm rest h k = h

    either :
        {A : Type 0} (c : Bool) (x y : A × Arm floats)
        → Short (x.1)
        → Short (y.1)
        → Short ((if c then x else y).1)
    either true x y h k = h
    either false x y h k = k

    pump_loop-Short :
        (done : Queued floats → Bool) (end : ℕ) (moments : Moments floats cart_collector)
        (arm : Arm floats)
        → length moments ≤ n
        → Short arm
        → Short ((pump_loop floats done end moments arm).1)
    unfolding pump_loop
    pump_loop-Short done end [] arm l h =
        settled (pump_look floats done arm.box) arm (ok false, arm) h h
    pump_loop-Short done end (m ∷ moments) arm l h =
        let next = hear floats m.arrived (record arm { later = moments }) in
        let fewer : length moments ≤ n = omega (arith, l) in
        let rest = pump_loop floats done end moments next in
        settled (pump_look floats done arm.box) arm
          (if leb end m.now then (ok false, next) else rest) h
          (either (leb end m.now) (ok false, next) rest fewer
            (pump_loop-Short done end moments next fewer fewer))

    pump-Short : (done : Queued floats → Bool) (end : ℕ) → Preserves Short (pump floats done end)
    unfolding pump
    pump-Short done end = record { holds = λ arm h. pump_loop-Short done end arm.later arm h h }

    pump_until-Short :
        (timeout : ℕ) (done : Queued floats → Bool)
        → Preserves Short (pump_until floats timeout done)
    unfolding pump_until
    pump_until-Short timeout done =
        search (preserves_rules, require-Short, now_s-Short, pump-Short) depth 12

    read_status-Short : (timeout : ℕ) → Preserves Short (read_status floats timeout)
    unfolding read_status
    read_status-Short timeout = search (preserves_rules, require-Short, pump_until-Short) depth 12

    get_state-Short :
        (refresh : Bool) (timeout : ℕ) → Preserves Short (get_state floats refresh timeout)
    unfolding get_state
    get_state-Short refresh timeout =
        search (preserves_rules, require-Short, read_status-Short) depth 12

    get_tcp-Short : (timeout : ℕ) → Preserves Short (get_tcp floats timeout)
    unfolding get_tcp
    get_tcp-Short timeout =
        search (preserves_rules, require-Short, write_query-Short, answer-Short) depth 12

    abbrev Alike : {R : Type 0} → Act floats R → Act floats R → Type 0
    Alike m k = (arm : Arm floats) → Short arm → m arm ≡ k arm

    reached_same :
        (is_near : List Double → Bool) (st : Option (RobotState Double))
        (tcp : Option (List Double)) (rest other : Act floats (RobotState Double))
        → Alike rest other
        → Alike (reached floats is_near st tcp rest) (reached floats is_near st tcp other)
    reached_same is_near none tcp rest other same arm h = same arm h
    reached_same is_near (some st) none rest other same arm h = same arm h
    reached_same is_near (some st) (some tcp) rest other same arm h =
        elim (Bool-cases (is_near tcp)) [ inl e ↦ simp e refl | inr e ↦ simp e (same arm h) ]

    pose_round_same :
        (is_near : List Double → Bool) (rest other : Act floats (RobotState Double))
        → Alike rest other
        → Alike (pose_round floats is_near rest) (pose_round floats is_near other)
    pose_round_same is_near rest other same arm h =
        bind_same Short _ _ _ arm (get_state-Short true 100) h λ st arm1 h1.
          bind_same Short _ _ _ arm1 (search preserves_rules) h1 λ u arm2 h2.
            bind_same Short _ _ _ arm2 (get_tcp-Short 600) h2
              λ tcp arm3 h3. reached_same is_near st tcp rest other same arm3 h3

  is_over_last :
      (end : ℕ) (arm : Arm floats) → arm.later ≡ [] → is_over floats end arm ≡ (ok true, arm)
  unfolding is_over now_s gets pure ◌>>=◌
  is_over_last end arm e = rw e refl

  is_over_next :
      (end : ℕ) (arm : Arm floats) (m : Moment (Event floats cart_collector))
      (moments : Moments floats cart_collector)
      → arm.later ≡ m ∷ moments
      → is_over floats end arm
        ≡ (ok (leb end m.now), hear floats m.arrived (record arm { later = moments }))
  unfolding is_over now_s gets pure ◌>>=◌
  is_over_next end arm m moments e = rw e refl

  over_same :
      {R : Type 0} (n : ℕ) (c : Bool) (m k : Act floats R) (arm : Arm floats)
      → IsShort n arm
      → ((arm : Arm floats) → IsShort n arm → m arm ≡ k arm)
      → (if c then throw motion_timeout else m) arm ≡ (if c then throw motion_timeout else k) arm
  over_same n true m k arm h same = refl
  over_same n false m k arm h same = same arm h

  round_same :
      {R : Type 0} (n end : ℕ) (m k : Act floats R) (moments : Moments floats cart_collector)
      (arm : Arm floats)
      → arm.later ≡ moments
      → length moments ≤ suc n
      → ((arm : Arm floats) → IsShort n arm → m arm ≡ k arm)
      → (is_over floats end >>= λ over. if over then throw motion_timeout else m) arm
        ≡ (is_over floats end >>= λ over. if over then throw motion_timeout else k) arm
  unfolding ◌>>=◌
  round_same n end m k [] arm e h same = simp (is_over_last end arm e) refl
  round_same n end m k (r ∷ moments) arm e h same =
      let next = hear floats r.arrived (record arm { later = moments }) in
      simp (is_over_next end arm r moments e)
        (over_same n (leb end r.now) m k next (omega (arith, h)) same)

  no_reading : (moments : Moments floats cart_collector) → length moments ≤ 0 → moments ≡ []
  no_reading [] h = refl
  no_reading (m ∷ moments) h = ground (arith, h)

  ended_at_once :
      {R : Type 0} (end : ℕ) (m : Act floats R) (arm : Arm floats)
      → arm.later ≡ []
      → (is_over floats end >>= λ over. if over then throw motion_timeout else m) arm
        ≡ (err motion_timeout, arm)
  unfolding ◌>>=◌ throw
  ended_at_once end m arm e = simp (is_over_last end arm e) refl

  -- As many rounds as readings are left are enough for the loop of `move_p`: more of them make no
  -- difference to what it returns, throws and does to the session.
  pose_loop_enough :
      (is_near : List Double → Bool) (end rounds more : ℕ) (arm : Arm floats)
      → length arm.later ≤ rounds
      → rounds ≤ more
      → pose_loop floats is_near end more arm ≡ pose_loop floats is_near end rounds arm
  unfolding pose_loop throw
  pose_loop_enough is_near end zero zero arm h le = refl
  pose_loop_enough is_near end zero (suc more) arm h le =
      ended_at_once end _ arm (no_reading arm.later h)
  pose_loop_enough is_near end (suc rounds) zero arm h le = ground (arith, le)
  pose_loop_enough is_near end (suc rounds) (suc more) arm h le =
      round_same rounds end (pose_round floats is_near (pose_loop floats is_near end more))
        (pose_round floats is_near (pose_loop floats is_near end rounds)) arm.later arm refl h
        (pose_round_same rounds is_near _ _
          (λ arm1 h1. pose_loop_enough is_near end rounds more arm1 h1 (omega (arith, le))))

  await_next-Short : (n end : ℕ) → Preserves (IsShort n) (await_next floats end)
  unfolding await_next
  await_next-Short n end =
      search (preserves_rules, require-Short, now_s-Short, pump_until-Short) depth 14

  ended_or_on_same :
      (n : ℕ) (ended : Option (Result (Arrived floats))) (rest other : Act floats (Arrived floats))
      → Alike n rest other
      → Alike n (ended_or_on floats ended rest) (ended_or_on floats ended other)
  ended_or_on_same n none rest other same arm h = same arm h
  ended_or_on_same n (some r) rest other same arm h = refl

  settle_round_same :
      (n end : ℕ) (w : Watch floats) (rest other : Watch floats → Act floats (Arrived floats))
      → ((w : Watch floats) → Alike n (rest w) (other w))
      → Alike n (settle_round floats end w rest) (settle_round floats end w other)
  unfolding settle_round
  settle_round_same n end w rest other same arm h =
      bind_same (IsShort n) _ _ _ arm (await_next-Short n end) h λ st arm1 h1.
        bind_same (IsShort n) _ _ _ arm1 (search preserves_rules) h1 λ tol arm2 h2.
          ended_or_on_same n (look_at floats tol st w).0 _ _ (same (look_at floats tol st w).1) arm2
            h2

  -- The like for the loop of `wait_settled`.
  settle_loop_enough :
      (end rounds more : ℕ) (w : Watch floats) (arm : Arm floats)
      → length arm.later ≤ rounds
      → rounds ≤ more
      → settle_loop floats end more w arm ≡ settle_loop floats end rounds w arm
  unfolding settle_loop throw
  settle_loop_enough end zero zero w arm h le = refl
  settle_loop_enough end zero (suc more) w arm h le =
      ended_at_once end _ arm (no_reading arm.later h)
  settle_loop_enough end (suc rounds) zero w arm h le = ground (arith, le)
  settle_loop_enough end (suc rounds) (suc more) w arm h le =
      round_same rounds end (settle_round floats end w (settle_loop floats end more))
        (settle_round floats end w (settle_loop floats end rounds)) arm.later arm refl h
        (settle_round_same rounds end w _ _
          λ w1 arm1 h1. settle_loop_enough end rounds more w1 arm1 h1 (omega (arith, le)))
