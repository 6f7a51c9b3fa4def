-- ===== src/Arm/Move.antt =====
-- Joint motions: the checks before a frame, `arrive`, `movej`, `movej_sync`, `home`, `move_js`,
-- `joint_follow`, `send_mit` and `send_mit_all` of `src/arm.cpp`.
use litearm_cpp.Base.{
  ℕ, zero, suc, ◌+◌, ◌*◌, List, [], ◌∷◌, ◌++◌, Option, none, some, Bool, true, false, not, ◌==◌,
  ◌&&◌, ◌||◌, leb, ltb, if◌then◌else◌, length,
}
use litearm_cpp.Errors.{Result, ok, err, transport, motor_fault, motion_timeout, invalid_command}
use litearm_cpp.Action.{gets, result, throw_if, ◌>>=◌, ◌>>◌}
use litearm_cpp.Floats.{Floats}
use litearm_cpp.Protocol.Frame.{u8}
use litearm_cpp.Protocol.Scalar.{pack_f32s, pack_f32le}
use litearm_cpp.State.{RobotState, positions, velocities, faulted}
use litearm_cpp.Ack.Wait.{Moments, Box}
use litearm_cpp.Cart.{cart_collector}
use litearm_cpp.Params.{JointParam, Index}
use litearm_cpp.Arm.{
  Arm, Tolerances, Act, hear, now_s, reject_if_in_dfu, require, write_cmd, cmd_expect_ack, answer,
}

unfoldable pub replicate {ℓ} : {A : Type ℓ} → ℕ → A → List A
replicate zero a = []
replicate (suc n) a = a ∷ replicate n a

module _ (floats : Floats) where
  open floats use {Double, less, at_most, is_finite, distance, magnitude, widen}

  unfoldable pub all_finite : List Double → Bool
  all_finite [] = true
  all_finite (d ∷ ds) = is_finite d && all_finite ds

  unfoldable pub within_limits : List (JointParam Double) → List Double → Bool
  within_limits (p ∷ ps) (d ∷ ds) = not (less d p.q_min || less p.q_max d) && within_limits ps ds
  within_limits [] ds = true
  within_limits (p ∷ ps) [] = true

  -- `precheck_q_`, for the limits of the session.
  unfoldable pub precheck_q : List (JointParam Double) → List Double → Result (Unit {0})
  precheck_q limits q =
      if not (all_finite q)
      then err invalid_command
      else if length limits == 0
      then ok tt
      else if not (length limits == length q)
      then ok tt
      else if within_limits limits q
      then ok tt
      else err invalid_command

  abbrev pub nought : Double
  nought = widen 0

  -- `speed >= 0.0 && speed <= 1.0`.
  unfoldable pub is_speed : Double → Bool
  is_speed speed = at_most nought speed && at_most speed (widen 0x3f800000)

  -- Whether a state is at the target: every difference and every speed below its tolerance.
  unfoldable pub all_near : Double → List Double → List Double → Bool
  all_near tol (q ∷ qs) (t ∷ ts) = not (at_most tol (distance q t)) && all_near tol qs ts
  all_near tol qs ts = true

  unfoldable pub all_slow : Double → List Double → Bool
  all_slow tol [] = true
  all_slow tol (d ∷ ds) = not (at_most tol (magnitude d)) && all_slow tol ds

  unfoldable pub is_at : Tolerances Double → List Double → RobotState Double → Bool
  is_at tol target st =
      (length st.joints == length target)
      && all_near tol.q_tol (positions st) target
      && all_slow tol.dq_tol (velocities st)

  unfoldable pub max_from : Double → List Double → Double
  max_from m [] = m
  max_from m (d ∷ ds) = max_from (if less m (magnitude d) then magnitude d else m) ds

  unfoldable pub is_moving : Tolerances Double → RobotState Double → Bool
  is_moving tol st = at_most tol.dq_tol (max_from nought (velocities st))

  -- The variables of the loop: the frames in a row that are at the target, the number of the last
  -- frame, and the deadline.
  pub record Progress : Type 0 where
    pub n_ok : ℕ
    pub seq0 : ℕ
    pub end : ℕ

  -- A new state frame: what the call ends with, if it ends, and the variables.
  abbrev pub on_frame :
      Tolerances Double
      → List Double
      → ℕ
      → ℕ
      → ℕ
      → RobotState Double
      → Progress
      → Option (Result (RobotState Double)) × Progress
  on_frame tol target budget now seq st p =
      let n_ok = if is_at tol target st then p.n_ok + 1 else 0 in
      let end = if is_moving tol st then now + budget else p.end in
      let ended =
        if faulted st
        then some (err motor_fault)
        else if leb tol.arrive_frames n_ok
        then some (ok st)
        else none in
      (ended, record { n_ok = n_ok; seq0 = seq; end = end })

  abbrev pub fresh :
      Tolerances Double
      → List Double
      → ℕ
      → ℕ
      → Option (RobotState Double)
      → ℕ
      → Progress
      → Option (Result (RobotState Double)) × Progress
  fresh tol target budget now none seq p = (none, p)
  fresh tol target budget now (some st) seq p =
      if seq == p.seq0 then (none, p) else on_frame tol target budget now seq st p

  unfoldable pub arrive_look :
      Tolerances Double
      → List Double
      → ℕ
      → ℕ
      → Box floats cart_collector
      → Progress
      → Option (Result (RobotState Double)) × Progress
  arrive_look tol target budget now box p =
      if box.reader_error
      then (some (err transport), p)
      else fresh tol target budget now box.state box.status_seq p

  abbrev pub ended_or :
      Option (Result (RobotState Double))
      → Arm floats
      → Result (RobotState Double) × Arm floats
      → Result (RobotState Double) × Arm floats
  ended_or (some r) arm rest = (r, arm)
  ended_or none arm rest = rest

  -- The loop, on the readings that are left; the two readings of a round are one. Where they end, the
  -- deadline has passed.
  unfoldable pub arrive_loop :
      List Double
      → ℕ
      → ℕ
      → Progress
      → Moments floats cart_collector
      → Arm floats
      → Result (RobotState Double) × Arm floats
  arrive_loop target budget hard_end p [] arm =
      ended_or (arrive_look arm.tol target budget 0 arm.box p).0 arm (err motion_timeout, arm)
  arrive_loop target budget hard_end p (m ∷ moments) arm =
      let (ended, q) = arrive_look arm.tol target budget m.now arm.box p in
      let next = hear floats m.arrived (record arm { later = moments }) in
      let rest = arrive_loop target budget hard_end q moments next in
      ended_or ended arm
        (if leb hard_end m.now || leb q.end m.now then (err motion_timeout, next) else rest)

  abbrev pub budget_of : Option ℕ → ℕ → ℕ
  budget_of none move_timeout = move_timeout
  budget_of (some timeout) move_timeout = timeout

  abbrev pub start_of : ℕ → ℕ → Progress
  start_of seq0 end = record { n_ok = 0; seq0 = seq0; end = end }

  unfoldable pub await_arrival : List Double → ℕ → ℕ → Progress → Act floats (RobotState Double)
  unfolding arrive_loop
  await_arrival target budget hard_end p arm = arrive_loop target budget hard_end p arm.later arm

  -- `arrive`; a negative timeout is `none`.
  unfoldable pub arrive_at : List Double → Option ℕ → Act floats (RobotState Double)
  unfolding require now_s await_arrival
  arrive_at target timeout = do
    require floats
    budget ← gets (λ arm. budget_of timeout arm.tol.move_timeout)
    seq0 ← gets (λ arm. arm.box.status_seq)
    t0 ← now_s floats
    await_arrival target budget (t0 + 4 * budget) (start_of seq0 (t0 + budget))

  -- `movej` and `movej_sync`, which differ in the command.
  unfoldable pub move_joints : ℕ → List Double → Double → Act floats (RobotState Double)
  unfolding require precheck_q write_cmd answer arrive_at
  move_joints cmd q speed = do
    require floats
    throw_if (not (is_speed speed)) invalid_command
    throw_if (← gets (λ arm. not (length q == arm.n))) invalid_command
    result (← gets (λ arm. precheck_q arm.limits q))
    write_cmd floats cmd (pack_f32s floats q ++ pack_f32le floats speed) true
    answer floats 0x45 1000 (some cmd)
    arrive_at q none

  unfoldable pub movej : List Double → Double → Act floats (RobotState Double)
  unfolding move_joints
  movej q speed = move_joints 0x01 q speed

  unfoldable pub movej_sync : List Double → Double → Act floats (RobotState Double)
  unfolding move_joints
  movej_sync q speed = move_joints 0x07 q speed

  unfoldable pub home : Option ℕ → Act floats (RobotState Double)
  unfolding write_cmd require answer arrive_at
  home timeout = do
    write_cmd floats 0x2a [] true
    require floats
    answer floats 0x45 1500 (some 0x2a)
    n ← gets (λ arm. arm.n)
    arrive_at (replicate n nought) timeout

  -- Whether each of the arrays has `n` values.
  unfoldable pub all_sized : ℕ → List (List Double) → Bool
  all_sized n [] = true
  all_sized n (ds ∷ arrays) = (length ds == n) && all_sized n arrays

  unfoldable pub joined : List (List Double) → List Double
  joined [] = []
  joined (ds ∷ arrays) = ds ++ joined arrays

  -- The arrays of a command, whose sizes are checked in the order of the payload.
  unfoldable pub send_arrays : ℕ → List (List Double) → Act floats (Unit {0})
  unfolding reject_if_in_dfu cmd_expect_ack
  send_arrays cmd arrays = do
    reject_if_in_dfu floats
    throw_if (← gets (λ arm. not (all_sized arm.n arrays))) invalid_command
    cmd_expect_ack floats cmd (pack_f32s floats (joined arrays)) 1200

  abbrev or_noughts : List Double → ℕ → List Double
  or_noughts [] n = replicate n nought
  or_noughts (d ∷ dq) n = d ∷ dq

  abbrev given : List Double → List (List Double)
  given [] = []
  given (d ∷ tau) = (d ∷ tau) ∷ []

  unfoldable pub move_js : List Double → List Double → List Double → Act floats (Unit {0})
  unfolding send_arrays
  move_js q dq tau_ff = do
    n ← gets (λ arm. arm.n)
    send_arrays 0x03 (q ∷ or_noughts dq n ∷ given tau_ff)

  unfoldable pub joint_follow :
      List Double → List Double → List Double → List Double → Act floats (Unit {0})
  unfolding send_arrays
  joint_follow q dq kp kd = send_arrays 0x08 (q ∷ dq ∷ kp ∷ kd ∷ [])

  unfoldable pub send_mit_all :
      List Double → List Double → List Double → List Double → List Double → Act floats (Unit {0})
  unfolding send_arrays
  send_mit_all q dq kp kd tau = send_arrays 0x05 (q ∷ dq ∷ kp ∷ kd ∷ tau ∷ [])

  abbrev is_axis : Index → ℕ → Bool
  is_axis none n = false
  is_axis (some idx) n = ltb idx n

  abbrev byte : Index → ℕ
  byte none = 0
  byte (some idx) = u8 idx

  -- The position, the speed, the two gains and the torque of one joint.
  unfoldable pub send_mit :
      Index → Double → Double → Double → Double → Double → Act floats (Unit {0})
  unfolding reject_if_in_dfu cmd_expect_ack
  send_mit idx q dq kp kd tau = do
    reject_if_in_dfu floats
    throw_if (← gets (λ arm. not (is_axis idx arm.n))) invalid_command
    cmd_expect_ack floats 0x04 (byte idx ∷ pack_f32s floats (q ∷ dq ∷ kp ∷ kd ∷ tau ∷ [])) 1200
