-- ===== src/Arm/Pose.antt =====
-- `move_p` of `src/arm.cpp`. The conversion of the pose and the judgement of `pose_near` are arguments.
use litearm_cpp.Base.{
  ℕ, zero, suc, ◌+◌, List, [], ◌∷◌, ◌++◌, Option, none, some, Bool, true, false, not, ◌||◌, leb,
  if◌then◌else◌, length,
}
use litearm_cpp.Errors.{Result, motor_fault, motion_timeout, invalid_command}
use litearm_cpp.Action.{pure, throw, gets, result, throw_if, ◌>>=◌, ◌>>◌}
use litearm_cpp.Floats.{Floats}
use litearm_cpp.Protocol.Scalar.{pack_f32s, pack_f32le}
use litearm_cpp.State.{RobotState, faulted}
use litearm_cpp.Ack.Wait.{Moments}
use litearm_cpp.Cart.{cart_collector}
use litearm_cpp.Arm.{Act, now_s, require, write_cmd, answer}
use litearm_cpp.Arm.Status.{get_state, get_tcp}
use litearm_cpp.Arm.Move.{is_speed, precheck_q, nought}

module _ (floats : Floats) where
  open floats use {Double, less}

  abbrev pub is_broken : Option (RobotState Double) → Bool
  is_broken none = false
  is_broken (some st) = faulted st

  -- Once the pose is reached, the loop ends with the state; otherwise it goes on after a pause.
  abbrev pub reached :
      (List Double → Bool)
      → Option (RobotState Double)
      → Option (List Double)
      → Act floats (RobotState Double)
      → Act floats (RobotState Double)
  reached is_near (some st) (some tcp) rest = if is_near tcp then pure st else rest
  reached is_near (some st) none rest = rest
  reached is_near none tcp rest = rest

  -- A round, with the rounds that follow it.
  abbrev pub pose_round :
      (List Double → Bool) → Act floats (RobotState Double) → Act floats (RobotState Double)
  pose_round is_near rest = do
    st ← get_state floats true 100
    throw_if (is_broken st) motor_fault
    tcp ← get_tcp floats 600
    reached is_near st tcp rest

  abbrev pub none_left : Moments floats cart_collector → Bool
  none_left [] = true
  none_left (m ∷ moments) = false

  -- Whether the deadline has passed, which it has where the readings end.
  unfoldable pub is_over : ℕ → Act floats Bool
  unfolding now_s
  is_over end = do
    last ← gets (λ arm. none_left arm.later)
    now ← now_s floats
    pure (last || leb end now)

  -- The loop, with the rounds that are left. Each of them reads the clock.
  unfoldable pub pose_loop : (List Double → Bool) → ℕ → ℕ → Act floats (RobotState Double)
  unfolding is_over get_state get_tcp
  pose_loop is_near end zero = throw motion_timeout
  pose_loop is_near end (suc rounds) = do
    over ← is_over end
    if over then throw motion_timeout else pose_round is_near (pose_loop is_near end rounds)

  -- `is_near tcp goal pos_tol rpy_tol` is `pose_near`.
  unfoldable pub move_p :
      (List Double → List Double → Double → Double → Bool)
      → Result (List Double)
      → Double
      → Double
      → Double
      → Act floats (RobotState Double)
  unfolding require is_speed precheck_q write_cmd answer now_s pose_loop
  move_p is_near pose speed pos_tol rpy_tol = do
    require floats
    throw_if (not (less (nought floats) pos_tol) || not (less (nought floats) rpy_tol))
        invalid_command
    vec ← result pose
    throw_if (not (is_speed floats speed)) invalid_command
    result (← gets (λ arm. precheck_q floats arm.limits vec))
    write_cmd floats 0x02 (pack_f32s floats vec ++ pack_f32le floats speed) true
    answer floats 0x45 1000 (some 0x02)
    timeout ← gets (λ arm. arm.tol.move_timeout)
    start ← now_s floats
    rounds ← gets (λ arm. length arm.later)
    pose_loop (λ tcp. is_near tcp vec pos_tol rpy_tol) (start + timeout) rounds
