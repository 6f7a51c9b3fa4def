-- ===== src/Arm/Calls/Rules/Pose.antt =====
-- `move_p` preserves a stable predicate.
use litearm_cpp.Base.{ℕ, zero, suc, List, Option, none, some, Bool}
use litearm_cpp.Errors.{Result}
use litearm_cpp.Action.Preserves.{Preserves, Preserves-if, Preserves-pure, preserves_rules}
use litearm_cpp.Floats.{Floats}
use litearm_cpp.State.{RobotState}
use litearm_cpp.Arm.{Arm, Act}
use litearm_cpp.Arm.Stable.{Stable, now_s-Preserves, require-Preserves, answer-Preserves}
use litearm_cpp.Arm.Pose.{reached, pose_loop, move_p}
use litearm_cpp.Arm.Calls.Rules.Settle.{is_over-Preserves}
use litearm_cpp.Arm.Calls.Rules.Reading.{get_state-Preserves, get_tcp-Preserves}

module _ (floats : Floats) (P : Arm floats → Type 0) (stable : Stable floats P) where
  open floats use {Double}
  open stable use {linked, commanded}

  reached-Preserves :
      (is_near : List Double → Bool) (st : Option (RobotState Double)) (tcp : Option (List Double))
      (rest : Act floats (RobotState Double))
      → Preserves P rest
      → Preserves P (reached floats is_near st tcp rest)
  reached-Preserves is_near none tcp rest h = h
  reached-Preserves is_near (some st) none rest h = h
  reached-Preserves is_near (some st) (some tcp) rest h =
      Preserves-if P (is_near tcp) _ _ (Preserves-pure P st) h

  pose_loop-Preserves :
      (is_near : List Double → Bool) (end rounds : ℕ)
      → Preserves P (pose_loop floats is_near end rounds)
  unfolding pose_loop
  pose_loop-Preserves is_near end zero = search preserves_rules
  pose_loop-Preserves is_near end (suc rounds) =
      let rest = pose_loop-Preserves is_near end rounds in
      search
        (
          preserves_rules, is_over-Preserves, get_state-Preserves, get_tcp-Preserves,
          reached-Preserves,
        )
        depth 16

  pub move_p-Preserves :
      (is_near : List Double → List Double → Double → Double → Bool) (pose : Result (List Double))
      (speed pos_tol rpy_tol : Double)
      → Preserves P (move_p floats is_near pose speed pos_tol rpy_tol)
  unfolding move_p
  move_p-Preserves is_near pose speed pos_tol rpy_tol =
      search
        (
          preserves_rules, require-Preserves, commanded, answer-Preserves, now_s-Preserves,
          pose_loop-Preserves,
        )
        depth 20
