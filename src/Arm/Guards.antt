-- ===== src/Arm/Guards.antt =====
-- The guard before each frame in one equation.
use litearm_cpp.Base.{◌≡◌, refl, Bool-cases, inl, inr, if◌then◌else◌}
use litearm_cpp.Errors.{Result, ok, err, arm_is_in_dfu, forked_session, not_connected}
use litearm_cpp.Action.{gets, throw_if, ◌>>=◌}
use litearm_cpp.Floats.{Floats}
use litearm_cpp.Arm.{Arm, is_own, reject_if_in_dfu, reject_if_wrong_process, require}

module _ (floats : Floats) where
  abbrev pub admitted : Arm floats → Result (Unit {0})
  admitted arm =
      if arm.dfu_entered
      then err arm_is_in_dfu
      else if is_own floats arm.pid arm.current_pid
      then (if arm.ack_open then ok tt else err not_connected)
      else err forked_session

  pub require_lem : (arm : Arm floats) → require floats arm ≡ (admitted arm, arm)
  unfolding require reject_if_in_dfu reject_if_wrong_process gets throw_if ◌>>=◌
  require_lem arm = elim (Bool-cases arm.dfu_entered) [
    | inl d ↦ rw d refl
    | inr d ↦ elim (Bool-cases (is_own floats arm.pid arm.current_pid)) [
      | inl o ↦ elim (Bool-cases arm.ack_open) [
        | inl a ↦ rw (d, o, a) refl
        | inr a ↦ rw (d, o, a) refl
      ]
      | inr o ↦ rw (d, o) refl
    ]
  ]
