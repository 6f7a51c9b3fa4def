-- ===== src/State/Examples.antt =====
-- A state with two faulted axes.
use litearm_cpp.Base.{ℕ, ◌≡◌, ◌≢◌, ◌↔◌, refl, [], ◌∷◌, arith, true}
use litearm_cpp.State.{RobotState, axes_from, fault_axes, drop_hold_inferred}
use litearm_cpp.State.Faults.{bitmap, fault_axes-bitmap}

abbrev two_off : RobotState ℕ
two_off = record {
  mode = 1;
  mode_name = "MOVE_J";
  flags = 0x0041;
  flag_names = "FAULT" ∷ [];
  seq = 7;
  joints = [];
  joint_fault = 0x000a;
}

two_off_axes : fault_axes two_off ≡ 1 ∷ 3 ∷ []
unfolding fault_axes axes_from
two_off_axes = refl

fault_axes-bitmap_example :
    (bitmap (fault_axes two_off) ≡ 0x000a)
    × ((fault_axes two_off ≢ []) ↔ (drop_hold_inferred two_off ≡ true))
fault_axes-bitmap_example = fault_axes-bitmap two_off (omega arith)
