-- ===== src/State.antt =====
-- The state of the robot as the status frame tells it: `RobotState`, its queries and `decode_state`
-- of `include/litearm/state.hpp` and `src/state.cpp`.
pub mod Faults
mod Examples
use Prim.Native.String.{String}
use litearm_cpp.Base.{
  ℕ, zero, suc, ◌+◌, ◌∷◌, List, [], map, Option, none, some, Bool, not, ◌||◌, ◌==◌, bit_at,
  if◌then◌else◌,
}
use litearm_cpp.Errors.{Result, ok, err, transport}
use litearm_cpp.Floats.{Floats}
use litearm_cpp.Protocol.Status.{JointRaw, StatusDecoded, decode_status, mode_name}

pub record JointState (D : Type 0) : Type 0 where
  pub q : D
  pub dq : D
  pub tau : D
  pub t_mos : D
  pub t_coil : D
  pub err : ℕ

pub record RobotState (D : Type 0) : Type 0 where
  pub mode : ℕ
  pub mode_name : String
  pub flags : ℕ
  pub flag_names : List String
  pub seq : ℕ
  pub joints : List (JointState D)
  pub joint_fault : ℕ

-- `for (int i = 0; i < MAX_JOINTS; ++i)`, from `i` with the rounds left.
unfoldable pub axes_from : ℕ → ℕ → ℕ → List ℕ
axes_from joint_fault zero i = []
axes_from joint_fault (suc left) i =
    let rest = axes_from joint_fault left (i + 1) in if bit_at joint_fault i then i ∷ rest else rest

module _ {D : Type 0} where
  unfoldable pub fault_axes : RobotState D → List ℕ
  fault_axes s = axes_from s.joint_fault 16 0

  unfoldable pub enabled : RobotState D → Bool
  enabled s = bit_at s.flags 9

  unfoldable pub cart_busy : RobotState D → Bool
  cart_busy s = bit_at s.flags 10

  unfoldable pub drop_hold_inferred : RobotState D → Bool
  drop_hold_inferred s = not (s.joint_fault == 0)

  unfoldable pub faulted : RobotState D → Bool
  faulted s = bit_at s.flags 0 || (s.mode == 6) || not (s.joint_fault == 0)

  unfoldable pub positions : RobotState D → List D
  positions s = map (λ j. j.q) s.joints

  unfoldable pub velocities : RobotState D → List D
  velocities s = map (λ j. j.dq) s.joints

  pub torques : RobotState D → List D
  torques s = map (λ j. j.tau) s.joints

  abbrev joint_state : JointRaw D → JointState D
  joint_state j = record {
    q = j.q;
    dq = j.dq;
    tau = j.tau;
    t_mos = j.t_mos;
    t_coil = j.t_coil;
    err = j.err;
  }

  abbrev pub robot_state : StatusDecoded D → RobotState D
  robot_state s = record {
    mode = s.mode;
    mode_name = mode_name s.mode;
    flags = s.flags;
    flag_names = s.flag_names;
    seq = s.seq;
    joints = map joint_state s.joints;
    joint_fault = s.joint_fault;
  }

module _ (floats : Floats) where
  open floats use {Double}

  abbrev decoded : Option (StatusDecoded Double) → Result (RobotState Double)
  decoded none = err transport
  decoded (some s) = ok (robot_state s)

  unfoldable pub decode_state : List ℕ → Result (RobotState Double)
  decode_state payload = decoded (decode_status floats payload)
