-- ===== src/Protocol/Status.antt =====
-- The status frame: `mode_name`, `flag_name`, `JointRaw`, `StatusDecoded` and `decode_status` of
-- `protocol.hpp` and `src/protocol.cpp`.
pub mod Layout
pub mod Bytes
mod Examples
use Prim.Native.String.{String}
use litearm_cpp.Base.{
  ℕ, zero, suc, ◌+◌, ◌-◌, ◌*◌, ◌/◌, ◌%◌, ◌^◌, not, ◌&&◌, List, [], ◌∷◌, Option, none, some, ◌==◌,
  ltb, bit_at, if◌then◌else◌, length,
}
use litearm_cpp.Floats.{Floats}
use litearm_cpp.Protocol.Frame.{byte_at}
use litearm_cpp.Protocol.Scalar.{read_u16le, f32_at}

pub mode_name : ℕ → String
mode_name zero = "INIT"
mode_name (suc zero) = "MOVE_J"
mode_name (suc (suc zero)) = "MOVE_P"
mode_name (suc (suc (suc zero))) = "MOVE_JS"
mode_name (suc (suc (suc (suc zero)))) = "MOVE_MIT"
mode_name (suc (suc (suc (suc (suc zero))))) = "MIT_ALL"
mode_name (suc (suc (suc (suc (suc (suc zero)))))) = "EMERGENCY"
mode_name (suc (suc (suc (suc (suc (suc (suc zero))))))) = "ZERO_G"
mode_name _ = "UNKNOWN"

pub flag_name : ℕ → String
flag_name zero = "FAULT"
flag_name (suc zero) = "WD_TRIPPED"
flag_name (suc (suc zero)) = "FB_STALE"
flag_name (suc (suc (suc zero))) = "TEMP_WARN"
flag_name (suc (suc (suc (suc zero)))) = "POS_VIOL"
flag_name (suc (suc (suc (suc (suc zero))))) = "OVERSPEED"
flag_name _ = "UNKNOWN"

pub record JointRaw (D : Type 0) : Type 0 where
  pub q : D
  pub dq : D
  pub tau : D
  pub t_mos : D
  pub t_coil : D
  pub err : ℕ

pub record StatusDecoded (D : Type 0) : Type 0 where
  pub flags : ℕ
  pub seq : ℕ
  pub mode : ℕ
  pub flag_names : List String
  pub joints : List (JointRaw D)
  pub joint_fault : ℕ

-- `for (int k = 0; k < 6; ++k)`, from `k` with the rounds left.
pub names_from : ℕ → ℕ → ℕ → List String
names_from flags zero k = []
names_from flags (suc left) k =
    let rest = names_from flags left (k + 1) in if bit_at flags k then flag_name k ∷ rest else rest

module _ (floats : Floats) where
  open floats use {Double}

  pub joint_at : List ℕ → ℕ → JointRaw Double
  joint_at payload off = record {
    q = f32_at floats payload off;
    dq = f32_at floats payload (off + 4);
    tau = f32_at floats payload (off + 8);
    t_mos = f32_at floats payload (off + 12);
    t_coil = f32_at floats payload (off + 16);
    err = byte_at payload (off + 20);
  }

  -- `for (size_t i = 0; i < n; ++i)`, from `i` with the rounds left.
  pub joints_from : List ℕ → ℕ → ℕ → List (JointRaw Double)
  joints_from payload zero i = []
  joints_from payload (suc left) i =
      joint_at payload (4 + i * 21) ∷ joints_from payload left (i + 1)

  unfoldable pub decode_status : List ℕ → Option (StatusDecoded Double)
  decode_status payload =
      if ltb (length payload) 4
      then none
      else let n = (length payload - 4) / 21 in
        if not (n == 7)
        then none
        else let tail = length payload - 4 - n * 21 in
          if not (tail == 0) && not (tail == 2)
          then none
          else some (record {
            flags = read_u16le payload 0;
            seq = read_u16le payload 2;
            mode = read_u16le payload 0 / 2 ^ 6 % 2 ^ 3;
            flag_names = names_from (read_u16le payload 0) 6 0;
            joints = joints_from payload n 0;
            joint_fault = if tail == 2 then read_u16le payload (4 + n * 21) else 0;
          })
