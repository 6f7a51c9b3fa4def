-- ===== src/Errors.antt =====
-- The exceptions of `include/litearm/errors.hpp` as values. A throw is `err`, and a catch is a
-- match on it. The message texts are left out; the firmware's command and code are kept.
pub mod Table
pub mod Reason
mod Examples
use litearm_cpp.Base.{ℕ, Bool, true, false}

-- `invalid_argument` and `out_of_range` are the standard library's; the others are the classes of errors.hpp that the
-- modelled code throws.
pub data Failure : Type 0 where
  lite_arm not_connected forked_session transport firmware_mismatch invalid_command motor_fault
        motion_timeout ik_failed cartesian_plan motion_superseded cart_reply_lost arm_is_in_dfu
        invalid_argument out_of_range :
      Failure
  command_rejected unsupported_by_firmware : ℕ → ℕ → Failure

pub data Result {ℓ} (R : Type ℓ) : Type ℓ where
  err : Failure → Result R
  ok : R → Result R

-- `if (!holds) throw failure;` before the rest.
abbrev pub require {ℓ} : {R : Type ℓ} → Bool → Failure → Result R → Result R
require false failure rest = err failure
require true failure rest = rest

-- A call that may throw before the rest.
abbrev pub after {ℓ} : {R : Type ℓ} → Result (Unit {0}) → Result R → Result R
after (err failure) rest = err failure
after (ok done) rest = rest

-- `catch (const CommandRejectedError&)`, which takes the derived class too.
abbrev pub is_command_rejected : Failure → Bool
is_command_rejected (command_rejected cmd code) = true
is_command_rejected (unsupported_by_firmware cmd code) = true
is_command_rejected e = false
