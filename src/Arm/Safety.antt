-- ===== src/Arm/Safety.antt =====
-- Enabling and stopping: `enable` to `set_speed` of `src/arm.cpp`. A count of attempts is a natural
-- number, since zero and the negative ones alike make no attempt; other `int` arguments are natural
-- numbers, with `none` for the negative ones.
use litearm_cpp.Base.{
  ℕ, zero, suc, [], ◌∷◌, none, some, Bool, true, false, not, ◌==◌, ltb, if◌then◌else◌,
}
use litearm_cpp.Errors.{
  Failure, command_rejected, unsupported_by_firmware, lite_arm, invalid_command,
}
use litearm_cpp.Errors.Reason.{is_enable_retryable}
use litearm_cpp.Action.{pure, throw, throw_if, catch_all, ◌>>◌}
use litearm_cpp.Floats.{Floats}
use litearm_cpp.Params.{Index}
use litearm_cpp.Arm.{Act, require, write_cmd, cmd_expect_ack, answer}

-- Whether the catch of `enable` goes on with the next attempt.
unfoldable pub is_retried : Failure → Bool
is_retried (command_rejected cmd code) = is_enable_retryable code
is_retried (unsupported_by_firmware cmd code) = is_enable_retryable code
is_retried e = false

module _ (floats : Floats) where
  -- The catch, with the attempts that are left and the next rounds of the loop.
  abbrev pub next_attempt : ℕ → Act floats (Unit {0}) → Failure → Act floats (Unit {0})
  next_attempt zero rest e = throw e
  next_attempt (suc left) rest e = if is_retried e then rest else throw e

  -- One attempt.
  abbrev pub ack_enable : Act floats (Unit {0})
  ack_enable = do answer floats 0x45 1000 (some 0x10); pure tt

  unfoldable pub enable_loop : ℕ → Act floats (Unit {0})
  unfolding write_cmd answer
  enable_loop zero = throw lite_arm
  enable_loop (suc left) = do
    write_cmd floats 0x10 [] true
    catch_all ack_enable (next_attempt left (enable_loop left))

  unfoldable pub enable : ℕ → Act floats (Unit {0})
  unfolding require enable_loop
  enable attempts = do require floats; enable_loop attempts

  unfoldable pub disable : Act floats (Unit {0})
  unfolding write_cmd require answer
  disable = do
    write_cmd floats 0x11 [] false
    require floats
    answer floats 0x45 1200 (some 0x11)
    pure tt

  unfoldable pub emergency_stop : Act floats (Unit {0})
  unfolding write_cmd require answer
  emergency_stop = do
    write_cmd floats 0x12 [] false
    require floats
    answer floats 0x45 1200 (some 0x12)
    pure tt

  unfoldable pub reset : Act floats (Unit {0})
  unfolding cmd_expect_ack
  reset = cmd_expect_ack floats 0x14 [] 1200

  unfoldable pub clear_faults : Act floats (Unit {0})
  unfolding cmd_expect_ack
  clear_faults = cmd_expect_ack floats 0x13 [] 1200

  -- Every mode but 0 is refused, so that the byte is 0.
  unfoldable pub set_motion_mode : Index → Act floats (Unit {0})
  unfolding cmd_expect_ack
  set_motion_mode none = throw invalid_command
  set_motion_mode (some mode) = do
    throw_if (ltb 255 mode) invalid_command
    throw_if (not (mode == 0)) invalid_command
    cmd_expect_ack floats 0x20 (mode ∷ []) 1200

  unfoldable pub park : Act floats (Unit {0})
  unfolding set_motion_mode
  park = set_motion_mode (some 0)

  unfoldable pub set_speed : Index → Act floats (Unit {0})
  unfolding cmd_expect_ack
  set_speed none = throw invalid_command
  set_speed (some percent) = do
    throw_if (ltb 100 percent) invalid_command
    cmd_expect_ack floats 0x21 (percent ∷ []) 1200
