-- ===== src/Protocol/Tables.antt =====
-- The tables of `src/protocol.cpp`: which entry point sends which command, and which query has an
-- answer with an id of its own.
use Prim.Native.String.{String}
use litearm_cpp.Base.{ℕ, List, [], ◌∷◌, Option, none, some, ◌==◌, ◌||◌, if◌then◌else◌, Bool, false}

pub record CommandCoverage : Type 0 where
  pub command : ℕ
  pub entry_point : String

pub record Answer : Type 0 where
  pub command : ℕ
  pub answer_id : ℕ

abbrev covers : ℕ → String → CommandCoverage
covers command entry_point = record { command = command; entry_point = entry_point }

abbrev answers : ℕ → ℕ → Answer
answers command answer_id = record { command = command; answer_id = answer_id }

abbrev pub command_coverage : List CommandCoverage
command_coverage =
    covers 0x01 "Arm.movej"
    ∷ covers 0x07 "Arm.movej_sync"
    ∷ covers 0x02 "Arm.move_p"
    ∷ covers 0x03 "Arm.move_js"
    ∷ covers 0x04 "Arm.send_mit"
    ∷ covers 0x05 "Arm.send_mit_all"
    ∷ covers 0x06 "Arm.zero_g"
    ∷ covers 0x08 "Arm.joint_follow"
    ∷ covers 0x10 "Arm.enable"
    ∷ covers 0x11 "Arm.disable"
    ∷ covers 0x12 "Arm.emergency_stop"
    ∷ covers 0x13 "Arm.clear_faults"
    ∷ covers 0x14 "Arm.reset"
    ∷ covers 0x15 "Arm.enter_dfu"
    ∷ covers 0x20 "Arm.set_motion_mode"
    ∷ covers 0x21 "Arm.set_speed"
    ∷ covers 0x22 "Arm.params.set_joint_param"
    ∷ covers 0x23 "Arm.params.set_joint_limits"
    ∷ covers 0x24 "Arm.params.get_joint_param"
    ∷ covers 0x25 "Arm.save_params"
    ∷ covers 0x26 "Arm.set_ff_vec"
    ∷ covers 0x27 "Arm.set_ff_mask"
    ∷ covers 0x28 "Arm.set_ff_scalar"
    ∷ covers 0x2a "Arm.home"
    ∷ covers 0x2b "Arm.get_ff_vec"
    ∷ covers 0x2f "Arm.license"
    ∷ covers 0x3f "Arm.activate"
    ∷ covers 0x2c "Arm.get_ff_scalar"
    ∷ covers 0x2d "Arm.log.start"
    ∷ covers 0x2e "Arm.log.reader"
    ∷ covers 0x30 "Arm.model.set_body"
    ∷ covers 0x31 "Arm.ff_preset"
    ∷ covers 0x32 "Arm.model.commit"
    ∷ covers 0x33 "Arm.model.set_jm"
    ∷ covers 0x34 "Arm.model.get_body"
    ∷ covers 0x35 "Arm.model.get_jm"
    ∷ covers 0x37 "Arm.model.revert"
    ∷ covers 0x38 "Arm.model.status"
    ∷ covers 0x39 "Arm.model.get_gravity"
    ∷ covers 0x36 "Arm.params.reset_factory"
    ∷ covers 0x40 "Arm.get_status_now"
    ∷ covers 0x41 "Arm.connect"
    ∷ covers 0x42 "Arm.ik"
    ∷ covers 0x43 "Arm.get_tcp"
    ∷ covers 0x49 "Arm.diag.kin_bench"
    ∷ covers 0x3a "Arm.move_l"
    ∷ covers 0x3b "Arm.move_c"
    ∷ covers 0x3c "Arm.move_path"
    ∷ covers 0x3d "Arm.move_path"
    ∷ covers 0x3e "Arm.move_path"
    ∷ []

abbrev pub rsp_of_cmd : List Answer
rsp_of_cmd =
    answers 0x24 0x49
    ∷ answers 0x2b 0x4b
    ∷ answers 0x2c 0x4c
    ∷ answers 0x2e 0x4d
    ∷ answers 0x34 0x54
    ∷ answers 0x35 0x55
    ∷ answers 0x38 0x56
    ∷ answers 0x39 0x57
    ∷ answers 0x41 0x44
    ∷ answers 0x42 0x47
    ∷ answers 0x43 0x48
    ∷ answers 0x49 0x4a
    ∷ []

covered_in : List CommandCoverage → ℕ → Bool
covered_in [] command = false
covered_in (entry ∷ table) command = (entry.command == command) || covered_in table command

-- Whether an entry point of the library sends a command.
unfoldable pub is_covered : ℕ → Bool
unfolding covered_in
is_covered command = covered_in command_coverage command

unfoldable pub find_answer : List Answer → ℕ → Option ℕ
find_answer [] command = none
find_answer (entry ∷ table) command =
    if entry.command == command then some entry.answer_id else find_answer table command

unfoldable pub rsp_of : ℕ → Option ℕ
unfolding find_answer
rsp_of command = find_answer rsp_of_cmd command
