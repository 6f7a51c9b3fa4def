-- ===== src/Errors/Examples.antt =====
-- Error replies of the firmware.
use litearm_cpp.Base.{◌≡◌, refl, [], ◌∷◌, some}
use litearm_cpp.Errors.{unsupported_by_firmware, command_rejected}
use litearm_cpp.Errors.Table.{find_text, err_text}
use litearm_cpp.Errors.Reason.{raise_firmware_error}

not_there : raise_firmware_error (0x3a ∷ 0x00 ∷ []) ≡ unsupported_by_firmware 0x3a 0x00
unfolding raise_firmware_error
not_there = refl

turned_down : raise_firmware_error (0x10 ∷ 0x03 ∷ []) ≡ command_rejected 0x10 0x03
unfolding raise_firmware_error
turned_down = refl

log_too_long : find_text err_text 0x2d 0x02 ≡ some "超容量 —— 请求的拍数超过 LOG_MAX_SAMPLES"
unfolding find_text
log_too_long = refl
