-- ===== src/Errors/Reason.antt =====
-- What an error reply of the firmware means: `err_reason`, `raise_firmware_error` and
-- `enable_retryable_codes` of `src/errors.cpp`.
use Prim.Native.String.{String, ◌++◌}
use litearm_cpp.Base.{
  ℕ, zero, suc, ◌/◌, ◌%◌, ◌≤◌, ◌≡◌, refl, List, [], ◌∷◌, Option, none, some, ◌==◌, ◌&&◌, ◌||◌,
  if◌then◌else◌, Bool, true, leb, arith, Option-cases, ◌⊎◌, inl, inr,
}
use litearm_cpp.Errors.{Failure, command_rejected, unsupported_by_firmware}
use litearm_cpp.Errors.Table.{Registered, find_text, find_code_text, err_text, err_code_text}
use litearm_cpp.Protocol.Tables.{is_covered}

abbrev hex_digit : ℕ → String
hex_digit zero = "0"
hex_digit (suc zero) = "1"
hex_digit (suc (suc zero)) = "2"
hex_digit (suc (suc (suc zero))) = "3"
hex_digit (suc (suc (suc (suc zero)))) = "4"
hex_digit (suc (suc (suc (suc (suc zero))))) = "5"
hex_digit (suc (suc (suc (suc (suc (suc zero)))))) = "6"
hex_digit (suc (suc (suc (suc (suc (suc (suc zero))))))) = "7"
hex_digit (suc (suc (suc (suc (suc (suc (suc (suc zero)))))))) = "8"
hex_digit (suc (suc (suc (suc (suc (suc (suc (suc (suc zero))))))))) = "9"
hex_digit (suc (suc (suc (suc (suc (suc (suc (suc (suc (suc zero)))))))))) = "A"
hex_digit (suc (suc (suc (suc (suc (suc (suc (suc (suc (suc (suc zero))))))))))) = "B"
hex_digit (suc (suc (suc (suc (suc (suc (suc (suc (suc (suc (suc (suc zero)))))))))))) = "C"
hex_digit (suc (suc (suc (suc (suc (suc (suc (suc (suc (suc (suc (suc (suc zero))))))))))))) = "D"
hex_digit (suc (suc (suc (suc (suc (suc (suc (suc (suc (suc (suc (suc (suc (suc zero)))))))))))))) =
    "E"
hex_digit _ = "F"

pub hex2 : ℕ → String
hex2 v = hex_digit (v % 256 / 16) ++ hex_digit (v % 16)

-- The text with the raw command and code, for a code that the command has no entry for.
abbrev pub with_raw_code : String → ℕ → ℕ → String
with_raw_code text command code =
    text ++ " [本命令未登记此码: cmd=0x" ++ hex2 command ++ ", code=0x" ++ hex2 code ++ "]"

abbrev pub unregistered : ℕ → ℕ → String
unregistered command code =
    "**未登记的固件错误码** cmd=0x"
    ++ hex2 command
    ++ ", code=0x"
    ++ hex2 code
    ++ " —— 子版本可能比本 SDK 新, 请对照固件 usb_cmd.c 的 usb_cmd_reply(RSP_ERR...)"

abbrev general_reason : Option String → ℕ → ℕ → String
general_reason (some text) command code = with_raw_code text command code
general_reason none command code = unregistered command code

abbrev specific_reason : Option String → ℕ → ℕ → String
specific_reason (some text) command code = text
specific_reason none command code = general_reason (find_code_text err_code_text code) command code

pub err_reason : ℕ → ℕ → String
err_reason command code = specific_reason (find_text err_text command code) command code

-- The set of codes for which `enable` is sent again.
pub is_enable_retryable : ℕ → Bool
is_enable_retryable code = code == 0x03

-- The exception that `raise_firmware_error` throws, without its message.
unfoldable pub raise_firmware_error : List ℕ → Failure
raise_firmware_error [] = unsupported_by_firmware 0 0
raise_firmware_error (command ∷ []) = unsupported_by_firmware command 0
raise_firmware_error (command ∷ code ∷ payload) =
    if code == 0x00 then unsupported_by_firmware command code else command_rejected command code

-- The codes that the table explains: up to 7, and one 8.
abbrev pub IsLowCode : ℕ → ℕ → Type 0
IsLowCode command code = (code ≤ 7) ⊎ ((code ≡ 8) × (command ≡ 0x10))

-- What the table must satisfy, entry by entry.
abbrev is_sound : Registered → Bool
is_sound entry =
    is_covered entry.command
    && leb 1 entry.code
    && (leb entry.code 7 || ((entry.code == 8) && (entry.command == 0x10)))

all_sound : List Registered → Bool
all_sound [] = true
all_sound (entry ∷ table) = is_sound entry && all_sound table

table_sound : all_sound err_text ≡ true
unfolding all_sound is_covered
table_sound = refl

find_sound :
    (table : List Registered) (command code : ℕ) (text : String)
    → all_sound table ≡ true
    → find_text table command code ≡ some text
    → (is_covered command ≡ true) × (1 ≤ code) × IsLowCode command code
unfolding all_sound find_text
find_sound [] command code text sound h = ground arith
find_sound (entry ∷ table) command code text sound h =
    let rest = find_sound table command code text in ground (arith, rest)

-- A code that the table explains for a command is one of 1 to 7, or the code 8 of `enable`, and
-- some entry point of the library sends the command.
registered_codes :
    (command code : ℕ) (text : String)
    → find_text err_text command code ≡ some text
    → (is_covered command ≡ true) × (1 ≤ code) × IsLowCode command code
registered_codes command code text h = find_sound err_text command code text table_sound h

general_low : (code : ℕ) (text : String) → find_code_text err_code_text code ≡ some text → code ≤ 7
unfolding find_code_text
general_low code text h = ground arith

no_general : (code : ℕ) → find_code_text err_code_text code ≡ none → 8 ≤ code
unfolding find_code_text
no_general code h = ground arith

-- A reason is the command's own text, for a code from 1 to 7, or the code 8 of `enable`, of a command
-- that the library sends;
-- or a general text with the raw command and code, for a code up to 7; or the text that says the
-- code is unknown, with the raw command and code, for every code from 8 on.
pub err_reason_cases :
    (command code : ℕ)
    → ((text : String) × (find_text err_text command code ≡ some text)
        × (err_reason command code ≡ text)
        × (is_covered command ≡ true)
        × (1 ≤ code)
        × IsLowCode command code)
      ⊎ ((text : String) × (find_code_text err_code_text code ≡ some text)
          × (err_reason command code ≡ with_raw_code text command code)
          × (code ≤ 7))
      ⊎ ((err_reason command code ≡ unregistered command code) × (8 ≤ code))
unfolding err_reason
err_reason_cases command code = elim (Option-cases (find_text err_text command code)) [
  | inr (text, e) ↦
      let (covered, low, high) = registered_codes command code text e in
      inl (text, e, rw e, covered, low, high)
  | inl e ↦ elim (Option-cases (find_code_text err_code_text code)) [
    | inr (text, t) ↦ inr (inl (text, t, rw (e, t), general_low code text t))
    | inl t ↦ inr (inr (rw (e, t), no_general code t))
  ]
]
