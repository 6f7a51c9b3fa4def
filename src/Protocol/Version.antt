-- ===== src/Protocol/Version.antt =====
-- The firmware's version text: `FirmwareVersion` and `parse_firmware_version` of `protocol.hpp` and
-- `src/protocol.cpp`. A text is the list of its bytes.
pub mod Accept
mod Examples
use litearm_cpp.Base.{
  ℕ, zero, suc, ◌+◌, ◌-◌, ◌*◌, ◌%◌, ◌^◌, List, [], ◌∷◌, ◌++◌, Option, none, some, Bool, true, false,
  not, ◌==◌, ◌&&◌, ◌||◌, leb, ltb, if◌then◌else◌,
}
use litearm_cpp.Errors.{Result, ok, err, out_of_range}

pub record FirmwareVersion : Type 0 where
  pub major : ℕ
  pub minor : ℕ
  pub patch : ℕ
  pub variant : List ℕ

-- `operator<` and `operator==`, which do not look at the variant.
unfoldable pub version_lt : FirmwareVersion → FirmwareVersion → Bool
version_lt v o =
    if not (v.major == o.major)
    then ltb v.major o.major
    else if not (v.minor == o.minor)
    then ltb v.minor o.minor
    else ltb v.patch o.patch

unfoldable pub version_eq : FirmwareVersion → FirmwareVersion → Bool
version_eq v o = (v.major == o.major) && (v.minor == o.minor) && (v.patch == o.patch)

-- `std::isspace` and `std::isdigit` in the C locale.
abbrev pub is_space : ℕ → Bool
is_space c = (leb 9 c && leb c 13) || (c == 32)

abbrev pub is_digit : ℕ → Bool
is_digit c = leb 48 c && leb c 57

unfoldable pub skip_spaces : List ℕ → List ℕ
skip_spaces [] = []
skip_spaces (c ∷ text) = let rest = skip_spaces text in if is_space c then rest else c ∷ text

-- The text after a prefix, if it has that prefix.
unfoldable pub after_prefix : List ℕ → List ℕ → Option (List ℕ)
after_prefix [] text = some text
after_prefix (p ∷ prefix) [] = none
after_prefix (p ∷ prefix) (c ∷ text) =
    let rest = after_prefix prefix text in if p == c then rest else none

abbrev pub litearm : List ℕ
litearm = 76 ∷ 105 ∷ 116 ∷ 101 ∷ 97 ∷ 114 ∷ 109 ∷ []

-- The text before the first byte `c`, and the text after it if there is one.
unfoldable pub cut : ℕ → List ℕ → List ℕ × Option (List ℕ)
cut c [] = ([], none)
cut c (x ∷ text) = let rest = cut c text in if x == c then ([], some text) else (x ∷ rest.0, rest.1)

abbrev pub grow : ℕ → List (List ℕ) → List (List ℕ)
grow x [] = (x ∷ []) ∷ []
grow x (part ∷ parts) = (x ∷ part) ∷ parts

-- `while (true)`: the parts between the bytes `c`.
unfoldable pub split : ℕ → List ℕ → List (List ℕ)
split c [] = [] ∷ []
split c (x ∷ text) = let rest = split c text in if x == c then [] ∷ rest else grow x rest

unfoldable pub all_digits : List ℕ → Bool
all_digits [] = true
all_digits (c ∷ text) = is_digit c && all_digits text

abbrev pub is_number : List ℕ → Bool
is_number [] = false
is_number (c ∷ text) = all_digits (c ∷ text)

-- The value of digits after those that made `n`.
unfoldable pub value_from : ℕ → List ℕ → ℕ
value_from n [] = n
value_from n (c ∷ text) = value_from (n * 10 + (c - 48)) text

-- `std::stoi` on digits.
unfoldable pub stoi : List ℕ → Result ℕ
stoi text = let n = value_from 0 text in if ltb n (2 ^ 31) then ok n else err out_of_range

abbrev pub variant_of : Option (List ℕ) → List ℕ
variant_of none = []
variant_of (some text) = text

abbrev pub numbers : Result ℕ → Result ℕ → Result ℕ → List ℕ → Result (Option FirmwareVersion)
numbers (ok a) (ok b) (ok c) variant =
    ok (some (record { major = a; minor = b; patch = c; variant = variant }))
numbers (err e) b c variant = err e
numbers (ok a) (err e) c variant = err e
numbers (ok a) (ok b) (err e) variant = err e

abbrev pub from_parts : List (List ℕ) → List ℕ → Result (Option FirmwareVersion)
from_parts (a ∷ b ∷ c ∷ []) variant =
    if is_number a && is_number b && is_number c
    then numbers (stoi a) (stoi b) (stoi c) variant
    else ok none
from_parts _ variant = ok none

abbrev pub from_body : Option (List ℕ) → Result (Option FirmwareVersion)
from_body none = ok none
from_body (some s) = let halves = cut 45 s in from_parts (split 46 halves.0) (variant_of halves.1)

unfoldable pub parse_firmware_version : List ℕ → Result (Option FirmwareVersion)
parse_firmware_version ver = from_body (after_prefix litearm (skip_spaces ver))
