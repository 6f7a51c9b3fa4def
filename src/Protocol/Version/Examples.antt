-- ===== src/Protocol/Version/Examples.antt =====
-- Version texts.
use litearm_cpp.Base.{ℕ, ◌^◌, ◌≤◌, ◌<◌, ◌≡◌, refl, ◌⊎◌, List, [], ◌∷◌, none, some, true}
use litearm_cpp.Errors.{ok, err, out_of_range}
use litearm_cpp.Protocol.Version.{
  parse_firmware_version, skip_spaces, after_prefix, cut, split, all_digits, stoi, value_from,
}
use litearm_cpp.Protocol.Version.Accept.{parse_cases, version_text, value}

-- "1", "5" and "2", and the variant "7J".
abbrev one : List ℕ
one = 49 ∷ []

abbrev five : List ℕ
five = 53 ∷ []

abbrev two : List ℕ
two = 50 ∷ []

abbrev seven_joints : List ℕ
seven_joints = 55 ∷ 74 ∷ []

-- "9999999999"
abbrev nines : List ℕ
nines = 57 ∷ 57 ∷ 57 ∷ 57 ∷ 57 ∷ 57 ∷ 57 ∷ 57 ∷ 57 ∷ 57 ∷ []

too_large : parse_firmware_version (version_text [] one nines two none) ≡ err out_of_range
unfolding parse_firmware_version skip_spaces after_prefix cut split all_digits stoi value_from
too_large = refl

one_digit : all_digits one ≡ true
unfolding all_digits
one_digit = refl

five_digit : all_digits five ≡ true
unfolding all_digits
five_digit = refl

two_digit : all_digits two ≡ true
unfolding all_digits
two_digit = refl

parse_cases_example :
    ((value one < 2 ^ 31)
      × (value five < 2 ^ 31)
      × (value two < 2 ^ 31)
      × (parse_firmware_version (version_text (32 ∷ []) one five two (some seven_joints))
          ≡ ok (
              some (record {
                major = value one;
                minor = value five;
                patch = value two;
                variant = seven_joints;
              }))))
    ⊎ (((2 ^ 31 ≤ value one) ⊎ (2 ^ 31 ≤ value five) ⊎ (2 ^ 31 ≤ value two))
        × (parse_firmware_version (version_text (32 ∷ []) one five two (some seven_joints))
            ≡ err out_of_range))
parse_cases_example =
    parse_cases (32 ∷ []) one five two (some seven_joints) (refl, tt) one_digit five_digit two_digit
