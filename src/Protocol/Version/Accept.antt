-- ===== src/Protocol/Version/Accept.antt =====
-- What `parse_firmware_version` makes of a version text.
use litearm_cpp.Base.{
  ℕ, ◌^◌, ◌≤◌, ◌<◌, ◌≡◌, refl, ap, ◌∙◌, ◌⊎◌, inl, inr, List, [], ◌∷◌, ◌++◌, Option, none, some,
  arith, true, false, ◌==◌, ◌&&◌, All, if-true, append-nil, All-append, ltb-cases,
}
use litearm_cpp.Errors.{ok, err, out_of_range}
use litearm_cpp.Protocol.Version.{
  is_space, skip_spaces, after_prefix, litearm, cut, split, all_digits, is_number, value_from, stoi,
  variant_of, numbers, from_parts, from_body, parse_firmware_version,
}

skip_spaces-append :
    (spaces text : List ℕ)
    → All (λ c. is_space c ≡ true) spaces
    → skip_spaces (spaces ++ litearm ++ text) ≡ litearm ++ text
unfolding skip_spaces
skip_spaces-append [] text all = refl
skip_spaces-append (c ∷ spaces) text (h, all) =
    let rest = skip_spaces-append spaces text all in ground (arith, rest, h)

cut-append :
    (c : ℕ) (a rest : List ℕ)
    → All (λ x. (x == c) ≡ false) a
    → cut c (a ++ c ∷ rest) ≡ (a, some rest)
unfolding cut
cut-append c [] rest all = ground arith
cut-append c (x ∷ a) rest (h, all) = let later = cut-append c a rest all in rw (h, later) refl

cut_whole : (c : ℕ) (a : List ℕ) → All (λ x. (x == c) ≡ false) a → cut c a ≡ (a, none)
unfolding cut
cut_whole c [] all = refl
cut_whole c (x ∷ a) (h, all) = let later = cut_whole c a all in rw (h, later) refl

split_whole : (c : ℕ) (a : List ℕ) → All (λ x. (x == c) ≡ false) a → split c a ≡ a ∷ []
unfolding split
split_whole c [] all = refl
split_whole c (x ∷ a) (h, all) = let later = split_whole c a all in rw (h, later) refl

split-append :
    (c : ℕ) (a rest : List ℕ)
    → All (λ x. (x == c) ≡ false) a
    → split c (a ++ c ∷ rest) ≡ a ∷ split c rest
unfolding split
split-append c [] rest all = ground arith
split-append c (x ∷ a) rest (h, all) = let later = split-append c a rest all in rw (h, later) refl

digits_apart : (c : ℕ) (a : List ℕ) → c < 48 → all_digits a ≡ true → All (λ x. (x == c) ≡ false) a
unfolding all_digits
digits_apart c [] low h = tt
digits_apart c (x ∷ a) low h = (ground (arith, low, h), digits_apart c a low (ground (arith, h)))

is_number-digits : (a : List ℕ) → is_number a ≡ true → all_digits a ≡ true
is_number-digits [] h = ground (arith, h)
is_number-digits (c ∷ a) h = h

abbrev pub value : List ℕ → ℕ
value = value_from 0

-- The parts of a version text.
abbrev pub number_text : List ℕ → List ℕ → List ℕ → List ℕ
number_text a b c = a ++ 46 ∷ (b ++ 46 ∷ c)

abbrev pub tail_text : Option (List ℕ) → List ℕ
tail_text none = []
tail_text (some variant) = 45 ∷ variant

abbrev pub version_text : List ℕ → List ℕ → List ℕ → List ℕ → Option (List ℕ) → List ℕ
version_text spaces a b c variant = spaces ++ litearm ++ (number_text a b c ++ tail_text variant)

number_text-apart :
    (a b c : List ℕ)
    → all_digits a ≡ true
    → all_digits b ≡ true
    → all_digits c ≡ true
    → All (λ x. (x == 45) ≡ false) (number_text a b c)
number_text-apart a b c ha hb hc =
    All-append (λ x. (x == 45) ≡ false) a (46 ∷ (b ++ 46 ∷ c)) (digits_apart 45 a (omega arith) ha)
      (
        refl,
        All-append (λ x. (x == 45) ≡ false) b (46 ∷ c) (digits_apart 45 b (omega arith) hb)
            (refl, digits_apart 45 c (omega arith) hc),
      )

number_text-split :
    (a b c : List ℕ)
    → all_digits a ≡ true
    → all_digits b ≡ true
    → all_digits c ≡ true
    → split 46 (number_text a b c) ≡ a ∷ b ∷ c ∷ []
number_text-split a b c ha hb hc =
    split-append 46 a (b ++ 46 ∷ c) (digits_apart 46 a (omega arith) ha)
    ∙ ap (◌∷◌ a) (
        split-append 46 b c (digits_apart 46 b (omega arith) hb)
        ∙ ap (◌∷◌ b) (split_whole 46 c (digits_apart 46 c (omega arith) hc)))

cut-tail :
    (text : List ℕ) (variant : Option (List ℕ))
    → All (λ x. (x == 45) ≡ false) text
    → cut 45 (text ++ tail_text variant) ≡ (text, variant)
cut-tail text none apart = ap (cut 45) (append-nil text) ∙ cut_whole 45 text apart
cut-tail text (some variant) apart = cut-append 45 text variant apart

parse_numbers :
    (spaces a b c : List ℕ) (variant : Option (List ℕ))
    → All (λ x. is_space x ≡ true) spaces
    → is_number a ≡ true
    → is_number b ≡ true
    → is_number c ≡ true
    → parse_firmware_version (version_text spaces a b c variant)
      ≡ numbers (stoi a) (stoi b) (stoi c) (variant_of variant)
unfolding parse_firmware_version after_prefix
parse_numbers spaces a b c variant blank na nb nc =
    let ha = is_number-digits a na in
    let hb = is_number-digits b nb in
    let hc = is_number-digits c nc in
    let text = number_text a b c in
    ap (λ (t : List ℕ). from_body (after_prefix litearm t))
      (skip_spaces-append spaces (text ++ tail_text variant) blank)
    ∙ ap (λ (h : List ℕ × Option (List ℕ)). from_parts (split 46 h.0) (variant_of h.1))
        (cut-tail text variant (number_text-apart a b c ha hb hc))
    ∙ ap (λ (parts : List (List ℕ)). from_parts parts (variant_of variant))
        (number_text-split a b c ha hb hc)
    ∙ if-true (is_number a && is_number b && is_number c)
        (numbers (stoi a) (stoi b) (stoi c) (variant_of variant)) (ok none)
        (ground (arith, na, nb, nc))

stoi_cases :
    (text : List ℕ)
    → ((value text < 2 ^ 31) × (stoi text ≡ ok (value text)))
      ⊎ ((2 ^ 31 ≤ value text) × (stoi text ≡ err out_of_range))
unfolding stoi
stoi_cases text = elim (ltb-cases (value text) (2 ^ 31)) [
  | inl fits ↦ inl (fits, ground (arith, fits))
  | inr large ↦ inr (large, ground (arith, large))
]

-- A text of blanks, the name and three numbers, with or without a variant, is parsed to its numbers
-- and its variant when the numbers fit an `int`; when one of them does not fit, the exception of the
-- conversion goes out to the caller.
pub parse_cases :
    (spaces a b c : List ℕ) (variant : Option (List ℕ))
    → All (λ x. is_space x ≡ true) spaces
    → is_number a ≡ true
    → is_number b ≡ true
    → is_number c ≡ true
    → ((value a < 2 ^ 31)
        × (value b < 2 ^ 31)
        × (value c < 2 ^ 31)
        × (parse_firmware_version (version_text spaces a b c variant)
            ≡ ok (
                some (record {
                  major = value a;
                  minor = value b;
                  patch = value c;
                  variant = variant_of variant;
                }))))
      ⊎ (((2 ^ 31 ≤ value a) ⊎ (2 ^ 31 ≤ value b) ⊎ (2 ^ 31 ≤ value c))
          × (parse_firmware_version (version_text spaces a b c variant) ≡ err out_of_range))
parse_cases spaces a b c variant blank na nb nc =
    let parsed = parse_numbers spaces a b c variant blank na nb nc in
    elim (stoi_cases a) [
      | inr (large, ea) ↦ inr (inl large, parsed ∙ simp ea)
      | inl (fa, ea) ↦ elim (stoi_cases b) [
        | inr (large, eb) ↦ inr (inr (inl large), parsed ∙ simp (ea, eb))
        | inl (fb, eb) ↦ elim (stoi_cases c) [
          | inr (large, ec) ↦ inr (inr (inr large), parsed ∙ simp (ea, eb, ec))
          | inl (fc, ec) ↦ inl (fa, fb, fc, parsed ∙ simp (ea, eb, ec))
        ]
      ]
    ]
