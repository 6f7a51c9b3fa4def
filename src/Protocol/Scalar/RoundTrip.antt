-- ===== src/Protocol/Scalar/RoundTrip.antt =====
-- What is packed is read back.
use litearm_cpp.Base.{
  ℕ, ◌+◌, ◌*◌, ◌/◌, ◌%◌, ◌^◌, ◌<◌, ◌≡◌, refl, ap, ap₂, ◌∙◌, List, [], ◌∷◌, ◌++◌, map, arith, length,
  length-append, append_assoc, drop, drop-append, get_or-drop, All-get_or,
}
use litearm_cpp.Base.Bits.{bit_or_shifted}
use litearm_cpp.Floats.{Floats}
use litearm_cpp.Protocol.Frame.{IsByte, IsBytes, byte_at}
use litearm_cpp.Protocol.Scalar.{
  u32, pack_u16le, pack_u32le, read_u16le, read_u32le, pack_f32s, f32_at, unpack_from, unpack_f32s,
}

-- Four bytes read as one number.
read_u32le_sum :
    (b : List ℕ) (off p q r s : ℕ)
    → p < 256
    → q < 256
    → r < 256
    → s < 256
    → byte_at b off ≡ p
    → byte_at b (off + 1) ≡ q
    → byte_at b (off + 2) ≡ r
    → byte_at b (off + 3) ≡ s
    → read_u32le b off ≡ p + q * 2 ^ 8 + r * 2 ^ 16 + s * 2 ^ 24
unfolding read_u32le
read_u32le_sum b off p q r s hp hq hr hs ep eq er es =
    let eq' : u32 (byte_at b (off + 1) * 2 ^ 8) ≡ q * 2 ^ 8 = omega arith in
    let er' : u32 (byte_at b (off + 2) * 2 ^ 16) ≡ r * 2 ^ 16 = omega arith in
    let es' : u32 (byte_at b (off + 3) * 2 ^ 24) ≡ s * 2 ^ 24 = omega arith in
    rw (
      ep,
      eq',
      er',
      es',
      bit_or_shifted 8 p q hp,
      bit_or_shifted 16 (p + q * 2 ^ 8) r (omega arith),
      bit_or_shifted 24 (p + q * 2 ^ 8 + r * 2 ^ 16) s (omega arith),
    )

read_u16le_sum :
    (b : List ℕ) (off p q : ℕ)
    → p < 256
    → q < 256
    → byte_at b off ≡ p
    → byte_at b (off + 1) ≡ q
    → read_u16le b off ≡ p + q * 2 ^ 8
unfolding read_u16le
read_u16le_sum b off p q hp hq ep eq = rw (ep, eq, bit_or_shifted 8 p q hp) (omega arith)

-- The bytes that stand at an offset, where a known list follows a prefix.
pub at_offset :
    (before xs after : List ℕ) (off i j : ℕ)
    → length before ≡ off
    → off + i ≡ j
    → byte_at (before ++ xs ++ after) j ≡ byte_at (xs ++ after) i
at_offset before xs after off i j n e =
    get_or-drop (before ++ xs ++ after) off i j 0 e
    ∙ ap (λ (b : List ℕ). byte_at b i)
        (ap (drop off) (append_assoc before xs after) ∙ drop-append off before (xs ++ after) n)

-- A 32-bit number that was packed at an offset is read back there, whatever stands around it.
pub read-pack_u32 :
    (before after : List ℕ) (off v : ℕ)
    → length before ≡ off
    → v < 2 ^ 32
    → read_u32le (before ++ pack_u32le v ++ after) off ≡ v
unfolding pack_u32le
read-pack_u32 before after off v n h =
    let bytes = pack_u32le v in
    read_u32le_sum (before ++ bytes ++ after) off (v % 256) (v / 2 ^ 8 % 256) (v / 2 ^ 16 % 256)
      (v / 2 ^ 24 % 256) (omega arith) (omega arith) (omega arith) (omega arith)
      (at_offset before bytes after off 0 off n (omega arith))
      (at_offset before bytes after off 1 (off + 1) n refl)
      (at_offset before bytes after off 2 (off + 2) n refl)
      (at_offset before bytes after off 3 (off + 3) n refl)
    ∙ omega arith

pub read-pack_u16 :
    (before after : List ℕ) (off v : ℕ)
    → length before ≡ off
    → v < 2 ^ 16
    → read_u16le (before ++ pack_u16le v ++ after) off ≡ v
unfolding pack_u16le
read-pack_u16 before after off v n h =
    let bytes = pack_u16le v in
    read_u16le_sum (before ++ bytes ++ after) off (v % 256) (v / 2 ^ 8 % 256) (omega arith)
      (omega arith) (at_offset before bytes after off 0 off n (omega arith))
      (at_offset before bytes after off 1 (off + 1) n refl)
    ∙ omega arith

pub length-pack_u16le : (v : ℕ) → length (pack_u16le v) ≡ 2
unfolding pack_u16le
length-pack_u16le v = refl

pub length-pack_u32le : (v : ℕ) → length (pack_u32le v) ≡ 4
unfolding pack_u32le
length-pack_u32le v = refl

module _ (floats : Floats) where
  open floats use {Double, narrow, widen, narrow_fits}

  pub length-pack_f32s :
      (values : List Double) → length (pack_f32s floats values) ≡ 4 * length values
  unfolding pack_f32s pack_u32le
  length-pack_f32s [] = refl
  length-pack_f32s (v ∷ values) = omega (arith, length-pack_f32s values)

  regroup : (a p q c : List ℕ) → a ++ (p ++ q) ++ c ≡ a ++ p ++ (q ++ c)
  regroup a p q c = simp append_assoc

  regroup_left : (a p q c : List ℕ) → a ++ (p ++ q) ++ c ≡ a ++ p ++ q ++ c
  regroup_left a p q c = simp append_assoc

  unpack_from-pack :
      (before after : List ℕ) (values : List Double) (off i : ℕ)
      → length before ≡ off + i * 4
      → unpack_from floats (before ++ pack_f32s floats values ++ after) off (length values) i
        ≡ map (λ v. widen (narrow v)) values
  unfolding pack_f32s unpack_from f32_at pack_u32le
  unpack_from-pack before after [] off i n = refl
  unpack_from-pack before after (v ∷ values) off i n =
      let word = pack_u32le (narrow v) in
      let others = pack_f32s floats values in
      ap₂ ◌∷◌
        (ap widen (
          ap (λ (b : List ℕ). read_u32le b (off + i * 4)) (regroup before word others after)
          ∙ read-pack_u32 before (others ++ after) (off + i * 4) (narrow v) n (narrow_fits v)))
        (ap (λ (b : List ℕ). unpack_from floats b off (length values) (i + 1))
            (regroup_left before word others after)
          ∙ unpack_from-pack (before ++ word) after values off (i + 1)
              (omega (arith, length-append before word)))

  -- Floats that were packed at an offset of a payload are read back there, in order, each rounded to
  -- single precision, whatever stands around them.
  pub unpack-pack_f32s :
      (before after : List ℕ) (values : List Double)
      → unpack_f32s floats
          (before ++ pack_f32s floats values ++ after)
          (length before)
          (length values)
        ≡ map (λ v. widen (narrow v)) values
  unfolding unpack_f32s
  unpack-pack_f32s before after values =
      unpack_from-pack before after values (length before) 0 (omega arith)

-- A number that is read from bytes fits 32 bits.
pub read_u32le-lt : (b : List ℕ) (off : ℕ) → IsBytes b → read_u32le b off < 2 ^ 32
read_u32le-lt b off bytes =
    let p = All-get_or IsByte b off 0 (omega arith) bytes in
    let q = All-get_or IsByte b (off + 1) 0 (omega arith) bytes in
    let r = All-get_or IsByte b (off + 2) 0 (omega arith) bytes in
    let s = All-get_or IsByte b (off + 3) 0 (omega arith) bytes in
    omega (
      arith,
      read_u32le_sum b off (byte_at b off) (byte_at b (off + 1)) (byte_at b (off + 2))
          (byte_at b (off + 3)) p q r s refl refl refl refl,
      p,
      q,
      r,
      s,
    )
