-- ===== src/Protocol/Crc/Detect.antt =====
-- What the checksum detects. Each round of the loops is a bijection on the 16-bit states.
use Prim.Native.Nat.{bit_xor}
use litearm_cpp.Base.{
  ℕ, true, false, zero, suc, ◌*◌, ◌%◌, ◌^◌, ◌<◌, List, [], ◌∷◌, ◌++◌, ◌≡◌, ◌≢◌, refl, ◌∙◌, sym, inl,
  inr, arith, bit_at, Bool-cases,
}
use litearm_cpp.Base.Bits.{bit_xor-lt, bit_xor-mod, bit_xor_cancel, bit_xor_comm, bit_xor_step}
use litearm_cpp.Protocol.Crc.{u16, crc_shift, crc_shifts, crc_byte, crc_loop, crc16_ccitt_false}

abbrev IsU16 : ℕ → Type 0
IsU16 n = n < 2 ^ 16

crc_shift-lt : (c : ℕ) → IsU16 (crc_shift c)
unfolding crc_shift
crc_shift-lt c = ground arith

-- The two branches differ in the lowest bit, which 0x1021 sets.
shift_set : (c : ℕ) → bit_at c 15 ≡ true → crc_shift c ≡ bit_xor (u16 (c * 2)) 0x1021
unfolding crc_shift
shift_set c h = rw h (bit_xor-mod 16 (c * 2) 0x1021)

shift_clear : (c : ℕ) → bit_at c 15 ≡ false → crc_shift c ≡ u16 (c * 2)
unfolding crc_shift
shift_clear c h = rw h

shift_set_odd : (c : ℕ) → bit_at c 15 ≡ true → crc_shift c % 2 ≡ 1
shift_set_odd c h = omega (arith, shift_set c h, bit_xor_step (u16 (c * 2)) 0x1021)

crc_shift_cancel : (a b : ℕ) → IsU16 a → IsU16 b → crc_shift a ≡ crc_shift b → a ≡ b
crc_shift_cancel a b p q e = elim (Bool-cases (bit_at a 15)) [
  | inl ha ↦ elim (Bool-cases (bit_at b 15)) [
    | inl hb ↦
        let same : u16 (a * 2) ≡ u16 (b * 2) =
          bit_xor_cancel 16 (u16 (a * 2)) (u16 (b * 2)) 0x1021 (omega arith) (omega arith)
            (omega arith) (sym (shift_set a ha) ∙ (e ∙ shift_set b hb)) in
        ground arith
    | inr hb ↦ absurd (omega (arith, shift_set_odd a ha, shift_clear b hb))
  ]
  | inr ha ↦ elim (Bool-cases (bit_at b 15)) [
    | inl hb ↦ absurd (omega (arith, shift_set_odd b hb, shift_clear a ha))
    | inr hb ↦ ground (arith, shift_clear a ha, shift_clear b hb)
  ]
]

crc_shifts-lt : (n c : ℕ) → IsU16 c → IsU16 (crc_shifts n c)
unfolding crc_shifts
crc_shifts-lt zero c h = h
crc_shifts-lt (suc n) c h = crc_shifts-lt n (crc_shift c) (crc_shift-lt c)

crc_shifts_cancel : (n a b : ℕ) → IsU16 a → IsU16 b → crc_shifts n a ≡ crc_shifts n b → a ≡ b
unfolding crc_shifts
crc_shifts_cancel zero a b p q e = e
crc_shifts_cancel (suc n) a b p q e =
    crc_shift_cancel a b p q
      (crc_shifts_cancel n (crc_shift a) (crc_shift b) (crc_shift-lt a) (crc_shift-lt b) e)

crc_byte-lt : (c x : ℕ) → IsU16 (crc_byte c x)
unfolding crc_byte
crc_byte-lt c x = crc_shifts-lt 8 _ (omega arith)

-- `crc ^= data[i] << 8` stays within 16 bits.
mixed_in : (c x : ℕ) → IsU16 c → bit_xor c (u16 (x * 2 ^ 8)) < 2 ^ 16
mixed_in c x h = bit_xor-lt 16 c (u16 (x * 2 ^ 8)) h (omega arith)

-- One state, two bytes: equal results come from equal bytes.
crc_byte_cancel : (c x y : ℕ) → IsU16 c → x < 256 → y < 256 → crc_byte c x ≡ crc_byte c y → x ≡ y
unfolding crc_byte
crc_byte_cancel c x y h p q e =
    let mixed = crc_shifts_cancel 8 _ _ (omega arith) (omega arith) e in
    let swapped : bit_xor (u16 (x * 2 ^ 8)) c ≡ bit_xor (u16 (y * 2 ^ 8)) c = omega (
      arith,
      mixed,
      mixed_in c x h,
      mixed_in c y h,
      bit_xor_comm 16 c (u16 (x * 2 ^ 8)) h (omega arith),
      bit_xor_comm 16 c (u16 (y * 2 ^ 8)) h (omega arith),
    ) in
    let same =
      bit_xor_cancel 16 (u16 (x * 2 ^ 8)) (u16 (y * 2 ^ 8)) c (omega arith) (omega arith) h
        swapped in
    omega arith

-- One byte, two states: equal results come from equal states.
crc_state_cancel : (c d x : ℕ) → IsU16 c → IsU16 d → crc_byte c x ≡ crc_byte d x → c ≡ d
unfolding crc_byte
crc_state_cancel c d x p q e =
    let mixed = crc_shifts_cancel 8 _ _ (omega arith) (omega arith) e in
    bit_xor_cancel 16 c d (u16 (x * 2 ^ 8)) p q (omega arith)
      (omega (arith, mixed, mixed_in c x p, mixed_in d x q))

crc_loop-lt : (c : ℕ) (bytes : List ℕ) → IsU16 c → IsU16 (crc_loop c bytes)
unfolding crc_loop
crc_loop-lt c [] h = h
crc_loop-lt c (x ∷ bytes) h = crc_loop-lt (crc_byte c x) bytes (crc_byte-lt c x)

crc_loop_cancel :
    (c d : ℕ) (bytes : List ℕ) → IsU16 c → IsU16 d → crc_loop c bytes ≡ crc_loop d bytes → c ≡ d
unfolding crc_loop
crc_loop_cancel c d [] p q e = e
crc_loop_cancel c d (x ∷ bytes) p q e =
    crc_state_cancel c d x p q
      (crc_loop_cancel (crc_byte c x) (crc_byte d x) bytes (crc_byte-lt c x) (crc_byte-lt d x) e)

crc_loop-append : (c : ℕ) (xs ys : List ℕ) → crc_loop c (xs ++ ys) ≡ crc_loop (crc_loop c xs) ys
unfolding crc_loop
crc_loop-append c [] ys = refl
crc_loop-append c (x ∷ xs) ys = crc_loop-append (crc_byte c x) xs ys

pub crc16-lt : (bytes : List ℕ) → crc16_ccitt_false bytes < 2 ^ 16
unfolding crc16_ccitt_false
crc16-lt bytes = crc_loop-lt 0xffff bytes (omega arith)

-- Two byte sequences that differ in exactly one byte have different checksums.
pub crc16_detects_byte :
    (before after : List ℕ) (x y : ℕ)
    → x < 256
    → y < 256
    → x ≢ y
    → crc16_ccitt_false (before ++ x ∷ after) ≢ crc16_ccitt_false (before ++ y ∷ after)
unfolding crc16_ccitt_false crc_loop
crc16_detects_byte before after x y p q ne e =
    let s = crc_loop 0xffff before in
    let s_fits = crc_loop-lt 0xffff before (omega arith) in
    ne (
      crc_byte_cancel s x y s_fits p q (
        crc_loop_cancel (crc_byte s x) (crc_byte s y) after (crc_byte-lt s x) (crc_byte-lt s y) (
          sym (crc_loop-append 0xffff before (x ∷ after))
          ∙ (e ∙ crc_loop-append 0xffff before (y ∷ after)))))
