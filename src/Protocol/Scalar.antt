-- ===== src/Protocol/Scalar.antt =====
-- Little-endian numbers and single-precision floats in payloads: the `pack_*`, `read_*` and
-- `unpack_f32s` functions of `protocol.hpp` and `src/protocol.cpp`.
pub mod RoundTrip
mod Examples
use Prim.Native.Nat.{bit_or}
use litearm_cpp.Base.{ℕ, zero, suc, ◌+◌, ◌*◌, ◌/◌, ◌%◌, ◌^◌, List, [], ◌∷◌, ◌++◌}
use litearm_cpp.Floats.{Floats}
use litearm_cpp.Protocol.Crc.{u16}
use litearm_cpp.Protocol.Frame.{u8, byte_at}

abbrev pub u32 : ℕ → ℕ
u32 n = n % 2 ^ 32

pub pack_u16le : ℕ → List ℕ
pack_u16le v = u8 v ∷ u8 (v / 2 ^ 8) ∷ []

pub pack_u32le : ℕ → List ℕ
pack_u32le v = u8 v ∷ u8 (v / 2 ^ 8) ∷ u8 (v / 2 ^ 16) ∷ u8 (v / 2 ^ 24) ∷ []

-- The reads at an offset. The callers check the length first; past the end the model reads zero.
pub read_u16le : List ℕ → ℕ → ℕ
read_u16le b off = u16 (bit_or (byte_at b off) (byte_at b (off + 1) * 2 ^ 8))

pub read_u32le : List ℕ → ℕ → ℕ
read_u32le b off =
    bit_or
      (bit_or (bit_or (byte_at b off) (u32 (byte_at b (off + 1) * 2 ^ 8)))
        (u32 (byte_at b (off + 2) * 2 ^ 16)))
      (u32 (byte_at b (off + 3) * 2 ^ 24))

-- The bit pattern that `f32_at` copies into a `float`.
abbrev pub f32_pattern : List ℕ → ℕ → ℕ
f32_pattern b off = read_u32le b off

module _ (floats : Floats) where
  open floats use {Double, narrow, widen}

  pub pack_f32s : List Double → List ℕ
  pack_f32s [] = []
  pack_f32s (v ∷ values) = pack_u32le (narrow v) ++ pack_f32s values

  pub pack_f32le : Double → List ℕ
  pack_f32le v = pack_f32s (v ∷ [])

  pub f32_at : List ℕ → ℕ → Double
  f32_at b off = widen (f32_pattern b off)

  -- `count` values from `off` on; the loop index runs from `i`.
  pub unpack_from : List ℕ → ℕ → ℕ → ℕ → List Double
  unpack_from b off zero i = []
  unpack_from b off (suc left) i = f32_at b (off + i * 4) ∷ unpack_from b off left (i + 1)

  unfoldable pub unpack_f32s : List ℕ → ℕ → ℕ → List Double
  unfolding unpack_from
  unpack_f32s b off count = unpack_from b off count 0
