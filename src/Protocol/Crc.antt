-- ===== src/Protocol/Crc.antt =====
-- The frame checksum, CRC-16/CCITT-FALSE: `crc16_ccitt_false` of `src/protocol.cpp`.
-- A `uint16_t` is a number below 2 ^ 16, and each cast back to it is written out.
pub mod Detect
mod Examples
use Prim.Native.Nat.{bit_xor}
use litearm_cpp.Base.{ℕ, zero, suc, ◌*◌, ◌%◌, ◌^◌, List, [], ◌∷◌, bit_at, if◌then◌else◌}

abbrev pub u16 : ℕ → ℕ
u16 n = n % 2 ^ 16

-- One round of the inner loop.
pub crc_shift : ℕ → ℕ
crc_shift crc = if bit_at crc 15 then u16 (bit_xor (crc * 2) 0x1021) else u16 (crc * 2)

-- The inner loop, with the rounds left.
pub crc_shifts : ℕ → ℕ → ℕ
crc_shifts zero crc = crc
crc_shifts (suc b) crc = crc_shifts b (crc_shift crc)

-- One round of the outer loop.
pub crc_byte : ℕ → ℕ → ℕ
crc_byte crc byte = crc_shifts 8 (u16 (bit_xor crc (u16 (byte * 2 ^ 8))))

pub crc_loop : ℕ → List ℕ → ℕ
crc_loop crc [] = crc
crc_loop crc (byte ∷ rest) = crc_loop (crc_byte crc byte) rest

unfoldable pub crc16_ccitt_false : List ℕ → ℕ
unfolding crc_loop crc_byte crc_shifts crc_shift
crc16_ccitt_false bytes = crc_loop 0xffff bytes
