-- ===== src/Protocol/Frame.antt =====
-- Frames: `Frame`, `pack_frame` and `unpack_frame` of `protocol.hpp` and `src/protocol.cpp`.
-- A byte buffer is a list of numbers; a read at an index that the length check admits is `byte_at`.
pub mod RoundTrip
pub mod Corruption
mod Examples
use Prim.Native.Nat.{bit_or}
use litearm_cpp.Base.{
  ℕ, ◌+◌, ◌*◌, ◌/◌, ◌%◌, ◌^◌, ◌<◌, Bool, not, ◌||◌, List, [], ◌∷◌, ◌++◌, Option, none, some, ◌==◌,
  ltb, if◌then◌else◌, length, get_or, take, drop, All,
}
use litearm_cpp.Errors.{Result, ok, err, invalid_argument}
use litearm_cpp.Protocol.Crc.{u16, crc16_ccitt_false}

abbrev pub u8 : ℕ → ℕ
u8 n = n % 2 ^ 8

abbrev pub IsByte : ℕ → Type 0
IsByte b = b < 256

abbrev pub IsBytes : List ℕ → Type 0
IsBytes = All IsByte

abbrev pub byte_at : List ℕ → ℕ → ℕ
byte_at bytes i = get_or bytes i 0

abbrev pub sof : ℕ
sof = 0xa5

pub record Frame : Type 0 where
  pub cmd : ℕ
  pub payload : List ℕ

-- `body` before the checksum is appended.
abbrev pub header_and_payload : ℕ → List ℕ → List ℕ
header_and_payload cmd payload = sof ∷ cmd ∷ u8 (length payload) ∷ payload

-- The two bytes that are appended, low byte first.
abbrev pub crc_bytes : ℕ → List ℕ
crc_bytes crc = u8 crc ∷ u8 (crc / 2 ^ 8) ∷ []

unfoldable pub pack_frame : ℕ → List ℕ → Result (List ℕ)
pack_frame cmd payload =
    if ltb 255 (length payload)
    then err invalid_argument
    else ok
        (let body = header_and_payload cmd payload in body ++ crc_bytes (crc16_ccitt_false body))

-- `uint16_t(frame[3 + ln] | (frame[4 + ln] << 8))`
abbrev pub stored_crc : List ℕ → ℕ → ℕ
stored_crc frame ln = u16 (bit_or (byte_at frame (3 + ln)) (byte_at frame (4 + ln) * 2 ^ 8))

unfoldable pub unpack_frame : List ℕ → Option Frame
unpack_frame frame =
    if ltb (length frame) 5 || not (byte_at frame 0 == sof)
    then none
    else let ln = byte_at frame 2 in
      if not (length frame == ln + 5)
      then none
      else if not (crc16_ccitt_false (take (3 + ln) frame) == stored_crc frame ln)
      then none
      else some (record { cmd = byte_at frame 1; payload = take ln (drop 3 frame) })
