-- ===== src/Protocol/Frame/Examples.antt =====
-- Runs of the frame coder, and its theorems at concrete frames.
use litearm_cpp.Base.{ℕ, ◌≡◌, ◌↔◌, refl, List, [], ◌∷◌, ◌++◌, none, some, arith}
use litearm_cpp.Errors.{ok}
use litearm_cpp.Protocol.Crc.{crc16_ccitt_false}
use litearm_cpp.Protocol.Frame.{Frame, pack_frame, unpack_frame}
use litearm_cpp.Protocol.Frame.RoundTrip.{unpack-pack_iff}
use litearm_cpp.Protocol.Frame.Corruption.{unpack_detects_byte}

-- The acknowledgement of `ENABLE`.
abbrev ack_enable : Frame
ack_enable = record { cmd = 0x45; payload = 0x10 ∷ [] }

abbrev ack_enable_bytes : List ℕ
ack_enable_bytes = 0xa5 ∷ 0x45 ∷ 0x01 ∷ 0x10 ∷ 0xae ∷ 0x05 ∷ []

ack_enable_packed : pack_frame 0x45 (0x10 ∷ []) ≡ ok ack_enable_bytes
unfolding pack_frame crc16_ccitt_false
ack_enable_packed = refl

ack_enable_unpacked : unpack_frame ack_enable_bytes ≡ some ack_enable
unfolding unpack_frame crc16_ccitt_false
ack_enable_unpacked = refl

unpack-pack_iff_example :
    (unpack_frame ack_enable_bytes ≡ some ack_enable)
    ↔ (pack_frame ack_enable.cmd ack_enable.payload ≡ ok ack_enable_bytes)
unpack-pack_iff_example = unpack-pack_iff ack_enable_bytes ack_enable (omega arith)

unpack_detects_byte_example :
    unpack_frame ((0xa5 ∷ []) ++ 0x44 ∷ 0x01 ∷ 0x10 ∷ 0xae ∷ 0x05 ∷ []) ≡ none
unpack_detects_byte_example =
    unpack_detects_byte (0xa5 ∷ []) (0x01 ∷ 0x10 ∷ 0xae ∷ 0x05 ∷ []) 0x45 0x44 ack_enable
      (omega arith) (omega arith) (omega arith) ack_enable_unpacked
