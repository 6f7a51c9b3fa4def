-- ===== src/Protocol/Crc/Examples.antt =====
-- Runs of the checksum, and its theorem at concrete bytes.
use litearm_cpp.Base.{[], ◌∷◌, ◌≡◌, refl}
use litearm_cpp.Protocol.Crc.{crc16_ccitt_false}

-- The check value of the algorithm: the checksum of the text "123456789".
check_value :
    crc16_ccitt_false (0x31 ∷ 0x32 ∷ 0x33 ∷ 0x34 ∷ 0x35 ∷ 0x36 ∷ 0x37 ∷ 0x38 ∷ 0x39 ∷ []) ≡ 0x29b1
unfolding crc16_ccitt_false
check_value = refl
