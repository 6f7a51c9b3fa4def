-- ===== src/Framing/Examples.antt =====
-- Runs of the framer, and its theorems at concrete inputs.
use litearm_cpp.Base.{ℕ, ◌≡◌, refl, ◌⊎◌, List, [], ◌∷◌, some, true, false, arith}
use litearm_cpp.Errors.{ok}
use litearm_cpp.Protocol.Frame.{Frame, sof, pack_frame, unpack_frame}
use litearm_cpp.Protocol.Crc.{crc16_ccitt_false}
use litearm_cpp.Framing.{FrameReader, reset, assemble, feed, tick}
use litearm_cpp.Framing.Invariant.{IsValid, feeds, ticks, resets, apply_all, apply_all-IsValid}
use litearm_cpp.Framing.Segments.{receive, receive_all, receive_all-joined}
use litearm_cpp.Framing.Skips.{Ends, feed-skips}
use litearm_cpp.Framing.Sync.{Sent, IsIntact, stream, receive-stream}
use litearm_cpp.Framing.Window.{IsExpired, tick_cases}

abbrev ack_enable : Frame
ack_enable = record { cmd = 0x45; payload = 0x10 ∷ [] }

abbrev ack_enable_bytes : List ℕ
ack_enable_bytes = 0xa5 ∷ 0x45 ∷ 0x01 ∷ 0x10 ∷ 0xae ∷ 0x05 ∷ []

abbrev ack_enable_sent : Sent
ack_enable_sent = record { junk = 1 ∷ 2 ∷ []; sent = ack_enable; bytes = ack_enable_bytes }

ack_enable_packed : pack_frame 0x45 (0x10 ∷ []) ≡ ok ack_enable_bytes
unfolding pack_frame crc16_ccitt_false
ack_enable_packed = refl

ack_enable_sent-IsIntact : IsIntact ack_enable_sent
ack_enable_sent-IsIntact = record { no_sof = omega arith; packed = ack_enable_packed }

-- A reader that waits for the rest of a frame since time 5.
abbrev waiting : FrameReader
waiting = record { buf = 0xa5 ∷ 0x45 ∷ []; noise = []; partial_since = some 5 }

waiting-IsValid : IsValid waiting
waiting-IsValid = record { bytes = omega arith; log = omega arith }

-- A false head in front of a true frame: it is dropped when its checksum fails.
false_head : (feed reset (0xa5 ∷ 0x01 ∷ 0x00 ∷ ack_enable_bytes)).0 ≡ some ack_enable
unfolding feed assemble unpack_frame crc16_ccitt_false
false_head = refl

feed-skips_example : Ends (0xa5 ∷ 0x45 ∷ 0x01 ∷ []) [] (feed waiting (0x01 ∷ []))
feed-skips_example = feed-skips waiting (0x01 ∷ [])

apply_all-IsValid_example : IsValid (apply_all waiting (feeds (1 ∷ []) ∷ ticks 9 ∷ resets ∷ []))
apply_all-IsValid_example =
    apply_all-IsValid waiting (feeds (1 ∷ []) ∷ ticks 9 ∷ resets ∷ []) (omega arith) waiting-IsValid

receive_all-joined_example :
    receive_all reset ((0xa5 ∷ 0x45 ∷ 0x01 ∷ []) ∷ (0x10 ∷ 0xae ∷ 0x05 ∷ []) ∷ [])
    ≡ receive reset ack_enable_bytes
receive_all-joined_example =
    receive_all-joined reset ((0xa5 ∷ 0x45 ∷ 0x01 ∷ []) ∷ (0x10 ∷ 0xae ∷ 0x05 ∷ []) ∷ [])

receive-stream_example :
    ((receive reset (stream (ack_enable_sent ∷ []))).frames ≡ ack_enable ∷ [])
    × ((receive reset (stream (ack_enable_sent ∷ []))).rest.buf ≡ [])
receive-stream_example =
    receive-stream reset (ack_enable_sent ∷ []) refl (ack_enable_sent-IsIntact, tt)

tick_cases_example :
    (IsExpired waiting.buf waiting.partial_since 300_000_000
      × ((tick waiting 300_000_000).1 ≡ true)
      × (waiting.buf ≡ sof ∷ (tick waiting 300_000_000).0.buf)
      × ((tick waiting 300_000_000).0.noise ≡ []))
    ⊎ ((¬ IsExpired waiting.buf waiting.partial_since 300_000_000)
        × ((tick waiting 300_000_000).1 ≡ false)
        × ((tick waiting 300_000_000).0.buf ≡ waiting.buf)
        × ((tick waiting 300_000_000).0.noise ≡ []))
tick_cases_example = tick_cases waiting 300_000_000
