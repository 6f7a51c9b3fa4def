-- ===== src/Framing/Sync.antt =====
-- Frames that arrive intact are found, whatever bytes other than SOF stand between them.
use litearm_cpp.Base.{
  ℕ, zero, suc, ◌+◌, ◌<◌, ◌≡◌, ◌≢◌, refl, ap, ◌∙◌, subst, List, [], ◌∷◌, ◌++◌, Option, none, some,
  arith, length, length-append, append_assoc, take-append, drop-append, All,
}
use litearm_cpp.Errors.{ok}
use litearm_cpp.Protocol.Frame.{Frame, u8, sof, header_and_payload, pack_frame, unpack_frame}
use litearm_cpp.Protocol.Frame.RoundTrip.{Parts, pack→Parts, Parts→unpack}
use litearm_cpp.Framing.{FrameReader, Assembly, note, assemble, try_assemble}
use litearm_cpp.Framing.Segments.{Drained, drain_loop, receive, drain-some, drain-none, assemble-lt}

-- The noise log after a run of bytes that are not SOF.
abbrev pub notes : List ℕ → List ℕ → List ℕ
notes noise [] = noise
notes noise (b ∷ junk) = notes (note noise b) junk

abbrev pub NoSof : List ℕ → Type 0
NoSof = All (λ b. b ≢ sof)

assemble-junk :
    (junk buf noise : List ℕ) (since : Option ℕ)
    → NoSof junk
    → assemble (junk ++ buf) noise since ≡ assemble buf (notes noise junk) since
unfolding assemble
assemble-junk [] buf noise since h = refl
assemble-junk (b ∷ junk) buf noise since h =
    ground (arith, assemble-junk junk buf (note noise b) since h.1)

assemble-frame :
    (frame rest noise payload : List ℕ) (cmd : ℕ) (since : Option ℕ)
    → Parts frame cmd payload
    → assemble (frame ++ rest) noise since ≡ (
      some (record { cmd = cmd; payload = payload }),
      record { buf = rest; noise = noise; partial_since = none },
    )
unfolding assemble
assemble-frame frame rest noise payload cmd since p =
    let n = length payload in
    let whole = header_and_payload cmd payload ++ p.low ∷ p.high ∷ [] in
    let short : u8 n ≡ n = omega (arith, p.short) in
    let size : length whole ≡ 3 + n + 2 =
      omega (arith, length-append payload (p.low ∷ p.high ∷ [])) in
    rw p.frame_eq (
      ground (
        arith,
        short,
        size,
        length-append (payload ++ p.low ∷ p.high ∷ []) rest,
        take-append (3 + n + 2) whole rest size,
        drop-append (3 + n + 2) whole rest size,
        subst (λ f. unpack_frame f ≡ some (record { cmd = cmd; payload = payload })) p.frame_eq
            (Parts→unpack frame cmd payload p),
      ))

-- A frame as it was sent, with the bytes that came before it.
pub record Sent : Type 0 where
  pub junk : List ℕ
  pub sent : Frame
  pub bytes : List ℕ

pub record IsIntact (s : Sent) : Type 0 where
  pub no_sof : NoSof s.junk
  pub packed : pack_frame s.sent.cmd s.sent.payload ≡ ok s.bytes

abbrev pub stream : List Sent → List ℕ
stream [] = []
stream (s ∷ rest) = s.junk ++ s.bytes ++ stream rest

abbrev pub sent_frames : List Sent → List Frame
sent_frames [] = []
sent_frames (s ∷ rest) = s.sent ∷ sent_frames rest

assemble-Sent :
    (s : Sent) (rest noise : List ℕ) (since : Option ℕ)
    → IsIntact s
    → assemble (s.junk ++ s.bytes ++ rest) noise since
      ≡ (some s.sent, record { buf = rest; noise = notes noise s.junk; partial_since = none })
assemble-Sent s rest noise since h =
    ap (λ b. assemble b noise since) (append_assoc s.junk s.bytes rest)
    ∙ (assemble-junk s.junk (s.bytes ++ rest) noise since h.no_sof
        ∙ assemble-frame s.bytes rest (notes noise s.junk) s.sent.payload s.sent.cmd since
            (pack→Parts s.bytes s.sent.cmd s.sent.payload h.packed))

abbrev at_stream : List Sent → List ℕ → Option ℕ → FrameReader
at_stream items noise since = record { buf = stream items; noise = noise; partial_since = since }

drain-stream :
    (n : ℕ) (items : List Sent) (noise : List ℕ) (since : Option ℕ)
    → All IsIntact items
    → length (stream items) < n
    → let d = drain_loop n (at_stream items noise since) in
      (d.frames ≡ sent_frames items) × (d.rest.buf ≡ [])
unfolding try_assemble assemble
drain-stream zero items noise since h e = absurd (omega arith)
drain-stream (suc n) [] noise since h e =
    let stopped = drain-none n (at_stream [] noise since) refl in
    (ap (λ (d : Drained). d.frames) stopped, ap (λ (d : Drained). d.rest.buf) stopped)
drain-stream (suc n) (s ∷ items) noise since h e =
    let step = assemble-Sent s (stream items) noise since h.0 in
    let first = ap (λ (a : Assembly). a.0) step in
    let fewer = ap (λ (a : Assembly). length a.1.buf) step in
    let less = assemble-lt (stream (s ∷ items)) noise since s.sent first in
    let rest = drain-stream n items (notes noise s.junk) none h.1 (omega arith) in
    let taken =
      drain-some n (at_stream (s ∷ items) noise since) s.sent first
      ∙ ap
          (λ (a : Assembly). record {
            frames = s.sent ∷ (drain_loop n a.1).frames;
            rest = (drain_loop n a.1).rest;
          })
          step in
    (
      ap (λ (d : Drained). d.frames) taken ∙ ap (◌∷◌ s.sent) rest.0,
      ap (λ (d : Drained). d.rest.buf) taken ∙ rest.1,
    )

-- Frames that were sent intact, with any bytes but SOF between them, are all delivered, in order,
-- once each, and nothing else is delivered; the buffer is empty at the end.
pub receive-stream :
    (r : FrameReader) (items : List Sent)
    → r.buf ≡ []
    → All IsIntact items
    → ((receive r (stream items)).frames ≡ sent_frames items)
      × ((receive r (stream items)).rest.buf ≡ [])
unfolding receive
receive-stream r items e h =
    rw e (drain-stream (suc (length (stream items))) items r.noise r.partial_since h (omega arith))
