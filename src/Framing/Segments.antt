-- ===== src/Framing/Segments.antt =====
-- How the bytes are cut into reads does not matter. `drain` is the documented use of the framer:
-- take frames until there is none.
use litearm_cpp.Base.{
  ℕ, zero, suc, ◌+◌, ◌≤◌, ◌<◌, ◌≡◌, refl, ap, sym, ◌∙◌, inl, inr, List, [], ◌∷◌, ◌++◌, Option, none,
  some, arith, length, length-append, length-drop, append_assoc, get_or-append_left,
  take-append_left, drop-append_left, Option-cases,
}
use litearm_cpp.Protocol.Frame.{Frame}
use litearm_cpp.Framing.{FrameReader, Assembly, note, announced, assemble, try_assemble}

announced-append : (xs zs : List ℕ) → 3 ≤ length xs → announced (xs ++ zs) ≡ announced xs
announced-append xs zs h = ap (λ (t : ℕ). 3 + t + 2) (get_or-append_left xs zs 2 0 h)

-- What is left is never longer, and a frame takes one byte at least.
assemble-le :
    (buf noise : List ℕ) (since : Option ℕ) → length (assemble buf noise since).1.buf ≤ length buf
unfolding assemble
assemble-le [] noise since = omega arith
assemble-le (b ∷ rest) noise since = ground (
  arith,
  assemble-le rest (note noise b) since,
  assemble-le rest noise since,
  length-drop (announced (b ∷ rest)) (b ∷ rest),
)

pub assemble-lt :
    (buf noise : List ℕ) (since : Option ℕ) (f : Frame)
    → (assemble buf noise since).0 ≡ some f
    → length (assemble buf noise since).1.buf < length buf
unfolding assemble
assemble-lt [] noise since f e = cc
assemble-lt (b ∷ rest) noise since f e = ground (
  arith,
  assemble-lt rest (note noise b) since f,
  assemble-lt rest noise since f,
  length-drop (announced (b ∷ rest)) (b ∷ rest),
)

-- More bytes behind a buffer that holds a whole frame stay behind it.
pub assemble-append_some :
    (xs zs noise : List ℕ) (since : Option ℕ) (f : Frame)
    → (assemble xs noise since).0 ≡ some f
    → assemble (xs ++ zs) noise since
      ≡ (some f, record (assemble xs noise since).1 { buf = (assemble xs noise since).1.buf ++ zs })
unfolding assemble
assemble-append_some [] zs noise since f e = cc
assemble-append_some (b ∷ rest) zs noise since f e = ground (
  arith,
  assemble-append_some rest zs (note noise b) since f,
  assemble-append_some rest zs noise since f,
  announced-append (b ∷ rest) zs,
  length-append rest zs,
  take-append_left (announced (b ∷ rest)) (b ∷ rest) zs,
  drop-append_left (announced (b ∷ rest)) (b ∷ rest) zs,
)

-- A buffer that holds no whole frame can be replaced by what `assemble` left of it.
pub assemble-append_none :
    (xs zs noise : List ℕ) (since : Option ℕ)
    → (assemble xs noise since).0 ≡ none
    → assemble (xs ++ zs) noise since
      ≡ assemble
          ((assemble xs noise since).1.buf ++ zs)
          (assemble xs noise since).1.noise
          (assemble xs noise since).1.partial_since
unfolding assemble
assemble-append_none [] zs noise since e = refl
assemble-append_none (b ∷ rest) zs noise since e = ground (
  arith,
  assemble-append_none rest zs (note noise b) since,
  assemble-append_none rest zs noise since,
  announced-append (b ∷ rest) zs,
  length-append rest zs,
  take-append_left (announced (b ∷ rest)) (b ∷ rest) zs,
)

-- `while (auto f = r.feed(nullptr, 0))`: the frames taken, and the reader that is left.
abbrev pub Drained : Type 0
Drained = record { frames : List Frame; rest : FrameReader }

pub drain_loop : ℕ → FrameReader → Drained
drain_loop zero r = record { frames = []; rest = r }
drain_loop (suc fuel) r = elim (try_assemble r).0 [
  | none ↦ record { frames = []; rest = (try_assemble r).1 }
  | some f ↦
      let more = drain_loop fuel (try_assemble r).1 in
      record { frames = f ∷ more.frames; rest = more.rest }
]

-- Each frame takes a byte at least, so one round more than there are bytes is enough.
abbrev pub drain : FrameReader → Drained
drain r = drain_loop (suc (length r.buf)) r

abbrev pub with_bytes : FrameReader → List ℕ → FrameReader
with_bytes r bytes = record r { buf = r.buf ++ bytes }

-- Bytes arrive, and all frames are taken.
unfoldable pub receive : FrameReader → List ℕ → Drained
receive r bytes = drain (with_bytes r bytes)

module _ (fuel : ℕ) (r : FrameReader) where
  pub drain-none :
      (try_assemble r).0 ≡ none
      → drain_loop (suc fuel) r ≡ record { frames = []; rest = (try_assemble r).1 }
  unfolding drain_loop
  drain-none e = rw (e, drain_loop)

  pub drain-some :
      (f : Frame)
      → (try_assemble r).0 ≡ some f
      → drain_loop (suc fuel) r ≡ record {
        frames = f ∷ (drain_loop fuel (try_assemble r).1).frames;
        rest = (drain_loop fuel (try_assemble r).1).rest;
      }
  unfolding drain_loop
  drain-some f e = rw (e, drain_loop)

  -- A round depends on the reader by what it assembles.
  drain-cong :
      (r' : FrameReader)
      → try_assemble r ≡ try_assemble r'
      → drain_loop (suc fuel) r ≡ drain_loop (suc fuel) r'
  unfolding drain_loop
  drain-cong r' e = ground arith

-- More fuel changes nothing.
drain_loop_fuel :
    (n m : ℕ) (r : FrameReader)
    → length r.buf < n
    → length r.buf < m
    → drain_loop n r ≡ drain_loop m r
unfolding try_assemble
drain_loop_fuel zero m r p q = absurd (omega arith)
drain_loop_fuel (suc n) zero r p q = absurd (omega arith)
drain_loop_fuel (suc n) (suc m) r p q = elim (Option-cases (try_assemble r).0) [
  | inl e ↦ drain-none n r e ∙ sym (drain-none m r e)
  | inr (f, e) ↦
      let fewer = assemble-lt r.buf r.noise r.partial_since f e in
      let same = drain_loop_fuel n m (try_assemble r).1 (omega arith) (omega arith) in
      drain-some n r f e
      ∙ (ap (λ (d : Drained). record { frames = f ∷ d.frames; rest = d.rest }) same
          ∙ sym (drain-some m r f e))
]

abbrev pub then_bytes : Drained → List ℕ → Drained
then_bytes d bytes =
    let more = receive d.rest bytes in record { frames = d.frames ++ more.frames; rest = more.rest }

try_assemble-append_none :
    (r : FrameReader) (zs : List ℕ)
    → (try_assemble r).0 ≡ none
    → try_assemble (with_bytes r zs) ≡ try_assemble (with_bytes (try_assemble r).1 zs)
unfolding try_assemble
try_assemble-append_none r zs e = assemble-append_none r.buf zs r.noise r.partial_since e

try_assemble-append_some :
    (r : FrameReader) (zs : List ℕ) (f : Frame)
    → (try_assemble r).0 ≡ some f
    → try_assemble (with_bytes r zs) ≡ (some f, with_bytes (try_assemble r).1 zs)
unfolding try_assemble
try_assemble-append_some r zs f e = assemble-append_some r.buf zs r.noise r.partial_since f e

receive-loop :
    (n : ℕ) (r : FrameReader) (zs : List ℕ)
    → length r.buf < n
    → drain (with_bytes r zs) ≡ then_bytes (drain_loop n r) zs
unfolding try_assemble receive
receive-loop zero r zs h = absurd (omega arith)
receive-loop (suc n) r zs h = elim (Option-cases (try_assemble r).0) [
  | inl e ↦
      let fewer = assemble-le r.buf r.noise r.partial_since in
      let r1 = (try_assemble r).1 in
      drain-cong (length (r.buf ++ zs)) (with_bytes r zs) (with_bytes r1 zs)
        (try_assemble-append_none r zs e)
      ∙ (drain_loop_fuel (suc (length (r.buf ++ zs))) (suc (length (r1.buf ++ zs)))
            (with_bytes r1 zs) (omega (arith, length-append r.buf zs, length-append r1.buf zs))
            (omega arith)
          ∙ sym (ap (λ (d : Drained). then_bytes d zs) (drain-none n r e)))
  | inr (f, e) ↦
      let fewer = assemble-lt r.buf r.noise r.partial_since f e in
      let r1 = (try_assemble r).1 in
      let step = try_assemble-append_some r zs f e in
      let rest =
        drain_loop_fuel (length (r.buf ++ zs)) (suc (length (r1.buf ++ zs))) (with_bytes r1 zs)
          (omega (arith, length-append r.buf zs, length-append r1.buf zs)) (omega arith)
        ∙ receive-loop n r1 zs (omega arith) in
      drain-some (length (r.buf ++ zs)) (with_bytes r zs) f (ap (λ (a : Assembly). a.0) step)
      ∙ (ap
            (λ (a : Assembly).
              let d = drain_loop (length (r.buf ++ zs)) a.1 in
              record { frames = f ∷ d.frames; rest = d.rest })
            step
          ∙ (ap (λ (d : Drained). record { frames = f ∷ d.frames; rest = d.rest }) rest
              ∙ sym (ap (λ (d : Drained). then_bytes d zs) (drain-some n r f e))))
]

-- Receiving the bytes in two reads gives the frames, and leaves the reader, that one read gives.
pub receive-append :
    (r : FrameReader) (xs ys : List ℕ) → receive r (xs ++ ys) ≡ then_bytes (receive r xs) ys
unfolding receive
receive-append r xs ys =
    ap (λ (b : List ℕ). drain (record r { buf = b })) (sym (append_assoc r.buf xs ys))
    ∙ receive-loop (suc (length (r.buf ++ xs))) (with_bytes r xs) ys (omega arith)

-- A sequence of reads, all frames taken after each.
pub receive_all : FrameReader → List (List ℕ) → Drained
receive_all r [] = receive r []
receive_all r (chunk ∷ chunks) =
    let d = receive r chunk in
    let more = receive_all d.rest chunks in
    record { frames = d.frames ++ more.frames; rest = more.rest }

abbrev pub joined : List (List ℕ) → List ℕ
joined [] = []
joined (chunk ∷ chunks) = chunk ++ joined chunks

-- However a byte stream is cut into reads, the framer delivers the same frames in the same order
-- and ends in the same state, noise log included, as on the whole stream at once.
pub receive_all-joined :
    (r : FrameReader) (chunks : List (List ℕ)) → receive_all r chunks ≡ receive r (joined chunks)
unfolding receive_all
receive_all-joined r [] = refl
receive_all-joined r (chunk ∷ chunks) =
    ap (λ (d : Drained). record { frames = (receive r chunk).frames ++ d.frames; rest = d.rest })
      (receive_all-joined (receive r chunk).rest chunks)
    ∙ sym (receive-append r chunk (joined chunks))
