-- ===== src/Framing/Skips.antt =====
-- Which bytes the framer lets go of, and what it keeps of them.
use litearm_cpp.Base.{
  ℕ, ◌≤◌, ◌≡◌, ◌≢◌, refl, sym, subst, arith, List, [], ◌∷◌, ◌++◌, Option, none, some, ◌==◌, ◌||◌,
  ltb, length, take, drop, Bool-cases, Option-cases, inl, inr,
}
use litearm_cpp.Protocol.Frame.{Frame, sof, unpack_frame}
use litearm_cpp.Framing.{FrameReader, Assembly, note, announced, stop, assemble, feed}
use litearm_cpp.Framing.Invariant.{Waits}

-- From a buffer and a noise log to what is left of the one and what has become of the other. A byte
-- goes either because it is no SOF, and then it is noted, or because the frame that it announces is
-- complete and does not pass its checks.
pub data Skips : List ℕ → List ℕ → List ℕ → List ℕ → Type 0 where
  stay : (buf noise : List ℕ) → Skips buf noise buf noise
  noted :
      (b : ℕ) (rest noise left later : List ℕ)
      → b ≢ sof
      → Skips rest (note noise b) left later
      → Skips (b ∷ rest) noise left later
  refused :
      (b : ℕ) (rest noise left later : List ℕ)
      → b ≡ sof
      → announced (b ∷ rest) ≤ length (b ∷ rest)
      → unpack_frame (take (announced (b ∷ rest)) (b ∷ rest)) ≡ none
      → Skips rest noise left later
      → Skips (b ∷ rest) noise left later

-- What comes out of a buffer from which nothing more is skipped, and what stays.
abbrev pub Taken : List ℕ → Option Frame → List ℕ → Type 0
Taken buf none left = (left ≡ buf) × Waits buf
Taken buf (some f) left =
    (unpack_frame (take (announced buf) buf) ≡ some f) × (left ≡ drop (announced buf) buf)

-- What a buffer and a noise log come to.
abbrev pub Ends : List ℕ → List ℕ → Assembly → Type 0
Ends buf noise (o, r) = (rest : List ℕ) × Skips buf noise rest r.noise × Taken rest o r.buf

Ends-noted :
    (b : ℕ) (rest noise : List ℕ) (a : Assembly)
    → b ≢ sof
    → Ends rest (note noise b) a
    → Ends (b ∷ rest) noise a
Ends-noted b rest noise (o, r) h (left, skips, taken) =
    (left, noted b rest noise left r.noise h skips, taken)

Ends-refused :
    (b : ℕ) (rest noise : List ℕ) (a : Assembly)
    → b ≡ sof
    → announced (b ∷ rest) ≤ length (b ∷ rest)
    → unpack_frame (take (announced (b ∷ rest)) (b ∷ rest)) ≡ none
    → Ends rest noise a
    → Ends (b ∷ rest) noise a
Ends-refused b rest noise (o, r) head whole bad (left, skips, taken) =
    (left, refused b rest noise left r.noise head whole bad skips, taken)

is_it : (buf noise : List ℕ) (a b : Assembly) → a ≡ b → Ends buf noise b → Ends buf noise a
is_it buf noise a b e h = subst (Ends buf noise) (sym e) h

assemble-Ends : (buf noise : List ℕ) (since : Option ℕ) → Ends buf noise (assemble buf noise since)
unfolding assemble
assemble-Ends [] noise since = ([], stay [] noise, (refl, inl refl))
assemble-Ends (b ∷ rest) noise since =
    let buf = b ∷ rest in
    elim (Bool-cases (b == sof)) [
      | inr e ↦
          is_it buf noise (assemble buf noise since) (assemble rest (note noise b) since)
            (ground arith)
            (Ends-noted b rest noise (assemble rest (note noise b) since) (ground (arith, e))
              (assemble-Ends rest (note noise b) since))
      | inl e ↦
          let head : b ≡ sof = ground (arith, e) in
          elim (Bool-cases (ltb (length buf) 3 || ltb (length buf) (announced buf))) [
            | inl short ↦
                is_it buf noise (assemble buf noise since) (stop buf noise since) (ground arith)
                  (buf, stay buf noise, (refl, inr (head, ground (arith, short))))
            | inr whole ↦ elim (Option-cases (unpack_frame (take (announced buf) buf))) [
              | inl bad ↦
                  is_it buf noise (assemble buf noise since) (assemble rest noise since)
                    (ground arith)
                    (Ends-refused b rest noise (assemble rest noise since) head
                      (ground (arith, whole)) bad (assemble-Ends rest noise since))
              | inr (f, good) ↦
                  is_it buf noise (assemble buf noise since)
                    (
                      some f,
                      record {
                        buf = drop (announced buf) buf;
                        noise = noise;
                        partial_since = none;
                      },
                    )
                    (ground arith) (buf, stay buf noise, (good, refl))
            ]
          ]
    ]

-- `feed` takes the bytes in order, and each meets one of three ends. A byte is skipped and noted if it
-- is no SOF, and skipped if it is a SOF whose frame is complete and refused; the first frame that
-- passes is returned and taken off; all the others stay. When no frame is returned, what stays is
-- nothing or begins with a SOF whose frame is not complete yet. The noise log holds what was noted.
pub feed-skips : (r : FrameReader) (bytes : List ℕ) → Ends (r.buf ++ bytes) r.noise (feed r bytes)
unfolding feed
feed-skips r bytes = assemble-Ends (r.buf ++ bytes) r.noise r.partial_since
