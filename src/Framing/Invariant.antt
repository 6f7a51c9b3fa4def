-- ===== src/Framing/Invariant.antt =====
-- Bounds and bookkeeping: what the framer keeps, and which bytes it lets go of.
use litearm_cpp.Base.{
  ℕ, ◌≤◌, ◌<◌, ◌≡◌, refl, ap, sym, ◌⊎◌, inl, inr, List, [], ◌∷◌, ◌++◌, Option, none, some, arith,
  length, take, drop, take-append-drop, subst, zero, All, suc, All-append, All-split, ◌||◌, ltb,
  ◌==◌, Bool-cases, Option-cases,
}
use litearm_cpp.Framing.Window.{tick_cases}
use litearm_cpp.Protocol.Frame.{Frame, IsByte, IsBytes, byte_at, sof, unpack_frame}
use litearm_cpp.Framing.{
  FrameReader, Assembly, noise_max, stop, trim, note, announced, assemble, feed, tick, reset,
  buffered,
}

trim-length : (noise : List ℕ) → length (trim noise) ≤ noise_max
unfolding trim
trim-length [] = omega arith
trim-length (b ∷ rest) = ground (arith, trim-length rest)

note-length : (noise : List ℕ) (b : ℕ) → length (note noise b) ≤ noise_max
unfolding note
note-length noise b = trim-length (noise ++ b ∷ [])

assemble-noise :
    (buf noise : List ℕ) (since : Option ℕ)
    → length noise ≤ noise_max
    → length (assemble buf noise since).1.noise ≤ noise_max
unfolding assemble
assemble-noise [] noise since h = h
assemble-noise (b ∷ rest) noise since h = ground (
  arith,
  note-length noise b,
  assemble-noise rest (note noise b) since,
  assemble-noise rest noise since h,
)

-- Where no frame comes out, the buffer is empty or starts with the head of an unfinished frame.
abbrev pub Waits : List ℕ → Type 0
Waits buf = (buf ≡ []) ⊎ ((byte_at buf 0 ≡ sof) × ((length buf < 3) ⊎ (length buf < announced buf)))

assemble-Waits :
    (buf noise : List ℕ) (since : Option ℕ)
    → (assemble buf noise since).0 ≡ none
    → Waits (assemble buf noise since).1.buf
unfolding assemble
assemble-Waits [] noise since e = inl refl
assemble-Waits (b ∷ rest) noise since e =
    ground (arith, assemble-Waits rest (note noise b) since, assemble-Waits rest noise since)

-- What a buffer gives up: the bytes that were skipped, then the frame, if one was taken.
abbrev pub Accounts : List ℕ → Option Frame → List ℕ → Type 0
Accounts buf none left = (skipped : List ℕ) × (buf ≡ skipped ++ left)
Accounts buf (some f) left =
    (skipped : List ℕ) × (frame : List ℕ) × (buf ≡ skipped ++ frame ++ left)
    × (unpack_frame frame ≡ some f)

Accounts-cons :
    (b : ℕ) (buf left : List ℕ) (o : Option Frame) → Accounts buf o left → Accounts (b ∷ buf) o left
Accounts-cons b buf left none (skipped, e) = (b ∷ skipped, ap (◌∷◌ b) e)
Accounts-cons b buf left (some f) (skipped, frame, e, u) = (b ∷ skipped, frame, ap (◌∷◌ b) e, u)

-- One round of the loop: a byte is skipped, the loop waits, or a frame is taken.
abbrev Round : ℕ → List ℕ → List ℕ → Option ℕ → Type 0
Round b rest noise since =
    ((n : List ℕ) × (assemble (b ∷ rest) noise since ≡ assemble rest n since))
    ⊎ (assemble (b ∷ rest) noise since ≡ stop (b ∷ rest) noise since)
    ⊎ ((f : Frame) × (unpack_frame (take (announced (b ∷ rest)) (b ∷ rest)) ≡ some f)
        × (assemble (b ∷ rest) noise since ≡ (
          some f,
          record {
            buf = drop (announced (b ∷ rest)) (b ∷ rest);
            noise = noise;
            partial_since = none;
          },
        )))

assemble-Round : (b : ℕ) (rest noise : List ℕ) (since : Option ℕ) → Round b rest noise since
unfolding assemble
assemble-Round b rest noise since = elim (Bool-cases (b == sof)) [
  | inr e ↦ inl (note noise b, ground arith)
  | inl e ↦
      elim (Bool-cases
        (ltb (length (b ∷ rest)) 3 || ltb (length (b ∷ rest)) (announced (b ∷ rest)))) [
          | inl short ↦ inr (inl (ground arith))
          | inr long ↦ elim (Option-cases (unpack_frame (take (announced (b ∷ rest)) (b ∷ rest)))) [
            | inl bad ↦ inl (noise, ground arith)
            | inr (f, good) ↦ inr (inr (f, good, ground arith))
          ]
        ]
]

assemble-Accounts :
    (buf noise : List ℕ) (since : Option ℕ)
    → Accounts buf (assemble buf noise since).0 (assemble buf noise since).1.buf
unfolding assemble
assemble-Accounts [] noise since = ([], refl)
assemble-Accounts (b ∷ rest) noise since = elim (assemble-Round b rest noise since) [
  | inl (n, e) ↦
      subst (λ (a : Assembly). Accounts (b ∷ rest) a.0 a.1.buf) (sym e)
        (Accounts-cons b rest _ _ (assemble-Accounts rest n since))
  | inr (inl e) ↦ subst (λ (a : Assembly). Accounts (b ∷ rest) a.0 a.1.buf) (sym e) ([], refl)
  | inr (inr (f, good, e)) ↦
      subst (λ (a : Assembly). Accounts (b ∷ rest) a.0 a.1.buf) (sym e)
        (
          [],
          take (announced (b ∷ rest)) (b ∷ rest),
          sym (take-append-drop (announced (b ∷ rest)) (b ∷ rest)),
          good,
        )
]

-- The buffered and the new bytes are some skipped bytes, then the frame
-- that is returned, if any, as it came in, then what stays in the buffer.
feed-Accounts :
    (r : FrameReader) (bytes : List ℕ)
    → Accounts (r.buf ++ bytes) (feed r bytes).0 (feed r bytes).1.buf
unfolding feed
feed-Accounts r bytes = assemble-Accounts (r.buf ++ bytes) r.noise r.partial_since

byte_of_All : (buf : List ℕ) (i : ℕ) → IsBytes buf → byte_at buf i < 256
byte_of_All [] i h = omega arith
byte_of_All (b ∷ buf) zero h = h.0
byte_of_All (b ∷ buf) (suc i) h = byte_of_All buf i h.1

Accounts-IsBytes :
    (buf left : List ℕ) (o : Option Frame) → Accounts buf o left → IsBytes buf → IsBytes left
Accounts-IsBytes buf left none (skipped, e) h =
    (All-split IsByte skipped left (subst IsBytes e h)).1
Accounts-IsBytes buf left (some f) (skipped, frame, e, u) h =
    (All-split IsByte (skipped ++ frame) left (subst IsBytes e h)).1

-- A reader whose buffer holds bytes and whose noise log is within its bound.
pub record IsValid (r : FrameReader) : Type 0 where
  pub bytes : IsBytes r.buf
  pub log : length r.noise ≤ noise_max

-- `feed` keeps the reader valid, and when it returns no frame the buffer is empty or starts with a
-- SOF and holds fewer bytes than that frame needs, 259 at most.
pub feed-IsValid :
    (r : FrameReader) (bytes : List ℕ)
    → IsValid r
    → IsBytes bytes
    → IsValid (feed r bytes).1
      × ((feed r bytes).0 ≡ none → Waits (feed r bytes).1.buf × (buffered (feed r bytes).1 ≤ 259))
unfolding feed buffered
feed-IsValid r bytes v b =
    let left = (feed r bytes).1.buf in
    let all = All-append IsByte r.buf bytes v.bytes b in
    let kept =
      Accounts-IsBytes (r.buf ++ bytes) left (feed r bytes).0 (feed-Accounts r bytes) all in
    (
      record { bytes = kept; log = assemble-noise (r.buf ++ bytes) r.noise r.partial_since v.log },
      λ e.
          let waits = assemble-Waits (r.buf ++ bytes) r.noise r.partial_since e in
          (waits, ground (arith, waits, byte_of_All left 2 kept)),
    )

-- `tick` keeps the reader valid too.
tick-IsValid : (r : FrameReader) (now : ℕ) → IsValid r → IsValid (tick r now).0
tick-IsValid r now v = elim (tick_cases r now) [
  | inl (x, changed, dropped, noise) ↦ record {
    bytes = (subst IsBytes dropped v.bytes).1;
    log = subst (λ (n : List ℕ). length n ≤ noise_max) (sym noise) v.log;
  }
  | inr (early, changed, kept, noise) ↦ record {
    bytes = subst IsBytes (sym kept) v.bytes;
    log = subst (λ (n : List ℕ). length n ≤ noise_max) (sym noise) v.log;
  }
]

-- What the transports do with a reader.
pub data Operation : Type 0 where
  feeds : List ℕ → Operation
  ticks : ℕ → Operation
  resets : Operation

abbrev pub apply : FrameReader → Operation → FrameReader
apply r (feeds bytes) = (feed r bytes).1
apply r (ticks now) = (tick r now).0
apply r resets = reset

abbrev pub HasBytes : Operation → Type 0
HasBytes (feeds bytes) = IsBytes bytes
HasBytes (ticks now) = Unit {0}
HasBytes resets = Unit {0}

apply-IsValid : (r : FrameReader) (o : Operation) → HasBytes o → IsValid r → IsValid (apply r o)
apply-IsValid r (feeds bytes) h v = (feed-IsValid r bytes v h).0
apply-IsValid r (ticks now) h v = tick-IsValid r now v
apply-IsValid r resets h v = record { bytes = tt; log = omega arith }

pub apply_all : FrameReader → List Operation → FrameReader
apply_all r [] = r
apply_all r (o ∷ ops) = apply_all (apply r o) ops

-- After any sequence of feeds, ticks and resets the buffer holds bytes and the noise log holds 2048
-- bytes at most.
pub apply_all-IsValid :
    (r : FrameReader) (ops : List Operation)
    → All HasBytes ops
    → IsValid r
    → IsValid (apply_all r ops)
unfolding apply_all
apply_all-IsValid r [] h v = v
apply_all-IsValid r (o ∷ ops) h v = apply_all-IsValid (apply r o) ops h.1 (apply-IsValid r o h.0 v)
