-- ===== src/Framing/Window.antt =====
-- The half-frame window, `tick`: what it drops, and when.
use litearm_cpp.Base.{
  ℕ, ◌+◌, ◌-◌, ◌≤◌, ◌<◌, ◌≡◌, refl, ap, ◌∙◌, ◌⊎◌, inl, inr, true, false, List, [], ◌∷◌, Option,
  none, some, arith, length, ◌==◌, ◌&&◌, ltb, if◌then◌else◌, Bool-cases,
}
use mathlib.Core.Option.{get_or}
use litearm_cpp.Protocol.Frame.{byte_at, sof}
use litearm_cpp.Framing.{FrameReader, partial_max, no_partial, sweep, tick}

-- A SOF has stood at the head of the buffer for longer than the window.
pub record IsExpired (buf : List ℕ) (since : Option ℕ) (now : ℕ) : Type 0 where
  pub rest : List ℕ
  pub start : ℕ
  pub head : buf ≡ sof ∷ rest
  pub started : since ≡ some start
  pub late : start + partial_max < now

sweep-dropped :
    (now : ℕ) (rest : List ℕ)
    → ((sweep now rest none true).buf ≡ rest) × ((sweep now rest none true).changed ≡ true)
unfolding sweep
sweep-dropped now [] = (refl, refl)
sweep-dropped now (b ∷ rest) = ground arith

sweep_expired :
    (now : ℕ) (buf : List ℕ) (since : Option ℕ)
    → (x : IsExpired buf since now)
    → ((sweep now buf since false).changed ≡ true) × (buf ≡ sof ∷ (sweep now buf since false).buf)
unfolding sweep
sweep_expired now [] since x = absurd (ground (arith, x.head))
sweep_expired now (b ∷ rest) none x = absurd (ground (arith, x.started))
sweep_expired now (b ∷ rest) (some start) x =
    ground (arith, x.head, x.started, x.late, sweep-dropped now rest)

sweep_waiting :
    (now : ℕ) (buf : List ℕ) (since : Option ℕ)
    → IsExpired buf since now
      ⊎ (((sweep now buf since false).changed ≡ false)
          × ((sweep now buf since false).buf ≡ buf)
          × ((byte_at buf 0 ≡ sof) → (sweep now buf since false).since ≡ some (get_or since now)))
unfolding sweep
sweep_waiting now [] since = inr (refl, refl, λ e. absurd (omega arith))
sweep_waiting now (b ∷ rest) none = inr (ground arith, ground arith, ground arith)
sweep_waiting now (b ∷ rest) (some start) =
    elim (Bool-cases (b == sof && ltb partial_max (now - start))) [
      | inl late ↦ inl (record {
        rest = rest;
        start = start;
        head = ground arith;
        started = refl;
        late = ground arith;
      })
      | inr early ↦ inr (ground arith, ground arith, ground arith)
    ]

-- A `tick` drops the first byte exactly when that byte is a SOF whose window is over, and then
-- reports a change. It never drops more than that byte, and never touches the noise log.
pub tick_cases :
    (r : FrameReader) (now : ℕ)
    → (IsExpired r.buf r.partial_since now
        × ((tick r now).1 ≡ true)
        × (r.buf ≡ sof ∷ (tick r now).0.buf)
        × ((tick r now).0.noise ≡ r.noise))
      ⊎ ((¬ IsExpired r.buf r.partial_since now)
          × ((tick r now).1 ≡ false)
          × ((tick r now).0.buf ≡ r.buf)
          × ((tick r now).0.noise ≡ r.noise))
unfolding tick
tick_cases r now = elim (sweep_waiting now r.buf r.partial_since) [
  | inl x ↦ let done = sweep_expired now r.buf r.partial_since x in inl (x, done.0, done.1, refl)
  | inr (same, kept, since) ↦
      inr ((λ x. let done = sweep_expired now r.buf r.partial_since x in cc), same, kept, refl)
]

tick_started :
    (r : FrameReader) (now : ℕ)
    → byte_at r.buf 0 ≡ sof
    → ¬ IsExpired r.buf r.partial_since now
    → (tick r now).0.partial_since ≡ some (get_or r.partial_since now)
unfolding tick no_partial
tick_started r now e early = elim (sweep_waiting now r.buf r.partial_since) [
  | inl x ↦ absurd (early x)
  | inr (same, kept, since) ↦ rw (since e, kept) (head_kept r.buf (get_or r.partial_since now) e)
]
  where
    head_kept :
        (buf : List ℕ) (s : ℕ)
        → byte_at buf 0 ≡ sof
        → (if no_partial buf then none else some s) ≡ some s
    head_kept [] s h = absurd (omega arith)
    head_kept (b ∷ rest) s h = ground arith

tick-le : (r : FrameReader) (now : ℕ) → length (tick r now).0.buf ≤ length r.buf
tick-le r now = ground (arith, tick_cases r now)

late_enough :
    (since : Option ℕ) (first second : ℕ)
    → ((start : ℕ) → since ≡ some start → start ≤ first)
    → first + partial_max < second
    → get_or since first + partial_max < second
late_enough none first second past late = late
late_enough (some start) first second past late = omega (arith, past start refl)

-- A SOF cannot block the reader for ever: of two ticks that lie further apart than the window, one
-- drops it, whether or not the window ran already.
pub tick_twice :
    (r : FrameReader) (first second : ℕ) (rest : List ℕ)
    → r.buf ≡ sof ∷ rest
    → ((start : ℕ) → r.partial_since ≡ some start → start ≤ first)
    → first + partial_max < second
    → length (tick (tick r first).0 second).0.buf < length r.buf
tick_twice r first second rest e past late = elim (tick_cases r first) [
  | inl (x, changed, dropped, noise) ↦
      omega (arith, tick-le (tick r first).0 second, ap length dropped)
  | inr (early, changed, kept, noise) ↦
      let r1 = (tick r first).0 in
      let head : byte_at r.buf 0 ≡ sof = ap (λ (b : List ℕ). byte_at b 0) e in
      let x : IsExpired r1.buf r1.partial_since second = record {
        rest = rest;
        start = get_or r.partial_since first;
        head = kept ∙ e;
        started = tick_started r first head early;
        late = late_enough r.partial_since first second past late;
      } in
      elim (tick_cases r1 second) [
        | inl (y, changed', dropped, noise') ↦ omega (arith, ap length dropped, ap length kept)
        | inr still ↦ absurd (still.0 x)
      ]
]
