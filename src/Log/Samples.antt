-- ===== src/Log/Samples.antt =====
-- The samples of a log are read as the firmware lays them out.
use litearm_cpp.Base.{
  ℕ, ◌+◌, ◌*◌, ◌/◌, ◌%◌, ◌^◌, ◌<◌, ◌≡◌, refl, ap, ap₂, subst, sym, ◌∙◌, List, [], ◌∷◌, ◌++◌, map,
  arith, true, ◌==◌, length, length-append, append_assoc, append-nil, All,
}
use litearm_cpp.Errors.{ok}
use litearm_cpp.Floats.{Floats}
use litearm_cpp.Protocol.Scalar.{pack_u32le, read_u32le, pack_f32s, unpack_f32s}
use litearm_cpp.Protocol.Scalar.RoundTrip.{
  unpack-pack_f32s, read-pack_u32, length-pack_f32s, length-pack_u32le,
}
use litearm_cpp.Log.{LogSample, sample_at, samples_from, parse_samples}

module _ (floats : Floats) where
  open floats use {Double, narrow, widen}

  abbrev rounded_all : List Double → List Double
  rounded_all values = map (λ v. widen (narrow v)) values

  -- A sample of the seven joints: the tick, and three values for each joint.
  abbrev pub sample_bytes : LogSample Double → List ℕ
  sample_bytes s =
      pack_u32le s.tick
      ++ pack_f32s floats s.q_ref
      ++ pack_f32s floats s.dq
      ++ pack_f32s floats s.tau

  abbrev pub samples_bytes : List (LogSample Double) → List ℕ
  samples_bytes [] = []
  samples_bytes (s ∷ samples) = sample_bytes s ++ samples_bytes samples

  abbrev pub rounded_sample : LogSample Double → LogSample Double
  rounded_sample s = record {
    tick = s.tick;
    q_ref = rounded_all s.q_ref;
    dq = rounded_all s.dq;
    tau = rounded_all s.tau;
  }

  abbrev pub IsSample : LogSample Double → Type 0
  IsSample s = (s.tick < 2 ^ 32) × (length s.q_ref ≡ 7) × (length s.dq ≡ 7) × (length s.tau ≡ 7)

  floats_at :
      (before after whole : List ℕ) (values : List Double) (off n : ℕ)
      → before ++ pack_f32s floats values ++ after ≡ whole
      → length before ≡ off
      → length values ≡ n
      → unpack_f32s floats whole off n ≡ rounded_all values
  floats_at before after whole values off n e size count =
      subst (λ (b : List ℕ). unpack_f32s floats b off n ≡ rounded_all values) e
        (subst
          (λ (o : ℕ).
            unpack_f32s floats (before ++ pack_f32s floats values ++ after) o n
            ≡ rounded_all values)
          size
          (subst
            (λ (k : ℕ).
              unpack_f32s floats (before ++ pack_f32s floats values ++ after) (length before) k
              ≡ rounded_all values)
            count (unpack-pack_f32s floats before after values)))

  length-sample_bytes : (s : LogSample Double) → IsSample s → length (sample_bytes s) ≡ 88
  length-sample_bytes s (tick, q, dq, tau) =
      let t = pack_u32le s.tick in
      let a = pack_f32s floats s.q_ref in
      let b = pack_f32s floats s.dq in
      let c = pack_f32s floats s.tau in
      omega (
        arith,
        length-append (t ++ a ++ b) c,
        length-append (t ++ a) b,
        length-append t a,
        length-pack_u32le s.tick,
        length-pack_f32s floats s.q_ref,
        length-pack_f32s floats s.dq,
        length-pack_f32s floats s.tau,
        q,
        dq,
        tau,
      )

  sample_at-bytes :
      (before after : List ℕ) (off : ℕ) (s : LogSample Double)
      → IsSample s
      → length before ≡ off
      → sample_at floats (before ++ sample_bytes s ++ after) 7 off ≡ rounded_sample s
  unfolding sample_at
  sample_at-bytes before after off s (tick, q, dq, tau) size =
      let t = pack_u32le s.tick in
      let a = pack_f32s floats s.q_ref in
      let b = pack_f32s floats s.dq in
      let c = pack_f32s floats s.tau in
      let whole = before ++ sample_bytes s ++ after in
      let lt = length-pack_u32le s.tick in
      let la = length-pack_f32s floats s.q_ref in
      let lb = length-pack_f32s floats s.dq in
      let one : before ++ t ++ (a ++ b ++ c ++ after) ≡ whole = simp append_assoc in
      let two : before ++ t ++ a ++ (b ++ c ++ after) ≡ whole = simp append_assoc in
      let three : before ++ t ++ a ++ b ++ (c ++ after) ≡ whole = simp append_assoc in
      let four : before ++ t ++ a ++ b ++ c ++ after ≡ whole = simp append_assoc in
      let at_q : length (before ++ t) ≡ off + 4 = omega (arith, length-append before t, lt, size) in
      let at_dq : length (before ++ t ++ a) ≡ off + 4 + 4 * 7 =
        omega (arith, length-append (before ++ t) a, at_q, la, q) in
      let at_tau : length (before ++ t ++ a ++ b) ≡ off + 4 + 8 * 7 =
        omega (arith, length-append (before ++ t ++ a) b, at_dq, lb, dq) in
      let ticked : read_u32le whole off ≡ s.tick =
        subst (λ (bytes : List ℕ). read_u32le bytes off ≡ s.tick) one
          (read-pack_u32 before (a ++ b ++ c ++ after) off s.tick size tick) in
      let qs = floats_at (before ++ t) (b ++ c ++ after) whole s.q_ref (off + 4) 7 two at_q q in
      let dqs =
        floats_at (before ++ t ++ a) (c ++ after) whole s.dq (off + 4 + 4 * 7) 7 three at_dq dq in
      let taus =
        floats_at (before ++ t ++ a ++ b) after whole s.tau (off + 4 + 8 * 7) 7 four at_tau tau in
      rw (ticked, qs, dqs, taus) refl

  samples_from-bytes :
      (before after : List ℕ) (samples : List (LogSample Double)) (off : ℕ)
      → All IsSample samples
      → length before ≡ off
      → samples_from floats (before ++ samples_bytes samples ++ after) 7 (length samples) off
        ≡ map rounded_sample samples
  unfolding samples_from
  samples_from-bytes before after [] off all size = refl
  samples_from-bytes before after (s ∷ samples) off (is, all) size =
      let this = sample_bytes s in
      let others = samples_bytes samples in
      let here : before ++ (this ++ others) ++ after ≡ before ++ this ++ (others ++ after) =
        simp append_assoc in
      let there : before ++ (this ++ others) ++ after ≡ before ++ this ++ others ++ after =
        simp append_assoc in
      ap₂ ◌∷◌
        (ap (λ (b : List ℕ). sample_at floats b 7 off) here
          ∙ sample_at-bytes before (others ++ after) off s is size)
        (ap (λ (b : List ℕ). samples_from floats b 7 (length samples) (off + (4 + 12 * 7))) there
          ∙ samples_from-bytes (before ++ this) after samples (off + (4 + 12 * 7)) all
              (omega (arith, length-append before this, length-sample_bytes s is, size)))

  length-samples_bytes :
      (samples : List (LogSample Double))
      → All IsSample samples
      → length (samples_bytes samples) ≡ 88 * length samples
  length-samples_bytes [] all = refl
  length-samples_bytes (s ∷ samples) (is, all) = omega (
    arith,
    length-append (sample_bytes s) (samples_bytes samples),
    length-sample_bytes s is,
    length-samples_bytes samples all,
  )

  -- The bytes of any samples of seven joints, as the firmware lays them out, are parsed to those
  -- samples in their order, each value rounded to single precision.
  pub parse-samples_bytes :
      (samples : List (LogSample Double))
      → All IsSample samples
      → parse_samples floats (samples_bytes samples) 7 ≡ ok (map rounded_sample samples)
  unfolding parse_samples
  parse-samples_bytes samples all =
      let size = length-samples_bytes samples all in
      let exact : (length (samples_bytes samples) % 88 == 0) ≡ true = ground (arith, size) in
      let count : length (samples_bytes samples) / 88 ≡ length samples = omega (arith, size) in
      let padded : [] ++ samples_bytes samples ++ [] ≡ samples_bytes samples =
        append-nil (samples_bytes samples) in
      rw (exact, count)
        (ap ok (
          ap (λ (b : List ℕ). samples_from floats b 7 (length samples) 0) (sym padded)
          ∙ samples_from-bytes [] [] samples 0 all refl))
