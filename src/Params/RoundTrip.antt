-- ===== src/Params/RoundTrip.antt =====
-- What was set is read back from a device that stores the payloads of the setters.
use litearm_cpp.Base.{
  ℕ, ◌≡◌, subst, List, [], ◌∷◌, ◌++◌, map, some, arith, true, ◌==◌, ltb, length, append-nil,
}
use litearm_cpp.Errors.{ok}
use litearm_cpp.Floats.{Floats}
use litearm_cpp.Protocol.Frame.{u8}
use litearm_cpp.Protocol.Scalar.{pack_f32s, unpack_f32s}
use litearm_cpp.Protocol.Scalar.RoundTrip.{unpack-pack_f32s, length-pack_f32s}
use litearm_cpp.Params.{Sent, check_body_idx, set_body, get_body, set_jm, get_jm, seven_reply}

module _ (floats : Floats) where
  open floats use {Double, narrow, widen}

  -- The values that follow the head of a payload.
  values_after :
      (head : List ℕ) (n : ℕ) (vals : List Double)
      → length vals ≡ n
      → unpack_f32s floats (head ++ pack_f32s floats vals) (length head) n
        ≡ map (λ v. widen (narrow v)) vals
  values_after head n vals count =
      let whole = append-nil (head ++ pack_f32s floats vals) in
      subst
        (λ (b : List ℕ). unpack_f32s floats b (length head) n ≡ map (λ v. widen (narrow v)) vals)
        whole
        (subst
          (λ (k : ℕ).
            unpack_f32s floats (head ++ pack_f32s floats vals ++ []) (length head) k
            ≡ map (λ v. widen (narrow v)) vals)
          count (unpack-pack_f32s floats head [] vals))

  -- A body that `set_body` sends is what `get_body` returns, each value rounded to single precision,
  -- when the device answers the query with the payload that it was sent.
  pub get-set_body :
      (idx : ℕ) (vals : List Double) (sent : Sent)
      → set_body floats (some idx) vals ≡ ok sent
      → get_body floats (some idx) (0x54 ∷ sent.payload) ≡ ok (map (λ v. widen (narrow v)) vals)
  unfolding set_body get_body check_body_idx
  get-set_body idx vals sent h =
      let count : length vals ≡ 10 = ground (arith, h) in
      let known : ltb idx 9 ≡ true = ground (arith, h) in
      let payload : sent.payload ≡ u8 idx ∷ pack_f32s floats vals = ground (arith, h) in
      let size : length (pack_f32s floats vals) ≡ 40 =
        omega (arith, length-pack_f32s floats vals, count) in
      let values = values_after (0x54 ∷ u8 idx ∷ []) 10 vals count in
      let full : (length (0x54 ∷ u8 idx ∷ pack_f32s floats vals) == 42) ≡ true =
        ground (arith, size) in
      let same : (u8 idx == u8 idx) ≡ true = ground arith in
      rw payload (simp (known, full, same, values))

  -- The same for the motor inertias, `set_jm` and `get_jm`.
  pub get-set_jm :
      (vals : List Double) (sent : Sent)
      → set_jm floats vals ≡ ok sent
      → get_jm floats (0x55 ∷ sent.payload) ≡ ok (map (λ v. widen (narrow v)) vals)
  unfolding set_jm get_jm seven_reply
  get-set_jm vals sent h =
      let count : length vals ≡ 7 = ground (arith, h) in
      let payload : sent.payload ≡ pack_f32s floats vals = ground (arith, h) in
      let size : length (pack_f32s floats vals) ≡ 28 =
        omega (arith, length-pack_f32s floats vals, count) in
      let values = values_after (0x55 ∷ []) 7 vals count in
      let full : (length (0x55 ∷ pack_f32s floats vals) == 29) ≡ true = ground (arith, size) in
      rw payload (simp (full, values))
