-- ===== src/Protocol/Status/Layout.antt =====
-- Which payloads `decode_status` accepts.
use litearm_cpp.Base.{
  ℕ, zero, suc, ◌+◌, ◌/◌, ◌%◌, ◌^◌, ◌<◌, ◌≡◌, refl, ap, ◌⊎◌, inl, inr, List, none, some, arith,
  length,
}
use native.Mathlib.Decide.{ℕ_discrete}
use litearm_cpp.Floats.{Floats}
use litearm_cpp.Protocol.Scalar.{read_u16le}
use litearm_cpp.Protocol.Status.{StatusDecoded, names_from, joints_from, decode_status}

-- The lengths that are accepted: 4 + 21 * 7 bytes, and two more with the fault bitmap.
abbrev pub IsStatusLength : ℕ → Type 0
IsStatusLength n = (n ≡ 151) ⊎ (n ≡ 153)

module _ (floats : Floats) where
  open floats use {Double, narrow, widen, narrow_fits}

  length-joints_from :
      (payload : List ℕ) (left i : ℕ) → length (joints_from floats payload left i) ≡ left
  unfolding joints_from
  length-joints_from payload zero i = refl
  length-joints_from payload (suc left) i = ap suc (length-joints_from payload left (i + 1))

  -- The status that is read from a payload, but for the fault bitmap.
  unfoldable pub status_of : List ℕ → ℕ → StatusDecoded Double
  status_of payload fault = record {
    flags = read_u16le payload 0;
    seq = read_u16le payload 2;
    mode = read_u16le payload 0 / 2 ^ 6 % 2 ^ 3;
    flag_names = names_from (read_u16le payload 0) 6 0;
    joints = joints_from floats payload 7 0;
    joint_fault = fault;
  }

  decode_short :
      (payload : List ℕ)
      → length payload ≡ 151
      → decode_status floats payload ≡ some (status_of payload 0)
  unfolding decode_status status_of
  decode_short payload e = rw e

  pub decode_long :
      (payload : List ℕ)
      → length payload ≡ 153
      → decode_status floats payload ≡ some (status_of payload (read_u16le payload 151))
  unfolding decode_status status_of
  decode_long payload e = rw e

  decode_other :
      (payload : List ℕ) → ¬ IsStatusLength (length payload) → decode_status floats payload ≡ none
  unfolding decode_status
  decode_other payload h = ground (arith, h)

  -- A payload is decoded exactly when it is 151 or 153 bytes long; a decoded status has seven joints
  -- and a mode below 8, and no fault bitmap if it is short.
  pub decode_cases :
      (payload : List ℕ)
      → (IsStatusLength (length payload)
          × ((s : StatusDecoded Double) × (decode_status floats payload ≡ some s)
              × (length s.joints ≡ 7)
              × (s.mode < 8)
              × (length payload ≡ 151 → s.joint_fault ≡ 0)))
        ⊎ ((¬ IsStatusLength (length payload)) × (decode_status floats payload ≡ none))
  unfolding status_of
  decode_cases payload = elim (ℕ_discrete (length payload) 151) [
    | yes e ↦ inl (
      inl e,
      (
        status_of payload 0,
        decode_short payload e,
        length-joints_from payload 7 0,
        omega arith,
        λ _. refl,
      ),
    )
    | no short ↦ elim (ℕ_discrete (length payload) 153) [
      | yes e ↦ inl (
        inr e,
        (
          status_of payload (read_u16le payload 151),
          decode_long payload e,
          length-joints_from payload 7 0,
          omega arith,
          λ d. absurd (short d),
        ),
      )
      | no long ↦
          let other : ¬ IsStatusLength (length payload) =
            λ h. elim h [ inl e ↦ short e | inr e ↦ long e ] in
          inr (other, decode_other payload other)
    ]
  ]
