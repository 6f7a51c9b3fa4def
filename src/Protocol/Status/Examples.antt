-- ===== src/Protocol/Status/Examples.antt =====
-- The status decoder at concrete payloads.
use litearm_cpp.Base.{
  ℕ, ◌/◌, ◌%◌, ◌^◌, ◌<◌, ◌≡◌, refl, ◌⊎◌, List, [], ◌∷◌, map, none, some, arith, length,
}
use litearm_cpp.Floats.{pattern_floats}
use litearm_cpp.Protocol.Scalar.{pack_u16le}
use litearm_cpp.Protocol.Status.{JointRaw, StatusDecoded, names_from, decode_status}
use litearm_cpp.Protocol.Status.Layout.{IsStatusLength, decode_cases}
use litearm_cpp.Protocol.Status.Bytes.{status_bytes, rounded, decode-status_bytes}

abbrev joint : JointRaw ℕ
joint = record { q = 0x3f800000; dq = 0; tau = 0; t_mos = 0x41f00000; t_coil = 0x42000000; err = 3 }

abbrev joints : List (JointRaw ℕ)
joints = joint ∷ joint ∷ joint ∷ joint ∷ joint ∷ joint ∷ joint ∷ []

-- A fault in mode MOVE_J, with joint 2 off.
decode-status_bytes_example :
    decode_status pattern_floats (status_bytes pattern_floats 0x0041 7 joints (pack_u16le 2))
    ≡ some (record {
      flags = 0x0041;
      seq = 7;
      mode = 0x0041 / 2 ^ 6 % 2 ^ 3;
      flag_names = names_from 0x0041 6 0;
      joints = map (rounded pattern_floats) joints;
      joint_fault = 2;
    })
decode-status_bytes_example =
    decode-status_bytes pattern_floats 0x0041 7 2 joints (omega arith) (omega arith) (omega arith)
      refl

decode_cases_example :
    (IsStatusLength (length {A = ℕ} (0x41 ∷ 0x00 ∷ 0x07 ∷ 0x00 ∷ []))
      × ((s : StatusDecoded ℕ) × (decode_status pattern_floats (0x41 ∷ 0x00 ∷ 0x07 ∷ 0x00 ∷ [])
            ≡ some s)
          × (length s.joints ≡ 7)
          × (s.mode < 8)
          × (length {A = ℕ} (0x41 ∷ 0x00 ∷ 0x07 ∷ 0x00 ∷ []) ≡ 151 → s.joint_fault ≡ 0)))
    ⊎ ((¬ IsStatusLength (length {A = ℕ} (0x41 ∷ 0x00 ∷ 0x07 ∷ 0x00 ∷ [])))
        × (decode_status pattern_floats (0x41 ∷ 0x00 ∷ 0x07 ∷ 0x00 ∷ []) ≡ none))
decode_cases_example = decode_cases pattern_floats (0x41 ∷ 0x00 ∷ 0x07 ∷ 0x00 ∷ [])
