-- ===== src/Protocol/Scalar/Examples.antt =====
-- The float coder at concrete payloads.
use litearm_cpp.Base.{ℕ, ◌%◌, ◌^◌, ◌≡◌, List, [], ◌∷◌, ◌++◌, map}
use litearm_cpp.Floats.{pattern_floats}
use litearm_cpp.Protocol.Scalar.{pack_f32s, unpack_f32s}
use litearm_cpp.Protocol.Scalar.RoundTrip.{unpack-pack_f32s}

-- The patterns of 1.0f and -2.5f.
abbrev two_floats : List ℕ
two_floats = 0x3f800000 ∷ 0xc0200000 ∷ []

unpack-pack_f32s_example :
    unpack_f32s pattern_floats ((0x01 ∷ []) ++ pack_f32s pattern_floats two_floats ++ 0x00 ∷ []) 1 2
    ≡ map (λ v. v % 2 ^ 32) two_floats
unpack-pack_f32s_example = unpack-pack_f32s pattern_floats (0x01 ∷ []) (0x00 ∷ []) two_floats
