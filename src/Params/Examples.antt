-- ===== src/Params/Examples.antt =====
-- The body and the inertias of a stored model.
use litearm_cpp.Base.{ℕ, ◌%◌, ◌^◌, ◌≡◌, refl, List, [], ◌∷◌, map, some}
use litearm_cpp.Errors.{ok}
use litearm_cpp.Floats.{pattern_floats}
use litearm_cpp.Protocol.Frame.{u8}
use litearm_cpp.Protocol.Scalar.{pack_f32s}
use litearm_cpp.Params.{Sent, set_body, get_body, check_body_idx}
use litearm_cpp.Params.RoundTrip.{get-set_body}

abbrev ten : List ℕ
ten = 1 ∷ 2 ∷ 3 ∷ 4 ∷ 5 ∷ 6 ∷ 7 ∷ 8 ∷ 9 ∷ 10 ∷ []

abbrev seven : List ℕ
seven = 1 ∷ 2 ∷ 3 ∷ 4 ∷ 5 ∷ 6 ∷ 7 ∷ []

abbrev sent_body : Sent
sent_body = record { cmd = 0x30; payload = u8 8 ∷ pack_f32s pattern_floats ten }

body_set : set_body pattern_floats (some 8) ten ≡ ok sent_body
unfolding set_body check_body_idx
body_set = refl

get-set_body_example :
    get_body pattern_floats (some 8) (0x54 ∷ sent_body.payload) ≡ ok (map (λ v. v % 2 ^ 32) ten)
get-set_body_example = get-set_body pattern_floats 8 ten sent_body body_set
