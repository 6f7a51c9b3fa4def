-- ===== src/Arm/Tuning.antt =====
-- Feed-forward tuning: `set_ff_mask` to `save_params` of `src/arm.cpp`. An `int` is a natural number,
-- with `none` for the negative ones.
use litearm_cpp.Base.{
  ℕ, List, [], ◌∷◌, none, some, Bool, false, not, ◌==◌, ◌&&◌, ◌||◌, leb, ltb, length,
}
use litearm_cpp.Errors.{invalid_command, transport}
use litearm_cpp.Action.{pure, throw_if, ◌>>=◌, ◌>>◌}
use litearm_cpp.Floats.{Floats}
use litearm_cpp.Protocol.Scalar.{pack_u32le, pack_f32s, pack_f32le, f32_at, unpack_f32s}
use litearm_cpp.Params.{Index}
use litearm_cpp.Arm.{Act, require, write_query, cmd_expect_ack, answer, member}

-- The numbers of the items; their names are left out.
unfoldable pub ff_vec_items : List ℕ
ff_vec_items = 1 ∷ 2 ∷ 3 ∷ 4 ∷ 5 ∷ 6 ∷ 7 ∷ 8 ∷ 9 ∷ 10 ∷ 11 ∷ 12 ∷ 13 ∷ 14 ∷ 15 ∷ []

unfoldable pub ff_scalar_items : List ℕ
ff_scalar_items = 1 ∷ 2 ∷ 3 ∷ 4 ∷ 5 ∷ 6 ∷ 7 ∷ 8 ∷ 10 ∷ 11 ∷ 12 ∷ 13 ∷ 14 ∷ 15 ∷ 16 ∷ 17 ∷ 18 ∷ []

unfoldable pub ff_scalar_ro_items : List ℕ
ff_scalar_ro_items = 9 ∷ []

unfoldable pub in_items : List ℕ → Index → Bool
in_items items none = false
in_items items (some item) = member item items

abbrev pub number : Index → ℕ
number none = 0
number (some i) = i

abbrev is_sub : Index → Bool
is_sub none = false
is_sub (some sub) = leb sub 2

module _ (floats : Floats) where
  open floats use {Double}

  -- `(mask & ~FF_ALL) != 0` says that a bit above the nine is set.
  unfoldable pub set_ff_mask : ℕ → Act floats (Unit {0})
  unfolding cmd_expect_ack
  set_ff_mask mask = do
    throw_if (ltb 0x1ff mask) invalid_command
    cmd_expect_ack floats 0x27 (pack_u32le mask) 1200

  unfoldable pub ff_preset : Index → Act floats (Unit {0})
  unfolding cmd_expect_ack
  ff_preset preset = do
    throw_if (not (is_sub preset)) invalid_command
    cmd_expect_ack floats 0x31 (number preset ∷ []) 1200

  unfoldable pub set_ff_vec : Index → List Double → Act floats (Unit {0})
  unfolding in_items cmd_expect_ack
  set_ff_vec item values = do
    throw_if (not (in_items ff_vec_items item) || not (length values == 7)) invalid_command
    cmd_expect_ack floats 0x26 (number item ∷ pack_f32s floats values) 1200

  unfoldable pub set_ff_scalar : Index → Index → Double → Act floats (Unit {0})
  unfolding in_items cmd_expect_ack
  set_ff_scalar item sub value = do
    throw_if (not (in_items ff_scalar_items item) || not (is_sub sub)) invalid_command
    cmd_expect_ack floats 0x28 (number item ∷ number sub ∷ pack_f32le floats value) 1200

  unfoldable pub get_ff_vec : Index → ℕ → Act floats (List Double)
  unfolding in_items require write_query answer
  get_ff_vec item timeout = do
    throw_if (not (in_items ff_vec_items item)) invalid_command
    require floats
    write_query floats 0x2b (number item ∷ [])
    payload ← answer floats 0x4b timeout (some 0x2b)
    throw_if (ltb (length payload) 30) transport
    pure (unpack_f32s floats payload 2 7)

  unfoldable pub get_ff_scalar : Index → Index → ℕ → Act floats Double
  unfolding in_items require write_query answer
  get_ff_scalar item sub timeout = do
    throw_if (not (in_items ff_scalar_items item) && not (in_items ff_scalar_ro_items item))
        invalid_command
    throw_if (not (is_sub sub)) invalid_command
    require floats
    write_query floats 0x2c (number item ∷ number sub ∷ [])
    payload ← answer floats 0x4c timeout (some 0x2c)
    throw_if (ltb (length payload) 7) transport
    pure (f32_at floats payload 3)

  unfoldable pub set_gravity_scale : List Double → Act floats (Unit {0})
  unfolding set_ff_vec
  set_gravity_scale gs = do throw_if (not (length gs == 7)) invalid_command; set_ff_vec (some 7) gs

  unfoldable pub set_inertia_scale : List Double → Act floats (Unit {0})
  unfolding set_ff_vec
  set_inertia_scale isc = do
    throw_if (not (length isc == 7)) invalid_command
    set_ff_vec (some 8) isc

  unfoldable pub set_payload : Double → Double → Double → Double → Act floats (Unit {0})
  unfolding set_ff_scalar
  set_payload mass x y z = do
    set_ff_scalar (some 4) (some 0) mass
    set_ff_scalar (some 5) (some 0) x
    set_ff_scalar (some 5) (some 1) y
    set_ff_scalar (some 5) (some 2) z

  unfoldable pub set_gravity_vector : Double → Double → Double → Act floats (Unit {0})
  unfolding set_ff_scalar
  set_gravity_vector x y z = do
    set_ff_scalar (some 6) (some 0) x
    set_ff_scalar (some 6) (some 1) y
    set_ff_scalar (some 6) (some 2) z

  unfoldable pub save_params : Act floats (Unit {0})
  unfolding cmd_expect_ack
  save_params = cmd_expect_ack floats 0x25 [] 2500
