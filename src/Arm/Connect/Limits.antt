-- ===== src/Arm/Connect/Limits.antt =====
-- The limits of the joints: `refresh_limits` of `src/arm.cpp`, with `get_joint_param` and
-- `all_joint_params` of `src/params.cpp`.
use litearm_cpp.Base.{ℕ, zero, suc, ◌+◌, List, [], ◌∷◌, some, Bool, true, not, ◌&&◌, if◌then◌else◌}
use litearm_cpp.Action.{pure, gets, modify, result, catch_all, ◌>>=◌, ◌>>◌}
use litearm_cpp.Floats.{Floats}
use litearm_cpp.Protocol.Frame.{u8}
use litearm_cpp.Params.{JointParam, decode_joint_param, check_idx}
use litearm_cpp.Arm.{Arm, Act, require, write_query, answer}

module _ (floats : Floats) where
  open floats use {Double, is_finite, less}

  unfoldable pub get_joint_param : ℕ → Act floats (JointParam Double)
  unfolding write_query require answer
  get_joint_param i = do
    idx ← result (← gets (λ arm. check_idx arm.n (some i)))
    write_query floats 0x24 (u8 idx ∷ [])
    require floats
    payload ← answer floats 0x49 1000 (some 0x24)
    result (decode_joint_param floats payload)

  -- The loop of `all_joint_params`, from `i` with the rounds left.
  unfoldable pub joint_params_from : ℕ → ℕ → Act floats (List (JointParam Double))
  unfolding get_joint_param
  joint_params_from zero i = pure []
  joint_params_from (suc left) i = do
    p ← get_joint_param i
    ps ← joint_params_from left (i + 1)
    pure (p ∷ ps)

  unfoldable pub all_joint_params : Act floats (List (JointParam Double))
  unfolding joint_params_from
  all_joint_params = do joint_params_from (← gets (λ arm. arm.n)) 0

  -- Whether the limits are in order: `q_min > q_max` is `less q_max q_min`.
  abbrev pub is_sane : JointParam Double → Bool
  is_sane p = is_finite p.q_min && is_finite p.q_max && not (less p.q_max p.q_min)

  unfoldable pub all_sane : List (JointParam Double) → Bool
  all_sane [] = true
  all_sane (p ∷ ps) = is_sane p && all_sane ps

  abbrev pub set_limits : List (JointParam Double) → Arm floats → Arm floats
  set_limits ps arm = record arm { limits = ps }

  unfoldable pub refresh_limits : Act floats (Unit {0})
  unfolding all_joint_params all_sane
  refresh_limits = do
    modify (set_limits [])
    ps ← catch_all all_joint_params (λ e. pure [])
    modify (set_limits (if all_sane ps then ps else []))
