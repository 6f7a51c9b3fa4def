-- ===== src/Arm/Lost.antt =====
-- The start of zero gravity after its keep-alive was lost: `zg_keepalive` and `zero_g_start` of
-- `src/arm.cpp`.
use litearm_cpp.Base.{ℕ, ◌≡◌, refl, ap, ◌∙◌, List, [], ◌∷◌, some, Bool, true, false, ◌||◌, arith}
use litearm_cpp.Errors.{Failure, Result, ok, err}
use litearm_cpp.Action.{gets, modify, pure, catch_all, rescue, ◌>>=◌}
use litearm_cpp.Floats.{Floats}
use litearm_cpp.Arm.{Arm, raw_write}
use litearm_cpp.Arm.Hover.{zero_g_start, zg_keepalive, is_kept_alive, lose}
use litearm_cpp.Arm.Inert.{Inert, raw_write-Preserves}
use litearm_cpp.Arm.Refused.{zero_g_start-terminated}
use litearm_cpp.Arm.Calls.{Step, steps}

module _ (floats : Floats) where
  abbrev IsJoinable : Arm floats → Type 0
  IsJoinable arm = arm.zg_thread ≡ true

  IsJoinable-Inert : Inert floats IsJoinable
  IsJoinable-Inert arm box later sent writes h = h

  caught :
      (r : Result (Unit {0})) (arm : Arm floats) (e : Failure)
      → r ≡ err e
      → rescue (λ f. modify (lose floats f)) (r, arm) ≡ (ok tt, lose floats e arm)
  unfolding modify
  caught r arm e h = rw h refl

  keepalive_lost :
      (e : Failure) (arm : Arm floats)
      → is_kept_alive floats arm ≡ true
      → (raw_write floats 0x06 (1 ∷ []) arm).0 ≡ err e
      → zg_keepalive floats arm ≡ (ok tt, lose floats e ((raw_write floats 0x06 (1 ∷ []) arm).1))
  unfolding zg_keepalive gets catch_all ◌>>=◌
  keepalive_lost e arm alive fails =
      let out = raw_write floats 0x06 (1 ∷ []) arm in simp alive (caught out.0 out.1 e fails)

  steps-ended :
      (ss : List (Step floats)) (arm : Arm floats)
      → arm.terminated ≡ true
      → steps floats ss arm ≡ (ok tt, arm)
  unfolding steps pure gets ◌>>=◌
  steps-ended [] arm h = refl
  steps-ended (s ∷ ss) arm h = rw h refl

  or_true : (b c : Bool) → c ≡ true → (b || c) ≡ true
  or_true b c h = ground (arith, h)

  -- The keep-alive runs in the process of the session and the write of its frame fails; then a start of
  -- zero gravity passes its checks and is acknowledged. The failed keep-alive has kept its failure and
  -- has left zero gravity inactive and its thread unjoined; the start assigns that thread and so ends the
  -- program, after which no step does anything.
  pub zero_g_start-lost :
      (period : ℕ) (e : Failure) (rest : List (Step floats)) (arm : Arm floats)
      → arm.zg_thread ≡ true
      → is_kept_alive floats arm ≡ true
      → (raw_write floats 0x06 (1 ∷ []) arm).0 ≡ err e
      → (zero_g_start floats period ((zg_keepalive floats arm).1)).0 ≡ ok tt
      → let lost = (zg_keepalive floats arm).1 in
        let ended = (zero_g_start floats period lost).1 in
        (lost.zg_error ≡ some e)
        × (lost.zg_active ≡ false)
        × (lost.zg_thread ≡ true)
        × (ended.terminated ≡ true)
        × (steps floats rest ended ≡ (ok tt, ended))
  zero_g_start-lost period e rest arm thread alive fails starts =
      let lost = (zg_keepalive floats arm).1 in
      let is =
        ap (λ (out : Result (Unit {0}) × Arm floats). out.1) (keepalive_lost e arm alive fails) in
      let inactive = ap (λ (a : Arm floats). a.zg_active) is in
      let joinable : lost.zg_thread ≡ true =
        ap (λ (a : Arm floats). a.zg_thread) is
        ∙ (raw_write-Preserves floats IsJoinable IsJoinable-Inert 0x06 (1 ∷ [])).holds arm thread in
      let dead : (zero_g_start floats period lost).1.terminated ≡ true =
        zero_g_start-terminated floats period lost inactive starts
        ∙ or_true lost.terminated lost.zg_thread joinable in
      (
        ap (λ (a : Arm floats). a.zg_error) is,
        inactive,
        joinable,
        dead,
        steps-ended rest ((zero_g_start floats period lost).1) dead,
      )
