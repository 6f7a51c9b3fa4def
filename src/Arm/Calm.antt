-- ===== src/Arm/Calm.antt =====
-- While zero gravity is active, the calls write queries and stops only.
use litearm_cpp.Base.{ℕ, ◌≡◌, refl, arith, List, [], ◌∷◌, ◌++◌, Bool, true, false, ◌&&◌, ◌||◌, map}
use litearm_cpp.Errors.{invalid_command}
use litearm_cpp.Action.{gets, throw_if, ◌>>=◌}
use litearm_cpp.Action.Preserves.{
  Preserves, Preserves-bind, Preserves-gets, Preserves-pure, Preserves-attempt, Preserves-throw_if,
  Preserves-if,
}
use litearm_cpp.Floats.{Floats}
use litearm_cpp.Arm.{Arm, SentFrame, member, write_frame, write_query, write_cmd}
use litearm_cpp.Arm.Stable.{Stable, queries, stops}
use litearm_cpp.Arm.Inert.{write_query-Linked}
use litearm_cpp.Arm.Calls.{Call, Step, step, steps}
use litearm_cpp.Arm.Calls.Rules.{call-Preserves}

-- The frames that leave zero gravity to the firmware.
abbrev pub is_calm : SentFrame → Bool
is_calm f = member f.cmd queries || member f.cmd stops

unfoldable pub all_calm : List SentFrame → Bool
all_calm [] = true
all_calm (f ∷ frames) = is_calm f && all_calm frames

all_calm-append :
    (frames : List SentFrame) (f : SentFrame)
    → all_calm frames ≡ true
    → is_calm f ≡ true
    → all_calm (frames ++ f ∷ []) ≡ true
unfolding all_calm
all_calm-append [] f h k = ground (arith, k)
all_calm-append (g ∷ frames) f h k = ground (arith, all_calm-append frames f)

module _ (floats : Floats) where
  abbrev pub IsCalm : Arm floats → Type 0
  IsCalm arm = (arm.zg_active ≡ true) × (all_calm arm.sent ≡ true)

  write_frame-Calm :
      (cmd : ℕ) (payload : List ℕ)
      → (member cmd queries || member cmd stops) ≡ true
      → Preserves IsCalm (write_frame floats cmd payload)
  unfolding write_frame
  write_frame-Calm cmd payload c = record {
    holds =
        λ arm (z, h). (z, all_calm-append arm.sent (record { cmd = cmd; payload = payload }) h c);
  }

  write_query-Calm :
      (cmd : ℕ) (payload : List ℕ)
      → (member cmd queries || member cmd stops) ≡ true
      → Preserves IsCalm (write_query floats cmd payload)
  write_query-Calm cmd payload c =
      write_query-Linked floats IsCalm (λ arm box later h. h) cmd payload
        (write_frame-Calm cmd payload c)

  guarded-Calm : (cmd : ℕ) (payload : List ℕ) → Preserves IsCalm (write_cmd floats cmd payload true)
  unfolding write_cmd ◌>>=◌ gets throw_if
  guarded-Calm cmd payload = record { holds = λ arm (z, h). rw z (refl, h) }

  stop-Calm : (cmd : ℕ) → member cmd stops ≡ true → Preserves IsCalm (write_cmd floats cmd [] false)
  unfolding write_cmd
  stop-Calm cmd c = Preserves-bind IsCalm _ _ (Preserves-gets IsCalm _) λ g.
      Preserves-bind IsCalm _ _ (Preserves-throw_if IsCalm g invalid_command)
        λ u. write_query-Calm cmd [] (ground (arith, c))

  calm : Stable floats IsCalm
  calm = record {
    linked = λ arm box later h. h;
    queried = λ cmd payload known. write_query-Calm cmd payload (ground (arith, known));
    commanded = guarded-Calm;
    stopped = stop-Calm;
  }

  steps-Calm : (cs : List (Call floats)) → Preserves IsCalm (steps floats (map Step.plain cs))
  unfolding steps step
  steps-Calm [] = Preserves-pure IsCalm tt
  steps-Calm (c ∷ cs) =
      Preserves-bind IsCalm _ _ (Preserves-gets IsCalm (λ arm. arm.terminated)) λ ended.
        Preserves-if IsCalm ended _ _ (Preserves-pure IsCalm tt) (
          Preserves-bind IsCalm _ _
            (Preserves-attempt IsCalm _ (call-Preserves floats IsCalm calm c))
            λ caught. steps-Calm cs)

  -- While zero gravity is active, calls that do not stop it leave it active, and of all the frames that
  -- they write, each is a query, a disable or an emergency stop.
  pub steps-calm :
      (cs : List (Call floats)) (arm : Arm floats)
      → arm.zg_active ≡ true
      → arm.sent ≡ []
      → let later = (steps floats (map Step.plain cs) arm).1 in
        (later.zg_active ≡ true) × (all_calm later.sent ≡ true)
  unfolding all_calm
  steps-calm cs arm z fresh = (steps-Calm cs).holds arm (z, rw fresh refl)
