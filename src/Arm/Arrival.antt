-- ===== src/Arm/Arrival.antt =====
-- What it takes for a motion to count as arrived.
use litearm_cpp.Base.{
  ℕ, zero, suc, ◌+◌, ◌*◌, ◌≤◌, ◌≡◌, refl, ◌∙◌, subst, arith, List, [], ◌∷◌, ◌++◌, Option, none,
  some, Bool, true, false, ◌==◌, ◌||◌, leb, if◌then◌else◌, Bool-cases, inl, inr, All, take, length,
}
use litearm_cpp.Errors.{Failure, Result, ok, err, motion_timeout}
use litearm_cpp.Floats.{Floats}
use litearm_cpp.State.{RobotState, positions, velocities, faulted}
use litearm_cpp.Ack.{Event}
use litearm_cpp.Ack.Wait.{Moment, Moments, Box}
use litearm_cpp.Cart.{cart_collector}
use litearm_cpp.Action.{gets, then_do, ◌>>=◌}
use litearm_cpp.Arm.{Arm, Tolerances, hear, now_s}
use litearm_cpp.Arm.Guards.{admitted, require_lem}
use litearm_cpp.Arm.Move.{
  is_at, Progress, budget_of, arrive_at, on_frame, fresh, arrive_look, ended_or, arrive_loop,
  await_arrival, start_of,
}
use litearm_cpp.Arm.Near.{Near, IsSlow, all_near-Near, all_slow-All, length-positions}

ok_injective : {R : Type 0} (a b : R) → ok a ≡ ok b → a ≡ b
ok_injective a b e = cc

module _ (floats : Floats) where
  open floats use {Double, at_most, distance, magnitude}

  abbrev States : Type 0
  States = List (RobotState Double)

  -- The newest frame first.
  abbrev seen_frame : Option (RobotState Double) → Bool → States → States
  seen_frame none skipped acc = acc
  seen_frame (some st) skipped acc = if skipped then acc else st ∷ acc

  abbrev pub seen_next : Box floats cart_collector → Progress floats → States → States
  seen_next box p acc = seen_frame box.state (box.reader_error || (box.status_seq == p.seq0)) acc

  abbrev pub seen_rest : Option (Result (RobotState Double)) → States → States → States
  seen_rest (some r) acc rest = acc
  seen_rest none acc rest = rest

  -- The state frames that the loop looks at until it ends, on top of those of before.
  unfoldable pub arrive_seen :
      List Double
      → ℕ
      → ℕ
      → Progress floats
      → Moments floats cart_collector
      → Arm floats
      → States
      → States
  arrive_seen target budget hard_end p [] arm acc = seen_next arm.box p acc
  arrive_seen target budget hard_end p (m ∷ moments) arm acc =
      let (ended, q) = arrive_look floats arm.tol target budget m.now arm.box p in
      let next = hear floats m.arrived (record arm { later = moments }) in
      let now_seen = seen_next arm.box p acc in
      let rest = arrive_seen target budget hard_end q moments next now_seen in
      seen_rest ended now_seen (if leb hard_end m.now || leb q.end m.now then now_seen else rest)

  module _ (tol : Tolerances Double) (target : List Double) where
    abbrev pub IsArrivedAt : RobotState Double → Type 0
    IsArrivedAt st =
        Near floats tol.q_tol (positions st) target × All (IsSlow floats tol.dq_tol) (velocities st)

    is_at-IsArrivedAt :
        (st : RobotState Double) → is_at floats tol target st ≡ true → IsArrivedAt st
    unfolding is_at
    is_at-IsArrivedAt st h =
        let sized : length (positions st) ≡ length target =
          length-positions floats st ∙ ground (arith, h) in
        (
          all_near-Near floats tol.q_tol (positions st) target sized (ground (arith, h)),
          all_slow-All floats tol.dq_tol (velocities st) (ground (arith, h)),
        )

    -- The last `n` frames were at the target, and none had a fault.
    pub record IsStreak (n : ℕ) (acc : States) : Type 0 where
      pub near : All IsArrivedAt (take n acc)
      pub enough : n ≤ length acc
      pub sound : All (λ st. faulted st ≡ false) acc

    -- The frame that is returned is the newest, and the streak is long enough.
    pub record IsArrival (st : RobotState Double) (seen : States) : Type 0 where
      pub newest : (earlier : States) × (seen ≡ st ∷ earlier)
      pub streak : IsStreak tol.arrive_frames seen

    All-take :
        (k n : ℕ) (acc : States)
        → k ≤ n
        → All IsArrivedAt (take n acc)
        → All IsArrivedAt (take k acc)
    All-take zero n acc h a = tt
    All-take (suc k) zero acc h a = ground (arith, h)
    All-take (suc k) (suc n) [] h a = tt
    All-take (suc k) (suc n) (st ∷ acc) h a = (a.0, All-take k n acc (omega arith) a.1)

    IsStreak-shorter : (k n : ℕ) (acc : States) → k ≤ n → IsStreak n acc → IsStreak k acc
    IsStreak-shorter k n acc h s = record {
      near = All-take k n acc h s.near;
      enough = omega (arith, s.enough);
      sound = s.sound;
    }

    -- A frame without a fault, at the target or not.
    IsStreak-next :
        (n : ℕ) (acc : States) (st : RobotState Double)
        → faulted st ≡ false
        → IsStreak n acc
        → IsStreak (if is_at floats tol target st then n + 1 else 0) (st ∷ acc)
    IsStreak-next n acc st f s = elim (Bool-cases (is_at floats tol target st)) [
      | inl e ↦
          let one_more : suc n ≡ n + 1 = omega arith in
          let longer : IsStreak (suc n) (st ∷ acc) = record {
            near = (is_at-IsArrivedAt st e, s.near);
            enough = omega (arith, s.enough);
            sound = (f, s.sound);
          } in
          rw e (subst (λ (k : ℕ). IsStreak k (st ∷ acc)) one_more longer)
      | inr e ↦ rw e (record { near = tt; enough = omega arith; sound = (f, s.sound) })
    ]

    abbrev Looked : Option (Result (RobotState Double)) → ℕ → States → Type 0
    Looked none n acc = IsStreak n acc
    Looked (some (ok st)) n acc = IsArrival st acc
    Looked (some (err e)) n acc = Unit {0}

    Looked-frame :
        (budget now seq : ℕ) (st : RobotState Double) (p : Progress floats) (acc : States)
        → IsStreak p.n_ok acc
        → let (ended, q) = on_frame floats tol target budget now seq st p in
          Looked ended q.n_ok (st ∷ acc)
    Looked-frame budget now seq st p acc s =
        let n = if is_at floats tol target st then p.n_ok + 1 else 0 in
        elim (Bool-cases (faulted st)) [
          | inl f ↦ simp f tt
          | inr f ↦
              let longer = IsStreak-next p.n_ok acc st f s in
              elim (Bool-cases (leb tol.arrive_frames n)) [
                | inl l ↦
                    simp (f, l)
                      (record {
                        newest = (acc, refl);
                        streak =
                            IsStreak-shorter tol.arrive_frames n (st ∷ acc) (ground (arith, l))
                              longer;
                      })
                | inr l ↦ simp (f, l) longer
              ]
        ]

    Looked-fresh :
        (budget now : ℕ) (state : Option (RobotState Double)) (seq : ℕ) (p : Progress floats)
        (acc : States)
        → IsStreak p.n_ok acc
        → let (ended, q) = fresh floats tol target budget now state seq p in
          Looked ended q.n_ok (seen_frame state (seq == p.seq0) acc)
    Looked-fresh budget now none seq p acc s = s
    Looked-fresh budget now (some st) seq p acc s = elim (Bool-cases (seq == p.seq0)) [
      | inl e ↦ simp e s
      | inr e ↦ simp e (Looked-frame budget now seq st p acc s)
    ]

    looked :
        (budget now : ℕ) (box : Box floats cart_collector) (p : Progress floats) (acc : States)
        → IsStreak p.n_ok acc
        → let (ended, q) = arrive_look floats tol target budget now box p in
          Looked ended q.n_ok (seen_next box p acc)
    unfolding arrive_look
    looked budget now box p acc s = elim (Bool-cases box.reader_error) [
      | inl e ↦ simp e tt
      | inr e ↦ simp e (Looked-fresh budget now box.state box.status_seq p acc s)
    ]

    ended_arrived :
        (ended : Option (Result (RobotState Double))) (n : ℕ) (now_seen rest : States)
        (arm : Arm floats) (out : Result (RobotState Double) × Arm floats) (st : RobotState Double)
        → Looked ended n now_seen
        → (IsStreak n now_seen → out.0 ≡ ok st → IsArrival st rest)
        → (ended_or floats ended arm out).0 ≡ ok st
        → IsArrival st (seen_rest ended now_seen rest)
    ended_arrived none n now_seen rest arm out st h go e = go h e
    ended_arrived (some (err f)) n now_seen rest arm out st h go e = cc
    ended_arrived (some (ok found)) n now_seen rest arm out st h go e =
        subst (λ (t : RobotState Double). IsArrival t now_seen) (ok_injective found st e) h

module _ (floats : Floats) (target : List (floats.Double)) where
  arrived_if :
      (c : Bool) (r : Result (RobotState (floats.Double)) × Arm floats) (next : Arm floats)
      (now_seen rest : States floats) (tol : Tolerances (floats.Double))
      (st : RobotState (floats.Double))
      → (r.0 ≡ ok st → IsArrival floats tol target st rest)
      → (if c then (err motion_timeout, next) else r).0 ≡ ok st
      → IsArrival floats tol target st (if c then now_seen else rest)
  arrived_if true r next now_seen rest tol st go e = cc
  arrived_if false r next now_seen rest tol st go e = go e

  same_seen :
      (ended : Option (Result (RobotState floats.Double))) (seen : States floats)
      → seen_rest floats ended seen seen ≡ seen
  same_seen none seen = refl
  same_seen (some r) seen = refl

  arrive_loop-arrived :
      (budget hard_end : ℕ) (p : Progress floats) (moments : Moments floats cart_collector)
      (arm : Arm floats) (acc : States floats) (st : RobotState (floats.Double))
      → IsStreak floats arm.tol target p.n_ok acc
      → (arrive_loop floats target budget hard_end p moments arm).0 ≡ ok st
      → IsArrival floats arm.tol target st
          (arrive_seen floats target budget hard_end p moments arm acc)
  unfolding arrive_loop arrive_seen
  arrive_loop-arrived budget hard_end p [] arm acc st s e =
      let (ended, q) = arrive_look floats arm.tol target budget 0 arm.box p in
      let now_seen = seen_next floats arm.box p acc in
      subst (λ (seen : States floats). IsArrival floats arm.tol target st seen)
        (same_seen ended now_seen)
        (ended_arrived floats arm.tol target ended q.n_ok now_seen now_seen arm
          (err motion_timeout, arm) st (looked floats arm.tol target budget 0 arm.box p acc s)
          (λ longer f. cc) e)
  arrive_loop-arrived budget hard_end p (m ∷ moments) arm acc st s e =
      let (ended, q) = arrive_look floats arm.tol target budget m.now arm.box p in
      let next = hear floats m.arrived (record arm { later = moments }) in
      let now_seen = seen_next floats arm.box p acc in
      let timed_out = leb hard_end m.now || leb q.end m.now in
      let run = arrive_loop floats target budget hard_end q moments next in
      let rest = arrive_seen floats target budget hard_end q moments next now_seen in
      ended_arrived floats arm.tol target ended q.n_ok now_seen
        (if timed_out then now_seen else rest) arm
        (if timed_out then (err motion_timeout, next) else run) st
        (looked floats arm.tol target budget m.now arm.box p acc s)
        (λ longer.
          arrived_if timed_out run next now_seen rest arm.tol st
            (arrive_loop-arrived budget hard_end q moments next now_seen st longer))
        e

  -- When a motion's wait returns a state, it is the newest of the state frames that the wait looked at;
  -- in as many frames in a row as `arrive_frames` asks for, up to this one, there is a joint for each
  -- target, no joint's distance to its target compares as `q_tol` or more, and no speed as `dq_tol` or
  -- more; and none of the frames looked at had a fault. A distance or a speed that is not a number
  -- compares as neither, so that it counts as arrived.
  pub await_arrival-arrived :
      (budget hard_end seq0 end : ℕ) (arm : Arm floats) (st : RobotState floats.Double)
      → (await_arrival floats target budget hard_end (start_of floats seq0 end) arm).0 ≡ ok st
      → IsArrival floats arm.tol target st
          (arrive_seen floats target budget hard_end (start_of floats seq0 end) arm.later arm [])
  unfolding await_arrival
  await_arrival-arrived budget hard_end seq0 end arm st e =
      arrive_loop-arrived budget hard_end (start_of floats seq0 end) arm.later arm [] st
        (record { near = tt; enough = omega arith; sound = tt }) e

  same_end :
      (ended : Option (Result (RobotState floats.Double))) (arm arm' : Arm floats)
      (x y : Result (RobotState floats.Double) × Arm floats)
      → x.0 ≡ y.0
      → (ended_or floats ended arm x).0 ≡ (ended_or floats ended arm' y).0
  same_end none arm arm' x y e = e
  same_end (some r) arm arm' x y e = refl

  if_same :
      (c : Bool) (f : Failure) (next next' : Arm floats)
      (x y : Result (RobotState floats.Double) × Arm floats)
      → (c ≡ false → x.0 ≡ y.0)
      → (if c then (err f, next) else x).0 ≡ (if c then (err f, next') else y).0
  if_same true f next next' x y e = refl
  if_same false f next next' x y e = e refl

  -- A reading at `hard_end` or later ends the loop: what follows it makes no difference.
  arrive_loop_capped :
      (budget hard_end : ℕ) (p : Progress floats)
      (before after other : Moments floats cart_collector)
      (m : Moment (Event floats cart_collector)) (arm : Arm floats)
      (later later' : Moments floats cart_collector)
      → hard_end ≤ m.now
      → (arrive_loop floats target budget hard_end p
          (before ++ m ∷ after)
          (record arm { later = later })).0
        ≡ (arrive_loop floats target budget hard_end p
            (before ++ m ∷ other)
            (record arm { later = later' })).0
  unfolding arrive_loop
  arrive_loop_capped budget hard_end p [] after other m arm later later' h =
      let (ended, q) = arrive_look floats arm.tol target budget m.now arm.box p in
      let capped : (leb hard_end m.now || leb q.end m.now) ≡ true = ground (arith, h) in
      same_end ended _ _ _ _ (
        if_same (leb hard_end m.now || leb q.end m.now) motion_timeout _ _ _ _
          (λ e. cc (e, capped)))
  arrive_loop_capped budget hard_end p (b ∷ before) after other m arm later later' h =
      let (ended, q) = arrive_look floats arm.tol target budget b.now arm.box p in
      same_end ended _ _ _ _ (
        if_same (leb hard_end b.now || leb q.end b.now) motion_timeout _ _ _ _ (λ e.
          arrive_loop_capped budget hard_end q before after other m (hear floats b.arrived arm)
            (before ++ m ∷ after) (before ++ m ∷ other) h))

  guarded_alike :
      {A B : Type 0} (r : Result A) (go : A → Arm floats → Result B × Arm floats)
      (arm arm' : Arm floats)
      → ((a : A) → (go a arm).0 ≡ (go a arm').0)
      → (then_do go (r, arm)).0 ≡ (then_do go (r, arm')).0
  guarded_alike (ok a) go arm arm' h = h a
  guarded_alike (err e) go arm arm' h = refl

  -- However the arm moves, `arrive` is over once the clock shows four budgets after its start; its
  -- budget is the timeout that was given, or `move_timeout`. What the clock shows and what arrives
  -- after that reading makes no difference to its result.
  pub arrive_at_capped :
      (timeout : Option ℕ) (start m : Moment (Event floats cart_collector))
      (before after other : Moments floats cart_collector) (arm : Arm floats)
      → start.now + 4 * budget_of floats timeout arm.tol.move_timeout ≤ m.now
      → (arrive_at floats target timeout (record arm { later = start ∷ before ++ m ∷ after })).0
        ≡ (arrive_at floats target timeout (record arm { later = start ∷ before ++ m ∷ other })).0
  unfolding arrive_at now_s await_arrival gets ◌>>=◌
  arrive_at_capped timeout start m before after other arm h =
      let budget = budget_of floats timeout arm.tol.move_timeout in
      let left = record arm { later = start ∷ before ++ m ∷ after } in
      let right = record arm { later = start ∷ before ++ m ∷ other } in
      simp (require_lem floats left, require_lem floats right)
        (guarded_alike (admitted floats arm) _ left right λ u.
          arrive_loop_capped budget (start.now + 4 * budget)
            (start_of floats arm.box.status_seq (start.now + budget)) before after other m
            (hear floats start.arrived arm) (before ++ m ∷ after) (before ++ m ∷ other) h)
