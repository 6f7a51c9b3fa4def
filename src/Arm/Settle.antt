-- ===== src/Arm/Settle.antt =====
-- The wait for the end of a Cartesian motion: `seq_now`, `wait_settled` and `tcp_reached` of
-- `src/cart.cpp`. The judgement of `pose_near` is an argument.
use litearm_cpp.Base.{
  ℕ, zero, suc, ◌+◌, ◌-◌, ◌%◌, ◌^◌, List, [], ◌∷◌, ◌++◌, Option, none, some, Bool, true, false, not,
  ◌==◌, ◌&&◌, ◌||◌, leb, ltb, if◌then◌else◌, length, drop,
}
use litearm_cpp.Errors.{Result, ok, err, motor_fault, motion_timeout}
use litearm_cpp.Action.{pure, throw, gets, result, catch_all, ◌>>=◌, ◌>>◌}
use litearm_cpp.Floats.{Floats}
use litearm_cpp.State.{RobotState, positions, velocities, faulted, cart_busy}
use litearm_cpp.Arm.{Tolerances, Act, now_s, require}
use litearm_cpp.Arm.Status.{pump_until, get_tcp}
use litearm_cpp.Arm.Pose.{is_over}

module _ (floats : Floats) where
  open floats use {Double, less, distance, magnitude, widen}

  -- The fields of `CartPlan` that a wait for the end fills in.
  pub record Arrived : Type 0 where
    pub started_busy : Bool
    pub settled : Bool
    pub q_final : List Double
    pub settle_err_rad : Double

  abbrev pub not_awaited : Arrived
  not_awaited = record {
    started_busy = false;
    settled = false;
    q_final = [];
    settle_err_rad = widen 0;
  }

  -- The variables of the loop. The frames of the window are in their order.
  pub record Watch : Type 0 where
    pub busy_seen : Bool
    pub prev_q : Option (List Double)
    pub window : List (List Double)
    pub last_seq : Option ℕ
    pub seq0 : Option ℕ

  unfoldable pub seq_now : Act floats (Option ℕ)
  unfolding require
  seq_now = do
    require floats
    st ← gets (λ arm. arm.box.state)
    pure (elim st [ none ↦ none | some s ↦ some s.seq ])

  unfoldable pub all_still : Double → List Double → Bool
  all_still tol [] = true
  all_still tol (d ∷ ds) = less (magnitude d) tol && all_still tol ds

  -- `q` against the frame before, axis by axis.
  unfoldable pub all_close : Double → List Double → List Double → Bool
  all_close tol (d ∷ ds) (e ∷ es) = less (distance d e) tol && all_close tol ds es
  all_close tol [] es = true
  all_close tol (d ∷ ds) [] = true

  abbrev pub is_close : Double → List Double → Option (List Double) → Bool
  is_close tol q none = true
  is_close tol q (some prev) = (length prev == length q) && all_close tol q prev

  unfoldable pub is_still : Tolerances Double → RobotState Double → Option (List Double) → Bool
  unfolding all_still all_close
  is_still tol st prev_q =
      all_still tol.dq_tol (velocities st) && is_close tol.q_tol (positions st) prev_q

  -- The window with a frame more, of which the last `frames` are kept.
  unfoldable pub pushed : ℕ → List (List Double) → List Double → List (List Double)
  pushed frames window q = drop (length window + 1 - frames) (window ++ q ∷ [])

  -- `window.back()`.
  unfoldable pub back : List (List Double) → List Double
  back [] = []
  back (q ∷ []) = q
  back (q ∷ p ∷ window) = back (p ∷ window)

  unfoldable pub widest_of : Double → List Double → List Double → Double
  widest_of m (d ∷ ds) (e ∷ es) =
      widest_of (if less m (distance d e) then distance d e else m) ds es
  widest_of m [] es = m
  widest_of m (d ∷ ds) [] = m

  unfoldable pub widest : Double → List (List Double) → List Double → Double
  unfolding widest_of
  widest m [] q = m
  widest m (w ∷ window) q = widest (widest_of m w q) window q

  -- Whether a frame was made after the command: the 16-bit counter is ahead of the mark.
  unfoldable pub is_fresh : ℕ → ℕ → Bool
  is_fresh seq mark = let delta = (seq + 2 ^ 16 - mark) % 2 ^ 16 in ltb 0 delta && ltb delta 32768

  abbrev pub outcome : Watch → Arrived
  outcome w = record {
    started_busy = w.busy_seen;
    settled = false;
    q_final = back w.window;
    settle_err_rad = widest (widen 0) w.window (back w.window);
  }

  -- A frame that is fresh and without a fault.
  unfoldable pub judge :
      Tolerances Double → RobotState Double → Watch → Option (Result Arrived) × Watch
  unfolding is_still pushed back widest
  judge tol st w =
      let window =
        if is_still tol st w.prev_q then pushed tol.arrive_frames w.window (positions st) else [] in
      let next = record w {
        busy_seen = w.busy_seen || cart_busy st;
        prev_q = some (positions st);
        window = window;
      } in
      (
        if leb tol.arrive_frames (length window) && not (cart_busy st)
            then some (ok (outcome next))
            else none,
        next,
      )

  -- A frame against the mark; without a mark it becomes it.
  abbrev pub marked :
      Tolerances Double → RobotState Double → Option ℕ → Watch → Option (Result Arrived) × Watch
  marked tol st none w = (none, record w { seq0 = some st.seq })
  marked tol st (some mark) w =
      if not (is_fresh st.seq mark)
      then (none, w)
      else if faulted st
      then (some (err motor_fault), w)
      else judge tol st w

  abbrev pub is_same : Option ℕ → ℕ → Bool
  is_same none seq = false
  is_same (some last) seq = seq == last

  -- What a round makes of the state.
  unfoldable pub look_at :
      Tolerances Double → Option (RobotState Double) → Watch → Option (Result Arrived) × Watch
  unfolding judge is_fresh
  look_at tol none w = (none, w)
  look_at tol (some st) w =
      if is_same w.last_seq st.seq
      then (none, w)
      else marked tol st w.seq0 (record w { last_seq = some st.seq })

  abbrev pub min_50 : ℕ → ℕ
  min_50 left = if ltb left 50 then left else 50

  abbrev pub ended_or_on : Option (Result Arrived) → Act floats Arrived → Act floats Arrived
  ended_or_on (some r) rest = result r
  ended_or_on none rest = rest

  -- The next state, or the end of the pause.
  unfoldable pub await_next : ℕ → Act floats (Option (RobotState Double))
  unfolding require now_s pump_until
  await_next end = do
    require floats
    cur ← gets (λ arm. arm.box.status_seq)
    now ← now_s floats
    pump_until floats (min_50 (end - now)) (λ box. not (box.status_seq == cur))
    require floats
    gets (λ arm. arm.box.state)

  -- A round, with the rounds that follow it.
  unfoldable pub settle_round : ℕ → Watch → (Watch → Act floats Arrived) → Act floats Arrived
  unfolding await_next look_at
  settle_round end w rest = do
    st ← await_next end
    tol ← gets (λ arm. arm.tol)
    ended_or_on (look_at tol st w).0 (rest (look_at tol st w).1)

  -- The loop, with the rounds that are left. Each of them reads the clock.
  unfoldable pub settle_loop : ℕ → ℕ → Watch → Act floats Arrived
  unfolding is_over settle_round
  settle_loop end zero w = throw motion_timeout
  settle_loop end (suc rounds) w = do
    over ← is_over floats end
    if over then throw motion_timeout else settle_round end w (settle_loop end rounds)

  unfoldable pub wait_settled : Option ℕ → Act floats Arrived
  unfolding now_s settle_loop
  wait_settled seq0 = do
    budget ← gets (λ arm. arm.tol.move_timeout)
    start ← now_s floats
    rounds ← gets (λ arm. length arm.later)
    settle_loop (start + budget) rounds
        (record { busy_seen = false; prev_q = none; window = []; last_seq = none; seq0 = seq0 })

  unfoldable pub tcp_reached : (List Double → Bool) → Act floats Bool
  unfolding get_tcp
  tcp_reached is_near =
      catch_all
        (do tcp ← get_tcp floats 600; pure (elim tcp [ none ↦ false | some at ↦ is_near at ]))
        (λ e. pure false)

  -- What `wait` adds to a call: the wait for the end, and the check of the target.
  unfoldable pub settle : (List Double → Bool) → Option ℕ → Act floats Arrived
  unfolding wait_settled tcp_reached
  settle is_near seq0 = do
    info ← wait_settled seq0
    near ← tcp_reached is_near
    pure (record info { settled = near })
