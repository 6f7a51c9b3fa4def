-- ===== src/Arm/Near.antt =====
-- What the tests of `arrive` say of a state: every joint near its target and slow.
use litearm_cpp.Base.{◌≡◌, refl, arith, List, map, [], ◌∷◌, true, false, All, length}
use litearm_cpp.Floats.{Floats}
use litearm_cpp.State.{RobotState, positions}
use litearm_cpp.Arm.Move.{all_near, all_slow}

module _ (floats : Floats) where
  open floats use {Double, at_most, distance, magnitude}

  -- No position whose distance to its target compares as the tolerance or more; there are as many of
  -- each. A distance that is not a number does not.
  pub data Near (tol : Double) : List Double → List Double → Type 0 where
    near_nil : Near tol [] []
    near_cons :
        (q t : Double) (qs ts : List Double)
        → at_most tol (distance q t) ≡ false
        → Near tol qs ts
        → Near tol (q ∷ qs) (t ∷ ts)

  abbrev pub IsSlow : Double → Double → Type 0
  IsSlow tol d = at_most tol (magnitude d) ≡ false

  pub all_near-Near :
      (tol : Double) (qs ts : List Double)
      → length qs ≡ length ts
      → all_near floats tol qs ts ≡ true
      → Near tol qs ts
  unfolding all_near
  all_near-Near tol [] [] e h = near_nil
  all_near-Near tol [] (t ∷ ts) e h = ground (arith, e)
  all_near-Near tol (q ∷ qs) [] e h = ground (arith, e)
  all_near-Near tol (q ∷ qs) (t ∷ ts) e h =
      near_cons q t qs ts (ground (arith, h))
        (all_near-Near tol qs ts (ground (arith, e)) (ground (arith, h)))

  pub all_slow-All :
      (tol : Double) (ds : List Double) → all_slow floats tol ds ≡ true → All (IsSlow tol) ds
  unfolding all_slow
  all_slow-All tol [] h = tt
  all_slow-All tol (d ∷ ds) h = (ground (arith, h), all_slow-All tol ds (ground (arith, h)))

  length-map : {A : Type 0} (f : A → Double) (xs : List A) → length (map f xs) ≡ length xs
  length-map f [] = refl
  length-map f (x ∷ xs) = rw (length-map f xs) refl

  pub length-positions : (st : RobotState Double) → length (positions st) ≡ length st.joints
  unfolding positions
  length-positions st = length-map (λ j. j.q) st.joints
