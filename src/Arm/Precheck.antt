-- ===== src/Arm/Precheck.antt =====
-- What the check of joint targets lets pass, and what is written by a joint motion.
use litearm_cpp.Base.{
  ◌≡◌, ◌≢◌, ◌↔◌, refl, arith, List, [], ◌∷◌, true, false, ◌==◌, Bool-cases, inl, inr, ◌⊎◌, All,
  length,
}
use litearm_cpp.Errors.{ok, err, invalid_command}
use litearm_cpp.Floats.{Floats}
use litearm_cpp.Params.{JointParam}
use litearm_cpp.Arm.Move.{all_finite, within_limits, precheck_q}

module _ (floats : Floats) where
  open floats use {Double, less, is_finite}

  -- Each target between its limits.
  pub data Within : List (JointParam Double) → List Double → Type 0 where
    within_nil : Within [] []
    within_cons :
        (p : JointParam Double) (ps : List (JointParam Double)) (q : Double) (qs : List Double)
        → less q p.q_min ≡ false
        → less p.q_max q ≡ false
        → Within ps qs
        → Within (p ∷ ps) (q ∷ qs)

  all_finite-All :
      (q : List Double) → (all_finite floats q ≡ true) ↔ All (λ d. is_finite d ≡ true) q
  unfolding all_finite
  all_finite-All [] = (λ h. tt, λ h. refl)
  all_finite-All (d ∷ ds) =
      let (to, from) = all_finite-All ds in
      (λ h. (ground (arith, h), to (ground (arith, h))), λ h. ground (arith, h.0, from h.1))

  within_limits-Within :
      (ps : List (JointParam Double)) (q : List Double)
      → length ps ≡ length q
      → within_limits floats ps q ≡ true
      → Within ps q
  unfolding within_limits
  within_limits-Within [] [] e h = within_nil
  within_limits-Within [] (d ∷ ds) e h = ground (arith, e)
  within_limits-Within (p ∷ ps) [] e h = ground (arith, e)
  within_limits-Within (p ∷ ps) (d ∷ ds) e h =
      within_cons p ps d ds (ground (arith, h)) (ground (arith, h))
        (within_limits-Within ps ds (ground (arith, e)) (ground (arith, h)))

  Within-within_limits :
      (ps : List (JointParam Double)) (q : List Double)
      → Within ps q
      → within_limits floats ps q ≡ true
  unfolding within_limits
  Within-within_limits ps q within_nil = refl
  Within-within_limits ps q (within_cons p ps' d ds lo hi h) =
      ground (arith, lo, hi, Within-within_limits ps' ds h)

  no_limits : (limits : List (JointParam Double)) → length limits ≡ 0 → limits ≡ []
  no_limits [] e = refl
  no_limits (p ∷ ps) e = ground (arith, e)

  passes :
      (limits : List (JointParam Double)) (q : List Double)
      → precheck_q floats limits q ≡ ok tt
      → All (λ d. is_finite d ≡ true) q
        × ((limits ≡ []) ⊎ (length limits ≢ length q) ⊎ Within limits q)
  unfolding precheck_q
  passes limits q h = elim (Bool-cases (all_finite floats q)) [
    | inl f ↦ (
      (all_finite-All q).0 f,
      elim (Bool-cases (length limits == 0)) [
        | inl z ↦ inl (no_limits limits (ground (arith, z)))
        | inr z ↦ elim (Bool-cases (length limits == length q)) [
          | inl l ↦
              inr (
                inr
                  (within_limits-Within limits q (ground (arith, l)) (ground (arith, f, z, l, h))))
          | inr l ↦ inr (inl λ e. ground (arith, l, e))
        ]
      ],
    )
    | inr f ↦ ground (arith, f, h)
  ]

  lets_pass :
      (limits : List (JointParam Double)) (q : List Double)
      → All (λ d. is_finite d ≡ true) q
      → (limits ≡ []) ⊎ (length limits ≢ length q) ⊎ Within limits q
      → precheck_q floats limits q ≡ ok tt
  unfolding precheck_q
  lets_pass limits q f h =
      let finite = (all_finite-All q).1 f in
      elim h [
        | inl e ↦ ground (arith, finite, e)
        | inr (inl other) ↦ ground (arith, finite, other)
        | inr (inr w) ↦ ground (arith, finite, Within-within_limits limits q w)
      ]

  -- The check passes exactly when every target is finite and, if there are limits for as many joints as
  -- targets, each target lies between the limits of its joint; otherwise it throws InvalidCommandError.
  pub precheck_q_iff :
      (limits : List (JointParam Double)) (q : List Double)
      → ((precheck_q floats limits q ≡ ok tt) ↔ (
          All (λ d. is_finite d ≡ true) q
          × ((limits ≡ []) ⊎ (length limits ≢ length q) ⊎ Within limits q)))
        × ((precheck_q floats limits q ≡ ok tt)
            ⊎ (precheck_q floats limits q ≡ err invalid_command))
  unfolding precheck_q
  precheck_q_iff limits q = (
    (passes limits q, λ h. lets_pass limits q h.0 h.1),
    elim (Bool-cases (all_finite floats q)) [
      | inl f ↦ elim (Bool-cases (length limits == 0)) [
        | inl z ↦ ground (arith, f, z)
        | inr z ↦ elim (Bool-cases (length limits == length q)) [
          | inl l ↦ elim (Bool-cases (within_limits floats limits q)) [
            | inl w ↦ ground (arith, f, z, l, w)
            | inr w ↦ ground (arith, f, z, l, w)
          ]
          | inr l ↦ ground (arith, f, z, l)
        ]
      ]
      | inr f ↦ ground (arith, f)
    ],
  )
