-- ===== src/Arm/Refused.antt =====
-- Entry points that are refused before they touch anything, and the start of zero gravity on a thread
-- that was not joined.
use litearm_cpp.Base.{
  ℕ, ◌≡◌, refl, sym, subst, arith, List, [], ◌∷◌, Bool, true, false, not, ◌&&◌, ◌||◌, if◌then◌else◌,
  Bool-cases, inl, inr,
}
use litearm_cpp.Errors.{Failure, Result, ok, err, invalid_command, unsupported_by_firmware}
use litearm_cpp.Action.{gets, throw_if, ◌>>=◌}
use litearm_cpp.Action.Preserves.{
  Preserves, Preserves-gets, Preserves-pure, Preserves-if, Preserves-throw_if,
}
use litearm_cpp.Action.Yields.{Ends, Yields, Yields-Preserves, Yields-bind, Yields-modify}
use litearm_cpp.Floats.{Floats}
use litearm_cpp.Arm.{Arm, Act}
use litearm_cpp.Arm.Guards.{admitted, require_lem}
use litearm_cpp.Arm.Hover.{zero_g_start, spawn}
use litearm_cpp.Arm.Cartesian.{
  require_cart_support, reject_in_zero_g, enter_cart, CartMove, move_l, move_c, move_path,
}
use litearm_cpp.Arm.Inert.{Inert, inert-Stable}
use litearm_cpp.Arm.Calls.Rules.{cmd_expect_ack-Preserves, reject_if_cart_in_flight-Preserves}

module _ (floats : Floats) where
  open floats use {Double}

  abbrev refusal : Arm floats → Failure
  refusal arm = if arm.cart_supported then invalid_command else unsupported_by_firmware 0x3a 0

  enter_cart-refused :
      (arm : Arm floats)
      → admitted floats arm ≡ ok tt
      → (arm.cart_supported && not arm.zg_active) ≡ false
      → enter_cart floats arm ≡ (err (refusal arm), arm)
  unfolding enter_cart require_cart_support reject_in_zero_g gets throw_if ◌>>=◌
  enter_cart-refused arm a h = elim (Bool-cases arm.cart_supported) [
    | inl c ↦
        let z : arm.zg_active ≡ true = ground (arith, c, h) in
        simp (require_lem floats arm, a, c, z)
    | inr c ↦ simp (require_lem floats arm, a, c)
  ]

  after_entry :
      {R : Type 0} (f : Unit {0} → Act floats R) (arm : Arm floats)
      → admitted floats arm ≡ ok tt
      → (arm.cart_supported && not arm.zg_active) ≡ false
      → (enter_cart floats >>= f) arm ≡ (err (refusal arm), arm)
  unfolding ◌>>=◌
  after_entry f arm a h = rw (enter_cart-refused arm a h) refl

  -- In an open session whose firmware does not plan Cartesian motions, or while zero gravity is active,
  -- the three entry points throw, the one error or the other, and change nothing: no request is
  -- registered and no frame is written.
  pub cart_refused :
      (arm : Arm floats) (pose via goal : Result (List Double))
      (poses : List (Result (List Double))) (is_near : List Double → List Double → Bool)
      (speed : Double) (awaited : Bool)
      → admitted floats arm ≡ ok tt
      → (arm.cart_supported && not arm.zg_active) ≡ false
      → let refused : Result (CartMove floats) × Arm floats = (
        err (if arm.cart_supported then invalid_command else unsupported_by_firmware 0x3a 0),
        arm,
      ) in
        (move_l floats is_near pose speed awaited arm ≡ refused)
        × (move_c floats is_near pose via goal speed awaited arm ≡ refused)
        × (move_path floats is_near poses speed awaited arm ≡ refused)
  unfolding move_l move_c move_path
  cart_refused arm pose via goal poses is_near speed awaited a h =
      (after_entry _ arm a h, after_entry _ arm a h, after_entry _ arm a h)

  -- A value that the predicate determines.
  known_gets :
      {A R : Type 0} (P Q E : Arm floats → Type 0) (f : Arm floats → A) (a : A)
      (k : A → Act floats R)
      → ((arm : Arm floats) → P arm → f arm ≡ a)
      → Yields P Q E (k a)
      → Yields P Q E (gets f >>= k)
  unfolding gets ◌>>=◌
  known_gets P Q E f a k known rest = record {
    leads = λ arm h.
        subst (λ (v : _). Ends Q E ((k v arm).0) ((k v arm).1)) (sym (known arm h))
          (rest.leads arm h);
  }

  module _ (joinable ended : Bool) where
    abbrev IsIdle : Arm floats → Type 0
    IsIdle arm = (arm.zg_active ≡ false) × (arm.zg_thread ≡ joinable) × (arm.terminated ≡ ended)

    abbrev HasEnded : Arm floats → Type 0
    HasEnded arm = arm.terminated ≡ (ended || joinable)

    abbrev Thrown : Arm floats → Type 0
    Thrown arm = arm.terminated ≡ ended

    idle-Inert : Inert floats IsIdle
    idle-Inert arm box later sent writes h = h

    spawned : (arm : Arm floats) → IsIdle arm → HasEnded (spawn floats arm)
    spawned arm (z, t, e) = rw (t, e) refl

    stays : {R : Type 0} (m : Act floats R) → Preserves IsIdle m → Yields IsIdle IsIdle Thrown m
    stays m h = Yields-Preserves m (λ arm u. u) (λ arm (z, t, e). e) h

    zero_g_start-Yields : (period : ℕ) → Yields IsIdle HasEnded Thrown (zero_g_start floats period)
    unfolding zero_g_start
    zero_g_start-Yields period =
        let stable = inert-Stable floats IsIdle idle-Inert in
        Yields-bind _ _ (stays _ (Preserves-throw_if IsIdle _ _)) λ u.
          Yields-bind _ _ (stays _ (Preserves-gets IsIdle _)) λ idle.
            Yields-bind _ _
              (stays _ (
                Preserves-if IsIdle idle _ _
                  (reject_if_cart_in_flight-Preserves floats IsIdle stable)
                  (Preserves-pure IsIdle tt)))
              λ u.
                known_gets IsIdle HasEnded Thrown (λ arm. arm.zg_active) false _ (λ arm h. h.0)
                  (Yields-bind _ _
                    (stays _ (cmd_expect_ack-Preserves floats IsIdle stable 0x06 (1 ∷ []) 1200))
                    λ u. Yields-modify _ spawned)

  read_end :
      (Q E : Arm floats → Type 0) (r : Result (Unit {0})) (arm : Arm floats)
      → r ≡ ok tt
      → Ends Q E r arm
      → Q arm
  read_end Q E (ok u) arm e h = h
  read_end Q E (err f) arm e h = cc

  -- When zero gravity starts anew, it ends the program exactly if the thread of before is still
  -- joinable: `zg_thread_` is assigned without a join, which a lost keep-alive leaves to `zero_g_stop`.
  pub zero_g_start-terminated :
      (period : ℕ) (arm : Arm floats)
      → arm.zg_active ≡ false
      → (zero_g_start floats period arm).0 ≡ ok tt
      → (zero_g_start floats period arm).1.terminated ≡ (arm.terminated || arm.zg_thread)
  zero_g_start-terminated period arm z done =
      read_end (HasEnded arm.zg_thread arm.terminated) (Thrown arm.zg_thread arm.terminated)
        ((zero_g_start floats period arm).0) ((zero_g_start floats period arm).1) done
        ((zero_g_start-Yields arm.zg_thread arm.terminated period).leads arm (z, refl, refl))
