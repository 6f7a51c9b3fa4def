-- ===== src/Arm/Attempts.antt =====
-- How often `enable` asks.
use litearm_cpp.Base.{
  ℕ, zero, suc, ◌+◌, ◌≤◌, ◌≡◌, refl, sym, ap, ◌∙◌, arith, List, [], ◌∷◌, ◌++◌, append_assoc,
  append-nil, some, true,
}
use litearm_cpp.Errors.{Failure, Result, ok, err, lite_arm, invalid_command}
use litearm_cpp.Action.{throw}
use litearm_cpp.Action.Preserves.{
  Preserves, Preserves-bind, Preserves-pure, Preserves-gets, Preserves-throw_if,
}
use litearm_cpp.Action.Yields.{
  Ends, Yields, Yields-Preserves, Yields-bind, Yields-catch, Yields-throw, Yields-if, Yields-weaken,
}
use litearm_cpp.Floats.{Floats}
use litearm_cpp.Arm.{Arm, Act, SentFrame, require, write_frame, raw_write, write_query, write_cmd}
use litearm_cpp.Arm.Move.{replicate}
use litearm_cpp.Arm.Safety.{next_attempt, ack_enable, enable_loop, enable, is_retried}
use litearm_cpp.Arm.Inert.{
  drain-Preserves, reject_if_in_dfu-Preserves, reject_if_wrong_process-Preserves,
  void_plans-Preserves,
}
use litearm_cpp.Arm.Stable.{Linked, require-Preserves, answer-Preserves}

abbrev pub enable_frame : SentFrame
enable_frame = record { cmd = 0x10; payload = [] }

module _ (floats : Floats) (frames : List SentFrame) where
  -- At most `n` frames that enable the arm follow the frames of before.
  abbrev pub IsWithin : ℕ → Arm floats → Type 0
  IsWithin n arm = (k : ℕ) × (k ≤ n) × (arm.sent ≡ frames ++ replicate k enable_frame)

  replicate_more : (k : ℕ) (f : SentFrame) → replicate k f ++ f ∷ [] ≡ replicate (suc k) f
  unfolding replicate
  replicate_more zero f = refl
  replicate_more (suc k) f = ap (λ (fs : List SentFrame). f ∷ fs) (replicate_more k f)

  weaker : (n m : ℕ) → n ≤ m → (arm : Arm floats) → IsWithin n arm → IsWithin m arm
  weaker n m h arm (k, le, s) = (k, omega (arith, le, h), s)

  IsWithin-linked : (n : ℕ) → Linked floats (IsWithin n)
  IsWithin-linked n arm box later h = h

  ends_in :
      (n : ℕ) (r : Result (Unit {0})) (arm : Arm floats)
      → IsWithin (suc n) arm
      → Ends (IsWithin (suc n)) (IsWithin (suc n)) r arm
  ends_in n (ok u) arm h = h
  ends_in n (err e) arm h = h

  write_frame-Within :
      (n : ℕ)
      → Yields (IsWithin n) (IsWithin (suc n)) (IsWithin (suc n)) (write_frame floats 0x10 [])
  unfolding write_frame
  write_frame-Within n = record {
    leads = λ arm (k, le, s).
        ends_in n ((write_frame floats 0x10 [] arm).0) ((write_frame floats 0x10 [] arm).1) (
          suc k,
          omega (arith, le),
          ap (λ (fs : List SentFrame). fs ++ enable_frame ∷ []) s
              ∙ append_assoc frames (replicate k enable_frame) (enable_frame ∷ [])
              ∙ ap (λ (fs : List SentFrame). frames ++ fs) (replicate_more k enable_frame),
        );
  }

  early :
      {R : Type 0} (n : ℕ) (m : Act floats R)
      → Preserves (IsWithin n) m
      → Yields (IsWithin n) (IsWithin n) (IsWithin (suc n)) m
  early n m h = Yields-Preserves m (λ arm u. u) (weaker n (suc n) (omega arith)) h

  write_cmd-Within :
      (n : ℕ)
      → Yields (IsWithin n) (IsWithin (suc n)) (IsWithin (suc n)) (write_cmd floats 0x10 [] true)
  unfolding write_cmd write_query raw_write
  write_cmd-Within n =
      let P = IsWithin n in
      let linked = IsWithin-linked n in
      Yields-bind _ _ (early n _ (Preserves-gets P _)) λ g.
        Yields-bind _ _ (early n _ (Preserves-throw_if P g invalid_command)) λ u.
          Yields-bind _ _ (early n _ (require-Preserves floats P linked)) λ u.
            Yields-bind _ _ (early n _ (reject_if_in_dfu-Preserves floats P linked)) λ u.
              Yields-bind _ _ (early n _ (reject_if_wrong_process-Preserves floats P linked)) λ u.
                Yields-bind _ _ (early n _ (void_plans-Preserves floats P linked 0x10)) λ u.
                  Yields-bind _ _ (early n _ (drain-Preserves floats P linked 0x10))
                    λ u. write_frame-Within n

  ack_enable-Within : (n : ℕ) → Preserves (IsWithin n) (ack_enable floats)
  ack_enable-Within n =
      Preserves-bind (IsWithin n) _ _
        (answer-Preserves floats (IsWithin n) (IsWithin-linked n) 0x45 1000 (some 0x10))
        λ payload. Preserves-pure (IsWithin n) tt

  next_attempt-Within :
      (left n m : ℕ) (rest : Act floats (Unit {0})) (e : Failure)
      → n ≤ m
      → Yields (IsWithin n) (IsWithin m) (IsWithin m) rest
      → Yields (IsWithin n) (IsWithin m) (IsWithin m) (next_attempt floats left rest e)
  next_attempt-Within zero n m rest e h k = Yields-throw e (weaker n m h)
  next_attempt-Within (suc left) n m rest e h k =
      Yields-if (is_retried e) rest (throw e) k (Yields-throw e (weaker n m h))

  enable_loop-Within :
      (attempts n m : ℕ)
      → n + attempts ≡ m
      → Yields (IsWithin n) (IsWithin m) (IsWithin m) (enable_loop floats attempts)
  unfolding enable_loop
  enable_loop-Within zero n m e = Yields-throw lite_arm (weaker n m (omega (arith, e)))
  enable_loop-Within (suc left) n m e =
      let asked =
        Yields-weaken _ (write_cmd-Within n) (λ arm u. u) (weaker (suc n) m (omega (arith, e))) in
      let rest = enable_loop-Within left (suc n) m (omega (arith, e)) in
      Yields-bind _ _ asked λ u.
        Yields-catch _ _
          (Yields-weaken _
            (Yields-Preserves (ack_enable floats) (λ arm u. u) (λ arm u. u)
              (ack_enable-Within (suc n)))
            (weaker (suc n) m (omega (arith, e))) (λ arm u. u))
          λ f.
            next_attempt-Within left (suc n) m (enable_loop floats left) f (omega (arith, e)) rest

module _ (floats : Floats) where
  from_ends :
      (n : ℕ) (frames : List SentFrame) (r : Result (Unit {0})) (arm : Arm floats)
      → Ends (IsWithin floats frames n) (IsWithin floats frames n) r arm
      → IsWithin floats frames n arm
  from_ends n frames (ok u) arm h = h
  from_ends n frames (err e) arm h = h

  -- `enable` writes nothing but frames that enable the arm, and at most as many as it has attempts,
  -- however the firmware answers.
  pub enable_bounded :
      (attempts : ℕ) (arm : Arm floats)
      → IsWithin floats arm.sent attempts ((enable floats attempts arm).1)
  unfolding enable
  enable_bounded attempts arm =
      let P = IsWithin floats arm.sent 0 in
      let begun =
        Yields-Preserves (require floats) (λ arm u. u)
          (weaker floats arm.sent 0 attempts (omega arith))
          (require-Preserves floats P (IsWithin-linked floats arm.sent 0)) in
      from_ends attempts arm.sent ((enable floats attempts arm).0) ((enable floats attempts arm).1)
        ((Yields-bind _ _ begun
            λ u. enable_loop-Within floats arm.sent attempts 0 attempts (omega arith)).leads
          arm (0, omega arith, unfold replicate in sym (append-nil arm.sent)))
