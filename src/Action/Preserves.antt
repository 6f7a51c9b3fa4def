-- ===== src/Action/Preserves.antt =====
-- Predicates on the session that an action keeps, whether it returns or throws, with a rule for each
-- way to build an action.
use litearm_cpp.Base.{◌≡◌, refl, Bool, true, false, Option, none, some, if◌then◌else◌}
use litearm_cpp.Errors.{Failure, Result, ok, err}
use litearm_cpp.Action.{
  Action, pure, throw, gets, modify, result, throw_if, then_do, rescue, ◌>>=◌, catch_all, attempt,
}

pub record Preserves {S R : Type 0} (P : S → Type 0) (m : Action S R) : Type 0 where
  pub holds : (s : S) → P s → P ((m s).1)

module _ {S : Type 0} (P : S → Type 0) where
  pub Preserves-pure : {R : Type 0} (r : R) → Preserves P (pure r)
  unfolding pure
  Preserves-pure r = record { holds = λ s h. h }

  pub Preserves-throw : {R : Type 0} (e : Failure) → Preserves P (throw {R = R} e)
  unfolding throw
  Preserves-throw e = record { holds = λ s h. h }

  pub Preserves-gets : {R : Type 0} (f : S → R) → Preserves P (gets f)
  unfolding gets
  Preserves-gets f = record { holds = λ s h. h }

  pub Preserves-result : {R : Type 0} (r : Result R) → Preserves P (result r)
  unfolding result
  Preserves-result r = record { holds = λ s h. h }

  pub Preserves-throw_if : (c : Bool) (e : Failure) → Preserves P (throw_if c e)
  unfolding throw_if
  Preserves-throw_if c e = record { holds = λ s h. h }

  pub Preserves-modify : (f : S → S) → ((s : S) → P s → P (f s)) → Preserves P (modify f)
  unfolding modify
  Preserves-modify f h = record { holds = h }

  ended :
      {A B : Type 0} (f : A → Action S B) (r : Result A) (s : S)
      → P s
      → ((a : A) → Preserves P (f a))
      → P ((then_do f (r, s)).1)
  ended f (ok a) s h k = (k a).holds s h
  ended f (err e) s h k = h

  pub Preserves-bind :
      {A B : Type 0} (m : Action S A) (f : A → Action S B)
      → Preserves P m
      → ((a : A) → Preserves P (f a))
      → Preserves P (m >>= f)
  unfolding ◌>>=◌
  Preserves-bind m f first rest = record {
    holds = λ s h. ended f ((m s).0) ((m s).1) (first.holds s h) rest;
  }

  handled :
      {A : Type 0} (f : Failure → Action S A) (r : Result A) (s : S)
      → P s
      → ((e : Failure) → Preserves P (f e))
      → P ((rescue f (r, s)).1)
  handled f (ok a) s h k = h
  handled f (err e) s h k = (k e).holds s h

  pub Preserves-catch :
      {A : Type 0} (m : Action S A) (f : Failure → Action S A)
      → Preserves P m
      → ((e : Failure) → Preserves P (f e))
      → Preserves P (catch_all m f)
  unfolding catch_all
  Preserves-catch m f first rest = record {
    holds = λ s h. handled f ((m s).0) ((m s).1) (first.holds s h) rest;
  }

  pub Preserves-attempt : (m : Action S (Unit {0})) → Preserves P m → Preserves P (attempt m)
  unfolding attempt
  Preserves-attempt m first = record { holds = first.holds }

  pub Preserves-if :
      {A : Type 0} (c : Bool) (m k : Action S A)
      → Preserves P m
      → Preserves P k
      → Preserves P (if c then m else k)
  Preserves-if true m k first second = first
  Preserves-if false m k first second = second

  pub Preserves-option :
      {A B : Type 0} (o : Option B) (k : Action S A) (f : B → Action S A)
      → Preserves P k
      → ((b : B) → Preserves P (f b))
      → Preserves P (elim o [ none ↦ k | some b ↦ f b ])
  Preserves-option none k f first second = first
  Preserves-option (some b) k f first second = second b

  went_on_alike :
      {A B : Type 0} (f g : A → Action S B) (r : Result A) (s : S)
      → P s
      → ((a : A) (s : S) → P s → f a s ≡ g a s)
      → then_do f (r, s) ≡ then_do g (r, s)
  went_on_alike f g (ok a) s h same = same a s h
  went_on_alike f g (err e) s h same = refl

  -- What follows an action that preserves the predicate needs to agree only where it holds.
  pub bind_same :
      {A B : Type 0} (m : Action S A) (f g : A → Action S B) (s : S)
      → Preserves P m
      → P s
      → ((a : A) (s : S) → P s → f a s ≡ g a s)
      → (m >>= f) s ≡ (m >>= g) s
  unfolding ◌>>=◌
  bind_same m f g s kept h same = went_on_alike f g ((m s).0) ((m s).1) (kept.holds s h) same

pub ruleset preserves_rules = (
  Preserves-pure, Preserves-throw, Preserves-gets, Preserves-result, Preserves-throw_if,
  Preserves-attempt, Preserves-if, Preserves-bind, Preserves-catch,
)
