-- ===== src/Action/Yields.antt =====
-- What an action leads to: from a session with `P`, one with `Q` where it returns, and one with `E`
-- where it throws.
use litearm_cpp.Base.{Bool, true, false, if◌then◌else◌}
use litearm_cpp.Errors.{Failure, Result, ok, err}
use litearm_cpp.Action.{Action, throw, modify, then_do, rescue, ◌>>=◌, catch_all}
use litearm_cpp.Action.Preserves.{Preserves}

abbrev pub Ends : {S R : Type 0} → (S → Type 0) → (S → Type 0) → Result R → S → Type 0
Ends Q E (ok r) s = Q s
Ends Q E (err e) s = E s

pub record Yields {S R : Type 0} (P Q E : S → Type 0) (m : Action S R) : Type 0 where
  pub leads : (s : S) → P s → Ends Q E ((m s).0) ((m s).1)

-- The helpers split on how the action ended; the predicates are explicit.
module _ {S : Type 0} (Q E : S → Type 0) where
  ends_either : {R : Type 0} (r : Result R) (s : S) → Q s → (Q s → E s) → Ends Q E r s
  ends_either (ok r) s h weaken = h
  ends_either (err e) s h weaken = weaken h

  ends_weak :
      (Q' E' : S → Type 0) {A : Type 0} (r : Result A) (s : S)
      → Ends Q E r s
      → ((s : S) → Q s → Q' s)
      → ((s : S) → E s → E' s)
      → Ends Q' E' r s
  ends_weak Q' E' (ok a) s h q e = q s h
  ends_weak Q' E' (err f) s h q e = e s h

  bound :
      (R : S → Type 0) {A B : Type 0} (f : A → Action S B) (r : Result A) (s : S)
      → Ends Q E r s
      → ((a : A) → Yields Q R E (f a))
      → let out = then_do f (r, s) in Ends R E (out.0) (out.1)
  bound R f (ok a) s h rest = (rest a).leads s h
  bound R f (err e) s h rest = h

  handled :
      (R : S → Type 0) {A : Type 0} (f : Failure → Action S A) (r : Result A) (s : S)
      → Ends R Q r s
      → ((e : Failure) → Yields Q R E (f e))
      → let out = rescue f (r, s) in Ends R E (out.0) (out.1)
  handled R f (ok a) s h rest = h
  handled R f (err e) s h rest = (rest e).leads s h

kept : {S R : Type 0} (P : S → Type 0) (r : Result R) (s : S) → Ends P P r s → P s
kept P (ok a) s h = h
kept P (err e) s h = h

module _ {S : Type 0} {P Q E : S → Type 0} where
  -- What is preserved stays, also where the action throws.
  pub Yields-Preserves :
      {R : Type 0} (m : Action S R)
      → ((s : S) → P s → Q s)
      → ((s : S) → Q s → E s)
      → Preserves Q m
      → Yields P Q E m
  Yields-Preserves m into out kept = record {
    leads = λ s h. ends_either Q E ((m s).0) ((m s).1) (kept.holds s (into s h)) (out ((m s).1));
  }

  pub Yields-throw :
      {R : Type 0} (e : Failure) → ((s : S) → P s → E s) → Yields P Q E (throw {R = R} e)
  unfolding throw
  Yields-throw e out = record { leads = out }

  pub Yields-modify : (f : S → S) → ((s : S) → P s → Q (f s)) → Yields P Q E (modify f)
  unfolding modify
  Yields-modify f h = record { leads = h }

  pub Yields-if :
      {A : Type 0} (c : Bool) (m k : Action S A)
      → Yields P Q E m
      → Yields P Q E k
      → Yields P Q E (if c then m else k)
  Yields-if true m k first second = first
  Yields-if false m k first second = second

  pub Yields-weaken :
      {Q' E' : S → Type 0} {A : Type 0} (m : Action S A)
      → Yields P Q E m
      → ((s : S) → Q s → Q' s)
      → ((s : S) → E s → E' s)
      → Yields P Q' E' m
  Yields-weaken {Q' = Q'} {E' = E'} m h q e = record {
    leads = λ s p. ends_weak Q E Q' E' ((m s).0) ((m s).1) (h.leads s p) q e;
  }

module _ {S : Type 0} {P Q R E : S → Type 0} where
  pub Yields-bind :
      {A B : Type 0} (m : Action S A) (f : A → Action S B)
      → Yields P Q E m
      → ((a : A) → Yields Q R E (f a))
      → Yields P R E (m >>= f)
  unfolding ◌>>=◌
  Yields-bind m f first rest = record {
    leads = λ s h. bound Q E R f ((m s).0) ((m s).1) (first.leads s h) rest;
  }

  pub Yields-catch :
      {A : Type 0} (m : Action S A) (f : Failure → Action S A)
      → Yields P R Q m
      → ((e : Failure) → Yields Q R E (f e))
      → Yields P R E (catch_all m f)
  unfolding catch_all
  Yields-catch m f first rest = record {
    leads = λ s h. handled Q E R f ((m s).0) ((m s).1) (first.leads s h) rest;
  }

module _ {S : Type 0} {P : S → Type 0} where
  pub Preserves-Yields : {R : Type 0} (m : Action S R) → Yields P P P m → Preserves P m
  Preserves-Yields m h = record { holds = λ s p. kept P ((m s).0) ((m s).1) (h.leads s p) }
