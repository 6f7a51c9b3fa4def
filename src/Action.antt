-- ===== src/Action.antt =====
-- What a member function of a session does: it changes the session and returns or throws. What was
-- changed before a throw stays changed.
pub mod Preserves
pub mod Yields
use litearm_cpp.Base.{Bool, Option, none, some, if◌then◌else◌}
use litearm_cpp.Errors.{Failure, Result, ok, err}

abbrev pub Action : Type 0 → Type 0 → Type 0
Action S R = S → Result R × S

module _ {S : Type 0} where
  unfoldable pub pure : {R : Type 0} → R → Action S R
  pure r s = (ok r, s)

  unfoldable pub throw : {R : Type 0} → Failure → Action S R
  throw e s = (err e, s)

  unfoldable pub gets : {R : Type 0} → (S → R) → Action S R
  gets f s = (ok (f s), s)

  unfoldable pub modify : (S → S) → Action S (Unit {0})
  modify f s = (ok tt, f s)

  unfoldable pub result : {R : Type 0} → Result R → Action S R
  result r s = (r, s)

  -- `if (c) throw e;`
  unfoldable pub throw_if : Bool → Failure → Action S (Unit {0})
  throw_if c e s = (if c then err e else ok tt, s)

abbrev pub then_do : {S A B : Type 0} → (A → Action S B) → Result A × S → Result B × S
then_do f (ok a, s) = f a s
then_do f (err e, s) = (err e, s)

infixl 5 ◌>>=◌ ◌>>◌
unfoldable pub ◌>>=◌ : {S A B : Type 0} → Action S A → (A → Action S B) → Action S B
◌>>=◌ m f s = then_do f (m s)

abbrev pub ◌>>◌ : {S A B : Type 0} → Action S A → Action S B → Action S B
m >> k = m >>= λ _. k

abbrev pub rescue : {S A : Type 0} → (Failure → Action S A) → Result A × S → Result A × S
rescue handler (ok a, s) = (ok a, s)
rescue handler (err e, s) = handler e s

-- `try { m } catch (e) { handler(e) }`
unfoldable pub catch_all : {S A : Type 0} → Action S A → (Failure → Action S A) → Action S A
catch_all m handler s = rescue handler (m s)

-- What is thrown, as a value; nothing is thrown on.
unfoldable pub attempt : {S : Type 0} → Action S (Unit {0}) → Action S (Option Failure)
attempt m s = let (r, t) = m s in (ok (elim r [ err e ↦ some e | ok u ↦ none ]), t)
