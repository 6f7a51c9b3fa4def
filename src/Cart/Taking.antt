-- ===== src/Cart/Taking.antt =====
-- What the locked parts of `on_reply`, `clear_pending` and `claim_resolved` keep.
use litearm_cpp.Base.{
  ℕ, suc, ◌+◌, ◌-◌, ◌<◌, ◌≡◌, refl, ap, subst, sym, inl, inr, List, [], ◌∷◌, ◌++◌, map, Option,
  none, some, ltb, if-false, if-true, ◌∙◌, arith, Bool, true, false, Bool-cases, if◌then◌else◌,
  length, length-append, length-drop, All, All-append, All-drop,
}
use litearm_cpp.Ack.{u64}
use litearm_cpp.Cart.{
  CartPending, excess, absorbance, spend, lock_reply, lock_front, lock_queue, take_front, Locked,
  absorbed, claim_first,
}
use litearm_cpp.Cart.Pairing.{IsAbove}
use litearm_cpp.Cart.Absorb.{absorbance-same}
use litearm_cpp.Cart.Accounts.{IsAbove-weaken, above-apart}
use litearm_cpp.Cart.Shared.{
  Due, resolves, fails, token_of, due_of, hand, IsDue, IsClosing, IsTaken, IsValid,
}
use litearm_cpp.Cart.Steps.{credits-IsValid, absorbance-IsValid}

pub results_due :
    (p : CartPending) (due more : List Due) (ids : List ℕ)
    → ((i : ℕ) → IsDue i due → IsDue i more)
    → All (IsClosing p due) ids
    → All (IsClosing p more) ids
results_due p due more [] into all = tt
results_due p due more (i ∷ ids) into ((known, inl done), all) =
    ((known, inl done), results_due p due more ids into all)
results_due p due more (i ∷ ids) into ((known, inr is_due), all) =
    ((known, inr (into i is_due)), results_due p due more ids into all)

taken_rest :
    (id : ℕ) (ids : List ℕ) (p : CartPending) (due : List Due)
    → p.q ≡ id ∷ ids
    → All (IsTaken p) due
    → All (λ d. (token_of d < p.next_token) × All (λ i. ¬ (i ≡ token_of d)) ids) due
taken_rest id ids p [] queue all = tt
taken_rest id ids p (d ∷ due) queue ((known, apart), all) =
    let (first, others) = subst (All λ i. ¬ (i ≡ token_of d)) queue apart in
    ((known, others), taken_rest id ids p due queue all)

-- The first request is taken: it is due, and no longer in the queue.
take_front-IsValid :
    (payload : List ℕ) (id : ℕ) (ids : List ℕ) (p : CartPending) (due : List Due) (handed : List ℕ)
    → p.q ≡ id ∷ ids
    → IsValid p due handed
    → IsValid (take_front id ids p) (resolves id payload ∷ due) handed
take_front-IsValid payload id ids p due handed queue v =
    let waiting = p.unclaimed ++ id ∷ [] in
    let (here, known) = subst (All λ i. i < p.next_token) queue v.known in
    let (first, above) = subst (IsAbove 0) queue v.ordered in
    let (open_here, others) = subst (All λ i. (p.tokens i).done ≡ false) queue v.waiting in
    let size = length-append p.unclaimed (id ∷ []) in
    record {
      known = known;
      ordered = IsAbove-weaken (id + 1) 0 ids (omega arith) above;
      waiting = others;
      taken = (
        (here, above-apart id (id + 1) ids (omega arith) above),
        taken_rest id ids p due queue v.taken,
      );
      results = All-drop (IsClosing p (resolves id payload ∷ due)) (excess waiting) waiting (
          All-append (IsClosing p (resolves id payload ∷ due)) p.unclaimed (id ∷ [])
            (results_due p due (resolves id payload ∷ due) p.unclaimed (λ i h. inr h) v.results)
            ((here, inr (inl refl)), tt));
      closed = v.closed;
      capped = omega (arith, length-drop (excess waiting) waiting);
    }

extra-IsValid :
    (extra : ℕ) (p : CartPending) (due : List Due) (handed : List ℕ)
    → IsValid p due handed
    → IsValid (record p { extra_replies = extra }) due handed
extra-IsValid extra p due handed v = record {
  known = v.known;
  ordered = v.ordered;
  waiting = v.waiting;
  taken = v.taken;
  results = v.results;
  closed = v.closed;
  capped = v.capped;
}

-- What is valid after the locked part of a reply.
abbrev pub IsLocked : List ℕ → List Due → List ℕ → CartPending × Locked → Type 0
IsLocked payload due handed out = IsValid out.0 (due_of payload out.1 due) handed

module _ (payload : List ℕ) (due : List Due) (handed : List ℕ) where
  lock_front-IsValid :
      (q : List ℕ) (p : CartPending)
      → p.q ≡ q
      → IsValid p due handed
      → IsLocked payload due handed (lock_front q p)
  lock_front-IsValid [] p queue v = extra-IsValid (u64 (p.extra_replies + 1)) p due handed v
  lock_front-IsValid (id ∷ ids) p queue v = take_front-IsValid payload id ids p due handed queue v

  either_locked :
      (b : Bool) (x y : CartPending × Locked)
      → IsLocked payload due handed x
      → IsLocked payload due handed y
      → IsLocked payload due handed (if b then x else y)
  either_locked true x y hx hy = hx
  either_locked false x y hx hy = hy

  pub lock_reply-IsValid :
      (now : ℕ) (p : CartPending)
      → IsValid p due handed
      → IsLocked payload due handed (lock_reply now p)
  unfolding lock_reply
  lock_reply-IsValid now p v =
      let fresh = absorbance now p in
      let valid = absorbance-IsValid due handed now p v in
      either_locked (ltb 0 fresh.absorb) (spend fresh, absorbed) (lock_front fresh.q fresh)
        (credits-IsValid due handed fresh (fresh.absorb - 1) fresh.absorb_deadline
          (u64 (fresh.absorbed_replies + 1)) valid)
        (lock_front-IsValid fresh.q fresh refl valid)

-- Only a token that is closed is handed out.
pub claim_first-IsValid :
    (ids : List ℕ) (p : CartPending) (due : List Due) (handed : List ℕ)
    → p.unclaimed ≡ ids
    → IsValid p due handed
    → let out = claim_first ids p in IsValid out.0 due (hand out.1 handed)
claim_first-IsValid [] p due handed waiting v = v
claim_first-IsValid (id ∷ ids) p due handed waiting v =
    let ((here, state), rest) = subst (All (IsClosing p due)) waiting v.results in
    let size : length p.unclaimed ≡ suc (length ids) = ap length waiting in
    elim (Bool-cases (p.tokens id).done) [
      | inl e ↦
          subst (λ (c : CartPending × Option ℕ). IsValid c.0 due (hand c.1 handed))
            (sym (if-true (p.tokens id).done (record p { unclaimed = ids }, some id) (p, none) e))
            (record {
              known = v.known;
              ordered = v.ordered;
              waiting = v.waiting;
              taken = v.taken;
              results = rest;
              closed = ((here, e), v.closed);
              capped = omega (arith, size, v.capped);
            })
      | inr e ↦
          subst (λ (c : CartPending × Option ℕ). IsValid c.0 due (hand c.1 handed))
            (sym (if-false (p.tokens id).done (record p { unclaimed = ids }, some id) (p, none) e))
            v
    ]

pub IsDue-right : (i : ℕ) (due more : List Due) → IsDue i more → IsDue i (due ++ more)
IsDue-right i [] more h = h
IsDue-right i (d ∷ due) more h = inr (IsDue-right i due more h)

pub IsDue-left : (i : ℕ) (due more : List Due) → IsDue i due → IsDue i (due ++ more)
IsDue-left i [] more h = elim h [ ]
IsDue-left i (d ∷ due) more (inl h) = inl h
IsDue-left i (d ∷ due) more (inr h) = inr (IsDue-left i due more h)

taken_all :
    (ids : List ℕ) (p : CartPending) (due : List Due)
    → All (λ i. i < p.next_token) ids
    → All (IsTaken p) due
    → All (λ d. (token_of d < p.next_token) × Unit {0}) (map fails ids ++ due)
taken_all [] p [] known all = tt
taken_all [] p (d ∷ due) known ((less, apart), all) = ((less, tt), taken_all [] p due tt all)
taken_all (id ∷ ids) p due (less, known) all = ((less, tt), taken_all ids p due known all)

pub lock_queue-IsValid :
    (q : List ℕ) (now : ℕ) (p : CartPending) (due : List Due) (handed : List ℕ)
    → p.q ≡ q
    → IsValid p due handed
    → IsValid (lock_queue q now p) (map fails q ++ due) handed
lock_queue-IsValid [] now p due handed queue v = v
lock_queue-IsValid (id ∷ ids) now p due handed queue v =
    let fresh = absorbance now p in
    let valid = absorbance-IsValid due handed now p v in
    let known : All (λ i. i < fresh.next_token) (id ∷ ids) =
      subst (All λ i. i < fresh.next_token)
        (ap (λ (c : CartPending). c.q) (absorbance-same now p) ∙ queue) valid.known in
    record {
      known = tt;
      ordered = tt;
      waiting = tt;
      taken = taken_all (id ∷ ids) fresh due known valid.taken;
      results =
          results_due fresh due (map fails (id ∷ ids) ++ due) fresh.unclaimed
            (λ i h. IsDue-right i (map fails (id ∷ ids)) due h) valid.results;
      closed = valid.closed;
      capped = valid.capped;
    }
