-- ===== src/Cart/Steps.antt =====
-- The parts of calls that neither bring a reply nor clear keep the invariant of the collector.
use litearm_cpp.Base.{
  ℕ, ◌+◌, ◌<◌, ◌≡◌, ap, ◌∙◌, inl, inr, List, [], ◌∷◌, ◌++◌, ◌&&◌, ltb, if-false, if-true, arith,
  Bool, true, false, Bool-cases, ◌==◌, if◌then◌else◌, All, All-append, not, ◌⊎◌,
}
use litearm_cpp.Cart.{
  CartToken, new_token, CartPending, at_token, absorbance, register_token, drop_and_absorb,
  unclaim_locked, unclaim, erase,
}
use litearm_cpp.Cart.Accounts.{
  IsAbove-snoc, All-erase, IsAbove-erase, length-erase, open_elsewhere, below-apart,
}
use litearm_cpp.Cart.Shared.{Due, token_of, IsDue, IsKnown, IsClosing, IsTaken, IsValid}

-- A closed token stays closed when a token is closed.
pub closed_still :
    (n : ℕ) (f : CartToken → CartToken) (p : CartPending) (ids : List ℕ)
    → ((t : CartToken) → (f t).done ≡ true)
    → All (IsKnown p) ids
    → All (λ i. (i < p.next_token) × ((at_token n f p.tokens i).done ≡ true)) ids
closed_still n f p [] closes all = tt
closed_still n f p (i ∷ ids) closes ((known, done), all) = (
  (known, elim (Bool-cases (i == n)) [ inl e ↦ rw e (closes (p.tokens i)) | inr e ↦ rw e done ]),
  closed_still n f p ids closes all,
)

-- A closed token stays closed when a new token is made.
closed_before :
    (p : CartPending) (f : CartToken → CartToken) (ids : List ℕ)
    → All (IsKnown p) ids
    → All (λ i. (i < p.next_token + 1) × ((at_token p.next_token f p.tokens i).done ≡ true)) ids
closed_before p f [] all = tt
closed_before p f (i ∷ ids) ((known, done), all) = (
  (
    omega (arith, known),
    ap (λ (t : CartToken). t.done)
          (if-false (i == p.next_token) (f (p.tokens i)) (p.tokens i) (ground (arith, known)))
        ∙ done,
  ),
  closed_before p f ids all,
)

known_next : (n : ℕ) (ids : List ℕ) → All (λ i. i < n) ids → All (λ i. i < n + 1) ids
known_next n [] all = tt
known_next n (i ∷ ids) (h, all) = (omega (arith, h), known_next n ids all)

results_before :
    (p : CartPending) (due : List Due) (f : CartToken → CartToken) (ids : List ℕ)
    → All (IsClosing p due) ids
    → All
        (λ i.
          (i < p.next_token + 1)
          × (((at_token p.next_token f p.tokens i).done ≡ true) ⊎ IsDue i due))
        ids
results_before p due f [] all = tt
results_before p due f (i ∷ ids) ((known, inl done), all) =
    let (here, rest) = closed_before p f (i ∷ []) ((known, done), tt) in
    ((here.0, inl here.1), results_before p due f ids all)
results_before p due f (i ∷ ids) ((known, inr is_due), all) =
    ((omega (arith, known), inr is_due), results_before p due f ids all)

taken_before :
    (p : CartPending) (due : List Due)
    → All (IsTaken p) due
    → All
        (λ d.
          (token_of d < p.next_token + 1)
          × All (λ i. ¬ (i ≡ token_of d)) (p.q ++ p.next_token ∷ []))
        due
taken_before p [] all = tt
taken_before p (d ∷ due) ((known, apart), all) = (
  (
    omega (arith, known),
    All-append (λ i. ¬ (i ≡ token_of d)) p.q (p.next_token ∷ []) apart
        ((λ e. omega (arith, known, e)), tt),
  ),
  taken_before p due all,
)

taken_erased :
    (id : ℕ) (p : CartPending) (due : List Due)
    → All (IsTaken p) due
    → All (λ d. (token_of d < p.next_token) × All (λ i. ¬ (i ≡ token_of d)) (erase id p.q)) due
taken_erased id p [] all = tt
taken_erased id p (d ∷ due) ((known, apart), all) =
    ((known, All-erase (λ i. ¬ (i ≡ token_of d)) id p.q apart), taken_erased id p due all)

module _ (due : List Due) (handed : List ℕ) where
  pub register-IsValid :
      (p : CartPending) → IsValid p due handed → IsValid (register_token p) due handed
  unfolding register_token
  register-IsValid p v =
      let n = p.next_token in
      let f : CartToken → CartToken = λ t. new_token p.absorbed_replies in
      let fresh : (at_token n f p.tokens n).done ≡ false =
        ap (λ (t : CartToken). t.done)
          (if-true (n == n) (f (p.tokens n)) (p.tokens n) (ground arith)) in
      record {
        known =
            All-append (λ i. i < n + 1) p.q (n ∷ []) (known_next n p.q v.known) (omega arith, tt);
        ordered = IsAbove-snoc 0 n p.q (omega arith) v.ordered v.known;
        waiting =
            All-append (λ i. (at_token n f p.tokens i).done ≡ false) p.q (n ∷ [])
              (open_elsewhere n f p.tokens p.q (below-apart n p.q v.known) v.waiting) (fresh, tt);
        taken = taken_before p due v.taken;
        results = results_before p due f p.unclaimed v.results;
        closed = closed_before p f handed v.closed;
        capped = v.capped;
      }

  pub unclaim_locked-IsValid :
      (id : ℕ) (p : CartPending) → IsValid p due handed → IsValid (unclaim_locked id p) due handed
  unfolding unclaim_locked
  unclaim_locked-IsValid id p v = record {
    known = All-erase (λ i. i < p.next_token) id p.q v.known;
    ordered = IsAbove-erase 0 id p.q v.ordered;
    waiting = All-erase (λ i. (p.tokens i).done ≡ false) id p.q v.waiting;
    taken = taken_erased id p due v.taken;
    results = All-erase (IsClosing p due) id p.unclaimed v.results;
    closed = v.closed;
    capped = omega (arith, length-erase id p.unclaimed, v.capped);
  }

  pub unclaim-IsValid :
      (id : ℕ) (p : CartPending) → IsValid p due handed → IsValid (unclaim id p) due handed
  unfolding unclaim
  unclaim-IsValid id p v = record {
    known = v.known;
    ordered = v.ordered;
    waiting = v.waiting;
    taken = v.taken;
    results = All-erase (IsClosing p due) id p.unclaimed v.results;
    closed = v.closed;
    capped = omega (arith, length-erase id p.unclaimed, v.capped);
  }

  -- The credits are no part of the invariant.
  pub credits-IsValid :
      (p : CartPending) (absorb deadline absorbed : ℕ)
      → IsValid p due handed
      → IsValid
          (record p { absorb = absorb; absorb_deadline = deadline; absorbed_replies = absorbed })
          due
          handed
  credits-IsValid p absorb deadline absorbed v = record {
    known = v.known;
    ordered = v.ordered;
    waiting = v.waiting;
    taken = v.taken;
    results = v.results;
    closed = v.closed;
    capped = v.capped;
  }

  either-IsValid :
      (b : Bool) (x y : CartPending)
      → IsValid x due handed
      → IsValid y due handed
      → IsValid (if b then x else y) due handed
  either-IsValid true x y hx hy = hx
  either-IsValid false x y hx hy = hy

  pub absorbance-IsValid :
      (now : ℕ) (p : CartPending) → IsValid p due handed → IsValid (absorbance now p) due handed
  unfolding absorbance
  absorbance-IsValid now p v =
      either-IsValid (not (p.absorb == 0) && ltb p.absorb_deadline now) (record p { absorb = 0 }) p
        (credits-IsValid p 0 p.absorb_deadline p.absorbed_replies v) v

  pub drop_and_absorb-IsValid :
      (id : ℕ) (timed_out : Bool) (now : ℕ) (p : CartPending)
      → IsValid p due handed
      → IsValid (drop_and_absorb id timed_out now p) due handed
  unfolding drop_and_absorb
  drop_and_absorb-IsValid id timed_out now p v =
      let left = unclaim_locked id p in
      let fresh = absorbance now left in
      let valid = unclaim_locked-IsValid id p v in
      either-IsValid (timed_out && not (left.absorbed_replies == (left.tokens id).absorbed_at)) left
        (record fresh { absorb = fresh.absorb + 1; absorb_deadline = now + fresh.absorb_ttl }) valid
        (credits-IsValid fresh (fresh.absorb + 1) (now + fresh.absorb_ttl) fresh.absorbed_replies
          (absorbance-IsValid now left valid))
