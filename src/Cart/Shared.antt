-- ===== src/Cart/Shared.antt =====
-- The collector between its threads: `CartPending` of `src/cart.cpp`, whose lock makes the parts of the
-- calls whole. `on_reply` and `clear_pending` close the tokens that they took after they released the
-- lock, so that parts of other calls may come between.
use litearm_cpp.Base.{
  ℕ, ◌≤◌, ◌<◌, ◌≡◌, List, [], ◌∷◌, ◌++◌, map, Option, none, some, Bool, true, false, ◌⊎◌, length,
  All,
}
use litearm_cpp.Cart.{
  CartPending, Locked, absorbed, unmatched, matched, register_token, unclaim_locked, unclaim,
  drop_and_absorb, claim_resolved, lock_reply, lock_queue, resolve_token, fail_tokens,
}
use litearm_cpp.Cart.Pairing.{IsAbove}

-- What a call that released the lock has still to do at a token.
pub data Due : Type 0 where
  resolves : ℕ → List ℕ → Due
  fails : ℕ → Due

abbrev pub token_of : Due → ℕ
token_of (resolves id payload) = id
token_of (fails id) = id

abbrev pub close_token : Due → CartPending → CartPending
close_token (resolves id payload) p = resolve_token id payload p
close_token (fails id) p = fail_tokens (id ∷ []) p

-- The collector, what is due, and the tokens that `claim_resolved` has handed out.
pub record Shared : Type 0 where
  pub pending : CartPending
  pub due : List Due
  pub handed : List ℕ

-- A part of a call that no other part comes between.
pub data Part : Type 0 where
  registering claiming : Part
  replying : List ℕ → ℕ → Part
  clearing : ℕ → Part
  dropping unclaiming : ℕ → Part
  owing : ℕ → Bool → ℕ → Part
  -- The first of what is due is done, or comes after all the others.
  closing turning : Part

abbrev pub due_of : List ℕ → Locked → List Due → List Due
due_of payload absorbed due = due
due_of payload unmatched due = due
due_of payload (matched id) due = resolves id payload ∷ due

abbrev pub hand : Option ℕ → List ℕ → List ℕ
hand none handed = handed
hand (some id) handed = id ∷ handed

abbrev pub close_first : List Due → Shared → Shared
close_first [] s = s
close_first (d ∷ due) s = record s { pending = close_token d s.pending; due = due }

abbrev pub turn_first : List Due → List Due
turn_first [] = []
turn_first (d ∷ due) = due ++ d ∷ []

unfoldable pub part : Part → Shared → Shared
part registering s = record s { pending = register_token s.pending }
part claiming s =
    let out = claim_resolved s.pending in record s { pending = out.0; handed = hand out.1 s.handed }
part (replying payload now) s =
    let out = lock_reply now s.pending in
    record s { pending = out.0; due = due_of payload out.1 s.due }
part (clearing now) s = record s {
  pending = lock_queue s.pending.q now s.pending;
  due = map fails s.pending.q ++ s.due;
}
part (dropping id) s = record s { pending = unclaim_locked id s.pending }
part (unclaiming id) s = record s { pending = unclaim id s.pending }
part (owing id timed_out now) s = record s { pending = drop_and_absorb id timed_out now s.pending }
part closing s = close_first s.due s
part turning s = record s { due = turn_first s.due }

unfoldable pub parts : List Part → Shared → Shared
parts [] s = s
parts (x ∷ xs) s = parts xs (part x s)

abbrev pub IsDue : ℕ → List Due → Type 0
IsDue i [] = ⊥
IsDue i (d ∷ due) = (token_of d ≡ i) ⊎ IsDue i due

-- A token that was made, and is closed.
abbrev pub IsKnown : CartPending → ℕ → Type 0
IsKnown p i = (i < p.next_token) × ((p.tokens i).done ≡ true)

-- A token that was made, and is closed or about to be.
abbrev pub IsClosing : CartPending → List Due → ℕ → Type 0
IsClosing p due i = (i < p.next_token) × (((p.tokens i).done ≡ true) ⊎ IsDue i due)

-- A token that was taken off the queue, which it is not in.
abbrev pub IsTaken : CartPending → Due → Type 0
IsTaken p d = (token_of d < p.next_token) × All (λ i. ¬ (i ≡ token_of d)) p.q

-- The requests in the queue are open and in the order in which they were made; what is due concerns
-- others; the results that wait to be claimed are closed or about to be, and at most eight; and what was
-- handed out is closed.
pub record IsValid (p : CartPending) (due : List Due) (handed : List ℕ) : Type 0 where
  pub known : All (λ i. i < p.next_token) p.q
  pub ordered : IsAbove 0 p.q
  pub waiting : All (λ i. (p.tokens i).done ≡ false) p.q
  pub taken : All (IsTaken p) due
  pub results : All (IsClosing p due) p.unclaimed
  pub closed : All (IsKnown p) handed
  pub capped : length p.unclaimed ≤ 8
