-- ===== src/Cart/Absorb.antt =====
-- Replies to requests that a clear or a time-out took off the queue are absorbed.
use litearm_cpp.Base.{
  ℕ, suc, ◌+◌, ◌≤◌, ◌<◌, ◌≡◌, refl, ap, subst, sym, ◌∙◌, List, [], ◌∷◌, ◌++◌, Option, none, ◌&&◌,
  ltb, if-false, if-true, arith, Bool, true, false, ◌==◌, if◌then◌else◌, length, All, not,
  append_assoc, append-nil,
}
use litearm_cpp.Errors.{Failure}
use litearm_cpp.Cart.{
  new_token, CartPending, fail_all, on_reply, lock_reply, lock_front, finish_reply, absorbed,
  absorbance, register_token, spend,
}
use litearm_cpp.Cart.Pairing.{Call, registered, replied, run, with_failure}

-- How many replies the calls bring, whether they all arrive by a deadline, and the tokens that the
-- calls register.
abbrev pub reply_count : List Call → ℕ
reply_count [] = 0
reply_count (registered ∷ calls) = reply_count calls
reply_count (replied payload now ∷ calls) = suc (reply_count calls)

abbrev pub IsBy : ℕ → List Call → Type 0
IsBy deadline [] = Unit
IsBy deadline (registered ∷ calls) = IsBy deadline calls
IsBy deadline (replied payload now ∷ calls) = (now ≤ deadline) × IsBy deadline calls

abbrev pub new_tokens : List Call → ℕ → List ℕ
new_tokens [] next = []
new_tokens (registered ∷ calls) next = next ∷ new_tokens calls (next + 1)
new_tokens (replied payload now ∷ calls) next = new_tokens calls next

on_reply-spent :
    (payload : List ℕ) (now : ℕ) (p : CartPending)
    → 1 ≤ p.absorb
    → now ≤ p.absorb_deadline
    → on_reply payload now p ≡ (spend p, none)
unfolding on_reply lock_reply absorbance
on_reply-spent payload now p some_left early =
    let fresh : absorbance now p ≡ p =
      if-false (not (p.absorb == 0) && ltb p.absorb_deadline now) (record p { absorb = 0 }) p
        (ground (arith, early)) in
    ap
      (λ (c : CartPending).
        finish_reply payload (if ltb 0 c.absorb then (spend c, absorbed) else lock_front c.q c))
      fresh
    ∙ ap (finish_reply payload) (
        if-true (ltb 0 p.absorb) (spend p, absorbed) (lock_front p.q p) (ground (arith, some_left)))

-- No call takes anything but credits: requests wait behind those that waited, and no token changes.
abbrev pub IsAbsorbed : List Call → CartPending → CartPending × List Failure → Type 0
IsAbsorbed calls p out =
    (out.1 ≡ [])
    × (out.0.q ≡ p.q ++ new_tokens calls p.next_token)
    × (out.0.unclaimed ≡ p.unclaimed)
    × (out.0.absorb + reply_count calls ≡ p.absorb)
    × ((i : ℕ) → i < p.next_token → out.0.tokens i ≡ p.tokens i)

pub run-IsAbsorbed :
    (calls : List Call) (p : CartPending)
    → reply_count calls ≤ p.absorb
    → IsBy p.absorb_deadline calls
    → IsAbsorbed calls p (run calls p)
unfolding run register_token
run-IsAbsorbed [] p enough by = (refl, sym (append-nil p.q), refl, omega arith, λ i h. refl)
run-IsAbsorbed (registered ∷ calls) p enough by =
    let next = register_token p in
    let (quiet, queue, same, left, kept) = run-IsAbsorbed calls next enough by in
    (
      quiet,
      queue ∙ append_assoc p.q (p.next_token ∷ []) (new_tokens calls (p.next_token + 1)),
      same,
      left,
      λ i h.
          kept i (omega arith)
          ∙ if-false (i == p.next_token) (new_token p.absorbed_replies) (p.tokens i)
              (ground (arith, h)),
    )
run-IsAbsorbed (replied payload now ∷ calls) p enough (early, by) =
    let (quiet, queue, same, left, kept) = run-IsAbsorbed calls (spend p) (omega arith) by in
    let after : CartPending × Option Failure → CartPending × List Failure =
      λ step. ((run calls step.0).0, with_failure step.1 (run calls step.0).1) in
    subst
      (λ (step : CartPending × Option Failure).
        IsAbsorbed (replied payload now ∷ calls) p (after step))
      (sym (on_reply-spent payload now p (omega arith) early))
      (quiet, queue, same, omega (arith, left), kept)

expired-same :
    (b : Bool) (p : CartPending)
    → (if b then record p { absorb = 0 } else p)
      ≡ record p { absorb = (if b then record p { absorb = 0 } else p).absorb }
expired-same true p = refl
expired-same false p = refl

-- An expiry changes the credits only.
pub absorbance-same :
    (now : ℕ) (p : CartPending) → absorbance now p ≡ record p { absorb = (absorbance now p).absorb }
unfolding absorbance
absorbance-same now p = expired-same (not (p.absorb == 0) && ltb p.absorb_deadline now) p

abbrev cleared_of : ℕ → List ℕ → CartPending → CartPending
cleared_of now ids p = record p {
  q = [];
  absorb = (absorbance now p).absorb + length ids;
  absorb_deadline = now + p.absorb_ttl;
  tokens = fail_all ids p.tokens;
}

-- The replies of the requests of `p` are owed, and absorbed after the clear.
abbrev pub IsOwed : CartPending → List Call → CartPending → Type 0
IsOwed p calls cleared =
    All (λ i. (cleared.tokens i).lost ≡ true) p.q
    × ((run calls cleared).1 ≡ [])
    × ((run calls cleared).0.q ≡ new_tokens calls p.next_token)
    × ((run calls cleared).0.unclaimed ≡ p.unclaimed)
    × ((i : ℕ) → i < p.next_token → (run calls cleared).0.tokens i ≡ cleared.tokens i)
