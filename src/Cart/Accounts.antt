-- ===== src/Cart/Accounts.antt =====
-- The calls on the collector as values, and what its queues keep.
use litearm_cpp.Base.{
  ℕ, ◌+◌, ◌≤◌, ◌<◌, ◌≡◌, ap, ◌∙◌, inl, inr, List, [], ◌∷◌, ◌++◌, if-false, arith, Bool, false,
  Bool-cases, ◌==◌, length, All,
}
use litearm_cpp.Cart.{
  CartToken, CartPending, Store, at_token, on_reply, register_token, clear_pending, drop_and_absorb,
  unclaim_locked, unclaim, erase, claim_resolved,
}
use litearm_cpp.Cart.Pairing.{IsAbove}

-- Any call on the collector, from its begin to its end.
pub data Op : Type 0 where
  register claim : Op
  reply : List ℕ → ℕ → Op
  clear : ℕ → Op
  drop_one unclaim_one : ℕ → Op
  drop_and_owe : ℕ → Bool → ℕ → Op

unfoldable pub apply : Op → CartPending → CartPending
apply register p = register_token p
apply claim p = (claim_resolved p).0
apply (reply payload now) p = (on_reply payload now p).0
apply (clear now) p = clear_pending now p
apply (drop_one id) p = unclaim_locked id p
apply (unclaim_one id) p = unclaim id p
apply (drop_and_owe id timed_out now) p = drop_and_absorb id timed_out now p

unfoldable pub apply_ops : List Op → CartPending → CartPending
apply_ops [] p = p
apply_ops (op ∷ ops) p = apply_ops ops (apply op p)

pub IsAbove-snoc :
    (low n : ℕ) (ids : List ℕ)
    → low ≤ n
    → IsAbove low ids
    → All (λ i. i < n) ids
    → IsAbove low (ids ++ n ∷ [])
IsAbove-snoc low n [] h above all = (h, tt)
IsAbove-snoc low n (id ∷ ids) h (first, above) (less, all) =
    (first, IsAbove-snoc (id + 1) n ids (omega (arith, less)) above all)

pub IsAbove-weaken :
    (low lower : ℕ) (ids : List ℕ) → lower ≤ low → IsAbove low ids → IsAbove lower ids
IsAbove-weaken low lower [] h above = tt
IsAbove-weaken low lower (id ∷ ids) h (first, above) = (omega (arith, first, h), above)

pub All-erase : (P : ℕ → Type 0) (id : ℕ) (ids : List ℕ) → All P ids → All P (erase id ids)
unfolding erase
All-erase P id [] all = tt
All-erase P id (i ∷ ids) (h, all) =
    let rest = All-erase P id ids all in
    elim (Bool-cases (i == id)) [ inl e ↦ rw e all | inr e ↦ rw e (h, rest) ]

pub IsAbove-erase : (low id : ℕ) (ids : List ℕ) → IsAbove low ids → IsAbove low (erase id ids)
unfolding erase
IsAbove-erase low id [] above = tt
IsAbove-erase low id (i ∷ ids) (first, above) =
    let rest = IsAbove-erase (i + 1) id ids above in
    elim (Bool-cases (i == id)) [
      | inl e ↦ rw e (IsAbove-weaken (i + 1) low ids (omega (arith, first)) above)
      | inr e ↦ rw e (first, rest)
    ]

pub length-erase : (id : ℕ) (ids : List ℕ) → length (erase id ids) ≤ length ids
unfolding erase
length-erase id [] = omega arith
length-erase id (i ∷ ids) = let rest = length-erase id ids in ground (arith, rest)

-- A change at one token leaves what is known of the others.
pub open_elsewhere :
    (n : ℕ) (f : CartToken → CartToken) (tokens : Store) (ids : List ℕ)
    → All (λ i. ¬ (i ≡ n)) ids
    → All (λ i. (tokens i).done ≡ false) ids
    → All (λ i. (at_token n f tokens i).done ≡ false) ids
open_elsewhere n f tokens [] apart all = tt
open_elsewhere n f tokens (i ∷ ids) (other, apart) (h, all) = (
  ap (λ (t : CartToken). t.done)
        (if-false (i == n) (f (tokens i)) (tokens i) (ground (arith, other)))
      ∙ h,
  open_elsewhere n f tokens ids apart all,
)

pub below-apart : (n : ℕ) (ids : List ℕ) → All (λ i. i < n) ids → All (λ i. ¬ (i ≡ n)) ids
below-apart n [] all = tt
below-apart n (i ∷ ids) (h, all) = (λ e. omega (arith, h, e), below-apart n ids all)

pub above-apart : (n low : ℕ) (ids : List ℕ) → n < low → IsAbove low ids → All (λ i. ¬ (i ≡ n)) ids
above-apart n low [] h all = tt
above-apart n low (i ∷ ids) h (first, above) =
    (λ e. omega (arith, h, first, e), above-apart n (i + 1) ids (omega (arith, h, first)) above)
