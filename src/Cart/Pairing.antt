-- ===== src/Cart/Pairing.antt =====
-- Replies are paired with requests in the order of the requests.
use litearm_cpp.Base.{
  ℕ, ◌+◌, ◌≤◌, ◌<◌, ◌≡◌, refl, ap, ap₂, subst, sym, ◌∙◌, List, [], ◌∷◌, map, Option, none, some,
  ◌&&◌, ltb, if-false, if-true, arith, ◌==◌, length, drop, take, not,
}
use litearm_cpp.Errors.{Failure}
use litearm_cpp.Cart.{
  CartToken, CartPending, Store, resolve, on_reply, lock_reply, lock_front, take_front,
  resolve_token, finish_reply, spend, absorbed, absorbance, register_token,
}

-- Calls on the collector in the order in which they get its lock: a request that registers its token,
-- and a reply with the clock reading at which it arrives.
pub data Call : Type 0 where
  registered : Call
  replied : List ℕ → ℕ → Call

abbrev pub with_failure : Option Failure → List Failure → List Failure
with_failure none failures = failures
with_failure (some e) failures = e ∷ failures

-- The state after the calls, and what they threw.
unfoldable pub run : List Call → CartPending → CartPending × List Failure
run [] p = (p, [])
run (registered ∷ calls) p = run calls (register_token p)
run (replied payload now ∷ calls) p =
    let next = on_reply payload now p in
    let rest = run calls next.0 in (rest.0, with_failure next.1 rest.1)

abbrev pub replies : List (List ℕ) → ℕ → List Call
replies payloads now = map (λ p. replied p now) payloads

-- The tokens stand in the order in which they were made.
abbrev pub IsAbove : ℕ → List ℕ → Type 0
IsAbove low [] = Unit
IsAbove low (id ∷ ids) = (low ≤ id) × IsAbove (id + 1) ids

abbrev pub replies_of : List ℕ → Store → List (Option (List ℕ))
replies_of ids tokens = map (λ i. (tokens i).reply) ids

IsAbove-weaken : (low lower : ℕ) (ids : List ℕ) → lower ≤ low → IsAbove low ids → IsAbove lower ids
IsAbove-weaken low lower [] h above = tt
IsAbove-weaken low lower (id ∷ ids) h (first, above) = (omega arith, above)

pub absorbance-none : (now : ℕ) (p : CartPending) → p.absorb ≡ 0 → absorbance now p ≡ p
unfolding absorbance
absorbance-none now p h =
    if-false (not (p.absorb == 0) && ltb p.absorb_deadline now) (record p { absorb = 0 }) p
      (ground (arith, h))

-- The whole call, where the reply is that of the first request in the queue.
unfoldable pub paired : List ℕ → ℕ → List ℕ → CartPending → CartPending
paired payload id ids p = resolve_token id payload (take_front id ids p)

abbrev pub pair_first : List ℕ → List ℕ → CartPending → CartPending × Option Failure
pair_first payload q p = finish_reply payload (lock_front q p)

abbrev pub pair : List ℕ → CartPending → CartPending × Option Failure
pair payload p = pair_first payload p.q p

pub on_reply-pair :
    (payload : List ℕ) (now : ℕ) (p : CartPending)
    → (absorbance now p).absorb ≡ 0
    → on_reply payload now p ≡ pair payload (absorbance now p)
unfolding on_reply lock_reply
on_reply-pair payload now p h =
    let fresh = absorbance now p in
    ap (finish_reply payload) (
      if-false (ltb 0 fresh.absorb) (spend fresh, absorbed) (lock_front fresh.q fresh)
        (ground (arith, h)))

pub on_reply-paired :
    (payload : List ℕ) (now id : ℕ) (ids : List ℕ) (p : CartPending)
    → p.absorb ≡ 0
    → p.q ≡ id ∷ ids
    → on_reply payload now p ≡ (paired payload id ids p, none)
unfolding paired
on_reply-paired payload now id ids p none_left queue =
    let same = absorbance-none now p none_left in
    on_reply-pair payload now p (ap (λ (c : CartPending). c.absorb) same ∙ none_left)
    ∙ ap (pair payload) same
    ∙ ap (λ (q : List ℕ). pair_first payload q p) queue

IsPaired : List (List ℕ) → ℕ → List ℕ → CartPending → CartPending × List Failure → Type 0
IsPaired payloads low q p out =
    (out.1 ≡ [])
    × (out.0.q ≡ drop (length payloads) q)
    × (replies_of (take (length payloads) q) out.0.tokens ≡ map some payloads)
    × ((i : ℕ) → i < low → out.0.tokens i ≡ p.tokens i)

pairs :
    (payloads : List (List ℕ)) (now low : ℕ) (q : List ℕ) (p : CartPending)
    → p.q ≡ q
    → p.absorb ≡ 0
    → IsAbove low q
    → length payloads ≤ length q
    → IsPaired payloads low q p (run (replies payloads now) p)
unfolding run IsPaired paired
pairs [] now low q p queue none_left above enough = (refl, queue, refl, λ i h. refl)
pairs (payload ∷ payloads) now low [] p queue none_left above enough = absurd (ground arith)
pairs (payload ∷ payloads) now low (id ∷ ids) p queue none_left (first, above) enough =
    let next = paired payload id ids p in
    let (quiet, left, answered, kept) =
      pairs payloads now (id + 1) ids next refl none_left above (omega arith) in
    let after : CartPending × Option Failure → CartPending × List Failure = λ step. (
      (run (replies payloads now) step.0).0,
      with_failure step.1 (run (replies payloads now) step.0).1,
    ) in
    let here : (after (next, none)).0.tokens id ≡ resolve payload (p.tokens id) =
      kept id (omega arith)
      ∙ if-true (id == id) (resolve payload (p.tokens id)) (p.tokens id) (ground arith) in
    let others : (i : ℕ) → i < low → (after (next, none)).0.tokens i ≡ p.tokens i = λ i h.
      kept i (omega arith)
      ∙ if-false (i == id) (resolve payload (p.tokens i)) (p.tokens i) (ground arith) in
    subst
      (λ (step : CartPending × Option Failure).
        IsPaired (payload ∷ payloads) low (id ∷ ids) p (after step))
      (sym (on_reply-paired payload now id ids p none_left queue))
      (quiet, left, ap₂ ◌∷◌ (ap (λ (t : CartToken). t.reply) here) answered, others)

-- Without credits, the replies that arrive resolve the oldest requests, each with its own payload and
-- in their order, as long as there are as many requests as replies; nothing is thrown.
pub run-replies :
    (payloads : List (List ℕ)) (now : ℕ) (p : CartPending)
    → p.absorb ≡ 0
    → IsAbove 0 p.q
    → length payloads ≤ length p.q
    → let out = run (replies payloads now) p in
      (out.1 ≡ [])
      × (out.0.q ≡ drop (length payloads) p.q)
      × (replies_of (take (length payloads) p.q) out.0.tokens ≡ map some payloads)
unfolding IsPaired
run-replies payloads now p none_left above enough =
    let (quiet, left, answered, kept) = pairs payloads now 0 p.q p refl none_left above enough in
    (quiet, left, answered)
