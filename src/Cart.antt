-- ===== src/Cart.antt =====
-- The pairing of Cartesian plan replies with requests: `CartToken`, `CartPending` and the plan's
-- outcome of `include/litearm/cart.hpp` and `src/cart.cpp`. A token is a number that stands for the
-- shared pointer, and the store holds what the pointer leads to. Clock readings are ticks; the
-- credits for replies that are owed are a number far below the limit of `int`.
pub mod Accounts
pub mod Shared
pub mod Steps
pub mod Taking
pub mod Valid
pub mod Wait
pub mod Pairing
pub mod Absorb
mod Examples
use litearm_cpp.Base.{
  ℕ, zero, suc, ◌+◌, ◌-◌, ◌*◌, ◌%◌, ◌^◌, List, [], ◌∷◌, ◌++◌, Option, none, some, Bool, true, false,
  not, ◌==◌, ◌&&◌, ◌||◌, ltb, leb, if◌then◌else◌, length, drop, get_or,
}
use litearm_cpp.Errors.{
  Failure, Result, ok, err, lite_arm, transport, ik_failed, motion_superseded, invalid_command,
  cartesian_plan,
}
use litearm_cpp.Protocol.Scalar.{read_u16le, read_u32le}
use litearm_cpp.Ack.{Collector, u64}

-- The command codes that make the firmware forget its plans.
unfoldable pub cart_clears_upon : List ℕ
cart_clears_upon =
    0x01 ∷ 0x02 ∷ 0x03 ∷ 0x04 ∷ 0x05 ∷ 0x06 ∷ 0x07 ∷ 0x11 ∷ 0x12 ∷ 0x13 ∷ 0x14 ∷ 0x2a ∷ []

-- The fields of `CartPlan` that the reply carries.
pub record CartPlan : Type 0 where
  pub is_ok : Bool
  pub code : ℕ
  pub n_wp : ℕ
  pub plan_us : ℕ

unfoldable pub from_reply : List ℕ → Result CartPlan
from_reply payload =
    if ltb (length payload) 8
    then err transport
    else ok (record {
      is_ok = not (get_or payload 0 0 == 0);
      code = get_or payload 1 0;
      n_wp = read_u16le payload 2;
      plan_us = read_u32le payload 4;
    })

unfoldable pub raise_for_plan : CartPlan → Result (Unit {0})
raise_for_plan plan =
    if plan.is_ok
    then ok tt
    else if plan.code == 1
    then err ik_failed
    else if plan.code == 5
    then err motion_superseded
    else if plan.code == 6
    then err invalid_command
    else err cartesian_plan

pub record CartToken : Type 0 where
  pub done : Bool
  pub reply : Option (List ℕ)
  pub lost : Bool
  pub absorbed_at : ℕ

abbrev pub resolve : List ℕ → CartToken → CartToken
resolve payload token = record token { reply = some payload; done = true }

abbrev pub fail : CartToken → CartToken
fail token = record token { lost = true; done = true }

abbrev pub new_token : ℕ → CartToken
new_token absorbed = record { done = false; reply = none; lost = false; absorbed_at = absorbed }

abbrev pub Store : Type 0
Store = ℕ → CartToken

abbrev pub at_token : ℕ → (CartToken → CartToken) → Store → Store
at_token id f tokens i = if i == id then f (tokens i) else tokens i

pub record CartPending : Type 0 where
  pub q : List ℕ
  pub unclaimed : List ℕ
  pub tokens : Store
  pub next_token : ℕ
  pub absorb_ttl : ℕ
  pub absorb : ℕ
  pub absorb_deadline : ℕ
  pub evicted_unclaimed : ℕ
  pub extra_replies : ℕ
  pub absorbed_replies : ℕ

-- The constructor, at a clock reading.
pub new_pending : ℕ → ℕ → ℕ → CartPending
new_pending absorb_ttl absorb now = record {
  q = [];
  unclaimed = [];
  tokens = λ i. new_token 0;
  next_token = 0;
  absorb_ttl = absorb_ttl;
  absorb = absorb;
  absorb_deadline = if absorb == 0 then 0 else now + absorb_ttl;
  evicted_unclaimed = 0;
  extra_replies = 0;
  absorbed_replies = 0;
}

-- `register_token`; the new token is `next_token` of the state before.
unfoldable pub register_token : CartPending → CartPending
register_token p = record p {
  q = p.q ++ p.next_token ∷ [];
  tokens = at_token p.next_token (λ t. new_token p.absorbed_replies) p.tokens;
  next_token = p.next_token + 1;
}

-- Erase the first entry that is the token.
unfoldable pub erase : ℕ → List ℕ → List ℕ
erase id [] = []
erase id (i ∷ ids) = let rest = erase id ids in if i == id then ids else i ∷ rest

unfoldable pub unclaim_locked : ℕ → CartPending → CartPending
unclaim_locked id p = record p { q = erase id p.q; unclaimed = erase id p.unclaimed }

pub drop_token : ℕ → CartPending → CartPending
drop_token id p = unclaim_locked id p

-- `request`: the token stays in the queue unless the write failed with a transport error.
pub request : Result (Unit {0}) → CartPending → CartPending × Result ℕ
request (ok u) p = (register_token p, ok p.next_token)
request (err transport) p = (drop_token p.next_token (register_token p), err transport)
request (err e) p = (register_token p, err e)

-- `absorbance_locked`: credits expire when the clock is past their deadline.
unfoldable pub absorbance : ℕ → CartPending → CartPending
absorbance now p =
    if not (p.absorb == 0) && ltb p.absorb_deadline now then record p { absorb = 0 } else p

unfoldable pub drop_and_absorb : ℕ → Bool → ℕ → CartPending → CartPending
drop_and_absorb id timed_out now p =
    let left = unclaim_locked id p in
    if timed_out && not (left.absorbed_replies == (left.tokens id).absorbed_at)
    then left
    else (let fresh = absorbance now left in
        record fresh { absorb = fresh.absorb + 1; absorb_deadline = now + fresh.absorb_ttl })

abbrev pub claim_first : List ℕ → CartPending → CartPending × Option ℕ
claim_first [] p = (p, none)
claim_first (id ∷ ids) p =
    if (p.tokens id).done then (record p { unclaimed = ids }, some id) else (p, none)

unfoldable pub claim_resolved : CartPending → CartPending × Option ℕ
claim_resolved p = claim_first p.unclaimed p

abbrev pub unclaimed_max : ℕ
unclaimed_max = 8

-- `while (unclaimed_.size() > kUnclaimedMax)`: the rounds are at most the list's length.
abbrev pub excess : List ℕ → ℕ
excess ids = length ids - unclaimed_max

-- How the locked part of `on_reply` ends: the reply was absorbed, there is no request, or it is the
-- reply of a token.
pub data Locked : Type 0 where
  absorbed unmatched : Locked
  matched : ℕ → Locked

-- The first request is taken off the queue, and its token waits to be claimed before it is resolved.
abbrev pub take_front : ℕ → List ℕ → CartPending → CartPending
take_front id ids p =
    let waiting = p.unclaimed ++ id ∷ [] in
    record p {
      q = ids;
      unclaimed = drop (excess waiting) waiting;
      evicted_unclaimed = u64 (p.evicted_unclaimed + excess waiting);
    }

abbrev pub lock_front : List ℕ → CartPending → CartPending × Locked
lock_front [] p = (record p { extra_replies = u64 (p.extra_replies + 1) }, unmatched)
lock_front (id ∷ ids) p = (take_front id ids p, matched id)

-- One credit for a reply that belongs to a request of before.
abbrev pub spend : CartPending → CartPending
spend p = record p { absorb = p.absorb - 1; absorbed_replies = u64 (p.absorbed_replies + 1) }

-- The part of `on_reply` under the lock.
unfoldable pub lock_reply : ℕ → CartPending → CartPending × Locked
lock_reply now p =
    let fresh = absorbance now p in
    if ltb 0 fresh.absorb then (spend fresh, absorbed) else lock_front fresh.q fresh

-- `tok->resolve(payload)`, which takes no lock of the collector.
abbrev pub resolve_token : ℕ → List ℕ → CartPending → CartPending
resolve_token id payload p = record p { tokens = at_token id (resolve payload) p.tokens }

-- The part after the lock was released.
abbrev pub finish_reply : List ℕ → CartPending × Locked → CartPending × Option Failure
finish_reply payload (p, absorbed) = (p, none)
finish_reply payload (p, unmatched) = (p, some lite_arm)
finish_reply payload (p, matched id) = (resolve_token id payload p, none)

-- The whole call: its two parts, with no other call between them. `Shared` takes them apart.
unfoldable pub on_reply : List ℕ → ℕ → CartPending → CartPending × Option Failure
unfolding lock_reply
on_reply payload now p = finish_reply payload (lock_reply now p)

-- `for (const auto& t : tokens) t->fail(why);`
unfoldable pub fail_all : List ℕ → Store → Store
fail_all [] tokens = tokens
fail_all (id ∷ ids) tokens = fail_all ids (at_token id fail tokens)

-- The part of `clear_pending` under the lock, for a queue.
abbrev pub lock_queue : List ℕ → ℕ → CartPending → CartPending
lock_queue [] now p = p
lock_queue (id ∷ ids) now p =
    let fresh = absorbance now p in
    record fresh {
      q = [];
      absorb = fresh.absorb + length (id ∷ ids);
      absorb_deadline = now + fresh.absorb_ttl;
    }

-- The part after the lock was released.
abbrev pub fail_tokens : List ℕ → CartPending → CartPending
fail_tokens ids p = record p { tokens = fail_all ids p.tokens }

abbrev pub clear_queue : List ℕ → ℕ → CartPending → CartPending
clear_queue ids now p = fail_tokens ids (lock_queue ids now p)

unfoldable pub clear_pending : ℕ → CartPending → CartPending
unfolding fail_all
clear_pending now p = clear_queue p.q now p

pub pending : CartPending → ℕ
pending p = length p.q

unfoldable pub unclaim : ℕ → CartPending → CartPending
unclaim id p = record p { unclaimed = erase id p.unclaimed }

-- The collector that the reading thread hands its replies to.
abbrev pub cart_collector : Collector
cart_collector = record { State = CartPending; on_reply = on_reply }
