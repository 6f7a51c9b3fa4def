-- ===== src/Cart/Wait.antt =====
-- Waiting for the reply of a plan: `CartPending::wait` of `src/cart.cpp`.
use litearm_cpp.Base.{
  ℕ, ◌+◌, ◌≤◌, ◌<◌, ◌≡◌, refl, ap, subst, sym, ◌∙◌, List, [], ◌∷◌, Option, none, some, arith, Bool,
  true, false, ◌==◌, ◌&&◌, ◌||◌, not, leb, if◌then◌else◌, if-true, if-false, All, ◌++◌,
}
use litearm_cpp.Errors.{Failure, Result, ok, err, transport, cart_reply_lost}
use litearm_cpp.Cart.{
  CartToken, CartPending, at_token, fail, resolve, on_reply, absorbance, drop_and_absorb,
  unclaim_locked, unclaim,
}
use litearm_cpp.Cart.Accounts.{Op, reply, apply, apply_ops}
use litearm_cpp.Cart.Pairing.{Call, run, paired, on_reply-paired}
use litearm_cpp.Cart.Absorb.{reply_count, IsBy, IsAbsorbed, run-IsAbsorbed, absorbance-same}

-- A clock reading of the waiter, the calls on the collector before the next one, and whether the
-- reading thread is gone by then.
pub record Beat : Type 0 where
  pub now : ℕ
  pub ops : List Op
  pub link_dead : Bool

-- How the loop ends: the token is settled, the time is up, or the link is down.
pub data Ending : Type 0 where
  settled : Ending
  timed_out link_down : ℕ → Ending

abbrev pub has_reply : Option (List ℕ) → Bool
has_reply none = false
has_reply (some payload) = true

abbrev pub is_settled : CartToken → Bool
is_settled token = has_reply token.reply || token.lost

-- The loop. Where the readings end, the deadline has passed.
unfoldable pub wait_token : ℕ → ℕ → List Beat → CartPending → Ending × CartPending
wait_token id end [] p = if is_settled (p.tokens id) then (settled, p) else (timed_out end, p)
wait_token id end (b ∷ beats) p =
    let later = apply_ops b.ops p in
    let rest = wait_token id end beats later in
    if is_settled (p.tokens id)
    then (settled, p)
    else if leb end b.now
    then (timed_out b.now, p)
    else if b.link_dead
    then (link_down b.now, later)
    else rest

-- The token is taken off and closed.
abbrev abandon : ℕ → Bool → ℕ → CartPending → CartPending
abandon id in_window now p =
    let dropped = drop_and_absorb id in_window now p in
    record dropped { tokens = at_token id fail dropped.tokens }

abbrev deliver_reply : ℕ → ℕ → Option (List ℕ) → CartPending → Result (List ℕ) × CartPending
deliver_reply id now none p = (err cart_reply_lost, abandon id true now p)
deliver_reply id now (some payload) p = (ok payload, unclaim id p)

-- After the loop.
abbrev pub conclude : ℕ → Ending × CartPending → Result (List ℕ) × CartPending
conclude id (settled, p) =
    if (p.tokens id).lost
    then (err cart_reply_lost, p)
    else deliver_reply id 0 (p.tokens id).reply p
conclude id (timed_out now, p) =
    if (p.tokens id).lost
    then (err cart_reply_lost, p)
    else deliver_reply id now (p.tokens id).reply p
conclude id (link_down now, p) =
    if (p.tokens id).lost then (err cart_reply_lost, p) else (err transport, abandon id false now p)

unfoldable pub wait_reply : ℕ → ℕ → ℕ → List Beat → CartPending → Result (List ℕ) × CartPending
wait_reply id start timeout beats p = conclude id (wait_token id (start + timeout) beats p)

-- A token that nothing has settled yet.
abbrev pub IsOpen : ℕ → CartPending → Type 0
IsOpen id p = ((p.tokens id).reply ≡ none) × ((p.tokens id).lost ≡ false)

open_unsettled : (id : ℕ) (p : CartPending) → IsOpen id p → is_settled (p.tokens id) ≡ false
open_unsettled id p (unanswered, not_lost) =
    ap (λ (r : Option (List ℕ)). has_reply r || (p.tokens id).lost) unanswered ∙ not_lost

paired-token :
    (payload : List ℕ) (id : ℕ) (ids : List ℕ) (p : CartPending)
    → (paired payload id ids p).tokens id ≡ resolve payload (p.tokens id)
unfolding paired
paired-token payload id ids p =
    if-true (id == id) (resolve payload (p.tokens id)) (p.tokens id) (ground arith)

-- A time-out without an absorbed reply owes one more credit.
owed :
    (id now : ℕ) (p : CartPending)
    → (p.tokens id).absorbed_at ≡ p.absorbed_replies
    → drop_and_absorb id true now p ≡ (
        let fresh = absorbance now (unclaim_locked id p) in
        record fresh { absorb = fresh.absorb + 1; absorb_deadline = now + fresh.absorb_ttl })
unfolding drop_and_absorb unclaim_locked
owed id now p fresh =
    let left = unclaim_locked id p in
    let f = absorbance now left in
    if-false (true && not (left.absorbed_replies == (left.tokens id).absorbed_at)) left
      (record f { absorb = f.absorb + 1; absorb_deadline = now + f.absorb_ttl })
      (ground (arith, fresh))

-- Readings in time, with the link up, before which no call is made.
abbrev pub IsCalm : ℕ → Beat → Type 0
IsCalm end b = (b.now < end) × (b.ops ≡ []) × (b.link_dead ≡ false)

calm_before :
    (id end : ℕ) (before beats : List Beat) (p : CartPending)
    → is_settled (p.tokens id) ≡ false
    → All (IsCalm end) before
    → wait_token id end (before ++ beats) p ≡ wait_token id end beats p
unfolding wait_token apply_ops
calm_before id end [] beats p h calm = refl
calm_before id end (b ∷ before) beats p h ((early, none_made, alive), calm) =
    let in_time : leb end b.now ≡ false = ground (arith, early) in
    let rest = wait_token id end (before ++ beats) p in
    simp (h, in_time, alive, none_made) (calm_before id end before beats p h calm)

settled_at_once :
    (id end : ℕ) (beats : List Beat) (p : CartPending)
    → is_settled (p.tokens id) ≡ true
    → wait_token id end beats p ≡ (settled, p)
unfolding wait_token
settled_at_once id end [] p h = rw h refl
settled_at_once id end (b ∷ beats) p h = simp h refl

answered_in_time :
    (id end now arrival : ℕ) (ids payload : List ℕ) (after : List Beat) (p : CartPending)
    → p.q ≡ id ∷ ids
    → p.absorb ≡ 0
    → IsOpen id p
    → now < end
    → wait_token id end
        (record { now = now; ops = reply payload arrival ∷ []; link_dead = false } ∷ after)
        p
      ≡ (settled, paired payload id ids p)
unfolding wait_token apply_ops apply
answered_in_time id end now arrival ids payload after p queue none_left unsettled early =
    let in_time : leb end now ≡ false = ground (arith, early) in
    let next = paired payload id ids p in
    let done : is_settled (next.tokens id) ≡ true = ap is_settled (paired-token payload id ids p) in
    let step = on_reply payload arrival p in
    let rest = wait_token id end after step.0 in
    if-false (is_settled (p.tokens id)) (settled, p)
      (if leb end now then (timed_out now, p) else rest) (open_unsettled id p unsettled)
    ∙ if-false (leb end now) (timed_out now, p) rest in_time
    ∙ ap (λ (s : CartPending × Option Failure). wait_token id end after s.0)
        (on_reply-paired payload arrival id ids p none_left queue)
    ∙ settled_at_once id end after next done

-- The wait on the oldest request, while no credit for a reply of before is left and no other call is
-- made, returns the payload of the reply that arrives before its deadline; what is read and called
-- after that makes no difference.
pub wait_replied :
    (id : ℕ) (ids : List ℕ) (start timeout now arrival : ℕ) (payload : List ℕ)
    (before after : List Beat) (p : CartPending)
    → p.q ≡ id ∷ ids
    → p.absorb ≡ 0
    → IsOpen id p
    → All (IsCalm (start + timeout)) before
    → now < start + timeout
    → (wait_reply id start timeout
        (before
          ++ record { now = now; ops = reply payload arrival ∷ []; link_dead = false } ∷ after)
        p).0
      ≡ ok payload
unfolding wait_reply
wait_replied id ids start timeout now arrival payload before after p queue none_left unsettled calm
      early =
    let end = start + timeout in
    let next = paired payload id ids p in
    let token = paired-token payload id ids p in
    let beat : Beat = record { now = now; ops = reply payload arrival ∷ []; link_dead = false } in
    let ended : wait_token id end (before ++ beat ∷ after) p ≡ (settled, next) =
      calm_before id end before (beat ∷ after) p (open_unsettled id p unsettled) calm
      ∙ answered_in_time id end now arrival ids payload after p queue none_left unsettled early in
    let by_token : CartToken → Result (List ℕ) × CartPending =
      λ t. if t.lost then (err cart_reply_lost, next) else deliver_reply id 0 t.reply next in
    let by_loss : Bool → Result (List ℕ) × CartPending =
      λ l. if l then (err cart_reply_lost, next) else (ok payload, unclaim id next) in
    ap (λ (e : Ending × CartPending). (conclude id e).0) ended
    ∙ ap (λ (t : CartToken). (by_token t).0) token
    ∙ ap (λ (l : Bool). (by_loss l).0) unsettled.1

-- A wait that ends by its time does so after its deadline, and nothing has settled its token.
abbrev IsTimely : ℕ → ℕ → Ending × CartPending → Type 0
IsTimely id end (settled, p) = Unit {0}
IsTimely id end (timed_out now, p) = (end ≤ now) × (is_settled (p.tokens id) ≡ false)
IsTimely id end (link_down now, p) = Unit {0}

is_timely_lem :
    (id end : ℕ) (c : Bool) (x y : Ending × CartPending)
    → (c ≡ true → IsTimely id end x)
    → (c ≡ false → IsTimely id end y)
    → IsTimely id end (if c then x else y)
is_timely_lem id end true x y h k = h refl
is_timely_lem id end false x y h k = k refl

wait_token-IsTimely :
    (id end : ℕ) (beats : List Beat) (p : CartPending) → IsTimely id end (wait_token id end beats p)
unfolding wait_token
wait_token-IsTimely id end [] p =
    is_timely_lem id end (is_settled (p.tokens id)) (settled, p) (timed_out end, p) (λ s. tt)
      (λ s. (omega arith, s))
wait_token-IsTimely id end (b ∷ beats) p =
    let later = apply_ops b.ops p in
    let rest = wait_token id end beats later in
    let down = if b.link_dead then (link_down b.now, later) else rest in
    is_timely_lem id end (is_settled (p.tokens id)) (settled, p)
      (if leb end b.now then (timed_out b.now, p) else down) (λ s. tt)
      (λ s.
        is_timely_lem id end (leb end b.now) (timed_out b.now, p) down
          (λ over. (ground (arith, over), s))
          (λ early.
            is_timely_lem id end b.link_dead (link_down b.now, later) rest (λ d. tt)
              (λ d. wait_token-IsTimely id end beats later)))

open_of :
    (r : Option (List ℕ)) (lost : Bool)
    → (has_reply r || lost) ≡ false
    → (r ≡ none) × (lost ≡ false)
open_of none lost h = (refl, h)
open_of (some payload) lost h = ground (arith, h)

-- A wait whose time passes without a reply, whatever calls others make meanwhile, and without one that
-- was absorbed since the request was made, throws `CartReplyLostError` after its deadline; the reply
-- that comes late, within the time to live, throws nothing and is given to no other request.
pub wait_late :
    (id start timeout now : ℕ) (beats : List Beat) (calls : List Call) (p last : CartPending)
    → wait_token id (start + timeout) beats p ≡ (timed_out now, last)
    → (last.tokens id).absorbed_at ≡ last.absorbed_replies
    → reply_count calls ≤ 1
    → IsBy (now + last.absorb_ttl) calls
    → let out = wait_reply id start timeout beats p in
      (start + timeout ≤ now)
      × (out.0 ≡ err cart_reply_lost)
      × IsAbsorbed calls out.1 (run calls out.1)
unfolding wait_reply unclaim_locked
wait_late id start timeout now beats calls p last ended fresh few by =
    let (late, nothing) =
      subst (IsTimely id (start + timeout)) ended
        (wait_token-IsTimely id (start + timeout) beats p) in
    let unsettled = open_of (last.tokens id).reply (last.tokens id).lost nothing in
    let left = abandon id true now last in
    let over : wait_reply id start timeout beats p ≡ (err cart_reply_lost, left) =
      ap (conclude id) ended
      ∙ ap
          (λ (l : Bool).
            if l
            then (err cart_reply_lost, last)
            else deliver_reply id now (last.tokens id).reply last)
          unsettled.1
      ∙ ap (λ (r : Option (List ℕ)). deliver_reply id now r last) unsettled.0 in
    (
      late,
      ap (λ (out : Result (List ℕ) × CartPending). out.0) over,
      let dropped = owed id now last fresh in
          let ttl =
            ap (λ (c : CartPending). c.absorb_ttl) (absorbance-same now (unclaim_locked id last)) in
          let credit : 1 ≤ left.absorb =
            omega (arith, ap (λ (c : CartPending). c.absorb) dropped) in
          let deadline : left.absorb_deadline ≡ now + last.absorb_ttl =
            ap (λ (c : CartPending). c.absorb_deadline) dropped ∙ ap (λ (t : ℕ). now + t) ttl in
          subst (λ (out : Result (List ℕ) × CartPending). IsAbsorbed calls out.1 (run calls out.1))
            (sym over)
            (run-IsAbsorbed calls left (omega (arith, few, credit))
              (subst (λ (d : ℕ). IsBy d calls) (sym deadline) by)),
    )
