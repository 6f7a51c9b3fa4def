-- ===== src/Cart/Examples.antt =====
-- The collector at concrete calls.
use litearm_cpp.Base.{◌+◌, false, ℕ, ◌≡◌, ◌≤◌, refl, List, [], ◌∷◌, some, arith}
use litearm_cpp.Errors.{Result, ok, err, lite_arm, cart_reply_lost}
use litearm_cpp.Cart.{CartPending, new_token, register_token, on_reply, absorbance}
use litearm_cpp.Cart.Pairing.{run, paired, replied, replies, replies_of, run-replies}
use litearm_cpp.Cart.Absorb.{IsBy, IsAbsorbed}
use litearm_cpp.Cart.Accounts.{apply, apply_ops, register, reply}
use litearm_cpp.Cart.Shared.{
  Shared, replying, claiming, registering, clearing, turning, closing, parts, IsValid,
}
use litearm_cpp.Cart.Valid.{parts-IsValid}
use litearm_cpp.Cart.Wait.{Beat, timed_out, wait_token, wait_reply, wait_replied, wait_late}

-- Two requests in flight.
abbrev two_pending : CartPending
two_pending = record {
  q = 0 ∷ 1 ∷ [];
  unclaimed = [];
  tokens = λ i. new_token 0;
  next_token = 2;
  absorb_ttl = 12000;
  absorb = 0;
  absorb_deadline = 0;
  evicted_unclaimed = 0;
  extra_replies = 0;
  absorbed_replies = 0;
}

abbrev plan_ok : List ℕ
plan_ok = 1 ∷ 0 ∷ 10 ∷ 0 ∷ 0 ∷ 1 ∷ 0 ∷ 0 ∷ []

two_pending-IsValid : IsValid two_pending [] []
two_pending-IsValid = record {
  known = (omega arith, (omega arith, tt));
  ordered = (omega arith, (omega arith, tt));
  waiting = (refl, (refl, tt));
  taken = tt;
  results = tt;
  closed = tt;
  capped = omega arith;
}

abbrev two_shared : Shared
two_shared = record { pending = two_pending; due = []; handed = [] }

-- A claim and a clear come between the two parts of a reply, and the clear's callers are told first.
parts-IsValid_example :
    let later =
      parts
        (replying plan_ok 5
          ∷ claiming
          ∷ registering
          ∷ clearing 9
          ∷ closing
          ∷ turning
          ∷ closing
          ∷ claiming
          ∷ [])
        two_shared in
    IsValid later.pending later.due later.handed
parts-IsValid_example =
    parts-IsValid
      (replying plan_ok 5
        ∷ claiming
        ∷ registering
        ∷ clearing 9
        ∷ closing
        ∷ turning
        ∷ closing
        ∷ claiming
        ∷ [])
      two_shared two_pending-IsValid

run-replies_example :
    ((run (replies (plan_ok ∷ []) 5) two_pending).1 ≡ [])
    × ((run (replies (plan_ok ∷ []) 5) two_pending).0.q ≡ 1 ∷ [])
    × (replies_of (0 ∷ []) (run (replies (plan_ok ∷ []) 5) two_pending).0.tokens
        ≡ some plan_ok ∷ [])
run-replies_example =
    run-replies (plan_ok ∷ []) 5 two_pending refl (omega arith, (omega arith, tt)) (omega arith)

-- A reply too many is thrown as an error.
one_too_many : (run (replies (plan_ok ∷ plan_ok ∷ plan_ok ∷ []) 5) two_pending).1 ≡ lite_arm ∷ []
unfolding run on_reply absorbance paired
one_too_many = refl

-- A wait whose reply comes in time, and one whose reply comes late.
-- A quiet reading, the reply, and a reading after it.
abbrev calm_beat : Beat
calm_beat = record { now = 105; ops = []; link_dead = false }

abbrev late_beat : Beat
late_beat = record { now = 160; ops = register ∷ []; link_dead = false }

wait_replied_example :
    (wait_reply 0 100 50
      (calm_beat
        ∷ record { now = 110; ops = reply plan_ok 120 ∷ []; link_dead = false }
        ∷ late_beat
        ∷ [])
      two_pending).0
    ≡ ok plan_ok
wait_replied_example =
    wait_replied 0 (1 ∷ []) 100 50 110 120 plan_ok (calm_beat ∷ []) (late_beat ∷ []) two_pending
      refl refl (refl, refl) ((omega arith, refl, refl), tt) (omega arith)

-- Another request is made while the wait lasts.
abbrev busy_beats : List Beat
busy_beats = record { now = 110; ops = register ∷ []; link_dead = false } ∷ late_beat ∷ []

abbrev three_pending : CartPending
three_pending = apply_ops (register ∷ []) two_pending

abbrev late_out : Result (List ℕ) × CartPending
late_out = wait_reply 0 100 50 busy_beats two_pending

timed : wait_token 0 150 busy_beats two_pending ≡ (timed_out 160, three_pending)
unfolding wait_token apply_ops apply register_token
timed = refl

fresh_request : (three_pending.tokens 0).absorbed_at ≡ three_pending.absorbed_replies
unfolding apply_ops apply register_token
fresh_request = refl

in_time : IsBy (160 + three_pending.absorb_ttl) (replied plan_ok 200 ∷ [])
unfolding apply_ops apply register_token
in_time = (omega arith, tt)

wait_late_example :
    (150 ≤ 160)
    × (late_out.0 ≡ err cart_reply_lost)
    × IsAbsorbed (replied plan_ok 200 ∷ []) late_out.1 (run (replied plan_ok 200 ∷ []) late_out.1)
wait_late_example =
    wait_late 0 100 50 160 busy_beats (replied plan_ok 200 ∷ []) two_pending three_pending timed
      fresh_request (omega arith) in_time
