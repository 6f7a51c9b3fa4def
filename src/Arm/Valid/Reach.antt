-- ===== src/Arm/Valid/Reach.antt =====
-- Every session that steps reach is valid.
use litearm_cpp.Base.{
  ℕ, suc, ◌+◌, ◌≡◌, refl, sym, subst, arith, List, [], ◌∷◌, Option, none, some, Bool, true, false,
}
use litearm_cpp.Errors.{Result, ok, err}
use litearm_cpp.Action.{modify, throw, catch_all, ◌>>◌}
use litearm_cpp.Action.Preserves.{
  Preserves, Preserves-bind, Preserves-modify, Preserves-gets, Preserves-pure, Preserves-if,
  Preserves-throw_if, Preserves-attempt,
}
use litearm_cpp.Action.Yields.{
  Ends, Yields, Yields-Preserves, Yields-bind, Yields-catch, Yields-throw, Yields-modify,
  Yields-weaken, Preserves-Yields,
}
use litearm_cpp.Floats.{Floats}
use litearm_cpp.Arm.{Arm, Act, is_own, require, cmd_expect_ack}
use litearm_cpp.Arm.Hover.{zero_g_start, spawn}
use litearm_cpp.Arm.Connect.{close, reconnect, Plug}
use litearm_cpp.Arm.Device.{enter_dfu, hand_over}
use litearm_cpp.Arm.Stable.{Stable, answer-Preserves, require-Preserves, a_expect-Preserves}
use litearm_cpp.Arm.Inert.{Inert, inert-Stable, write_cmd-Preserves}
use litearm_cpp.Arm.Calls.{Step, step, steps, child}
use litearm_cpp.Arm.Calls.Rules.{
  reject_if_cart_in_flight-Preserves, call-Preserves, get_state-Preserves,
  wait_until_link_lost-Preserves,
}
use litearm_cpp.Arm.Guards.{admitted, require_lem}
use litearm_cpp.Arm.Valid.{has_pid, UpTo, IsValid, IsAt, IsAt-Inert}
use litearm_cpp.Arm.Valid.Close.{IsShut, close-IsShut, zero_g_stop-IsAt, zg_keepalive-IsAt}
use litearm_cpp.Arm.Valid.Connect.{connect-IsAt}

module _ (floats : Floats) where
  pid_here :
      (pid : Option ℕ) (current : ℕ) (ack_open : Bool)
      → has_pid pid ≡ ack_open
      → ack_open ≡ true
      → is_own floats pid current ≡ true
      → pid ≡ some current
  pid_here none current ack_open s o own = cc
  pid_here (some pid) current ack_open s o own = ground (arith, own)

  later_known : (pid : Option ℕ) (current k : ℕ) → UpTo current pid → UpTo (current + suc k) pid
  later_known none current k h = tt
  later_known (some pid) current k h = omega (arith, h)

module _ (floats : Floats) (dfu : Bool) where
  abbrev At : Arm floats → Type 0
  At = IsAt floats dfu

  -- Valid, and open in this process.
  abbrev Here : Arm floats → Type 0
  Here arm = At arm × (arm.ack_open ≡ true) × (is_own floats arm.pid arm.current_pid ≡ true)

  Here-Inert : Inert floats Here
  Here-Inert arm box later sent writes (h, o, own) =
      (IsAt-Inert floats dfu arm box later sent writes h, o, own)

  at_of : (arm : Arm floats) → Here arm → At arm
  at_of arm h = h.0

  here : Stable floats Here
  here = inert-Stable floats Here Here-Inert

  let_in :
      (arm : Arm floats)
      → At arm
      → (r : Result (Unit {0})) → admitted floats arm ≡ r
      → Ends Here At r arm
  let_in arm h (err e) same = h
  let_in arm h (ok u) same = (h, ground (arith, same), ground (arith, same))

  require-Yields : Yields At Here At (require floats)
  require-Yields = record {
    leads = λ arm h.
        subst (λ (out : Result (Unit {0}) × Arm floats). Ends Here At (out.0) (out.1))
          (sym (require_lem floats arm)) (let_in arm h (admitted floats arm) refl);
  }

  kept : {R : Type 0} (m : Act floats R) → Preserves Here m → Yields Here Here At m
  kept m h = Yields-Preserves m (λ arm u. u) at_of h

  -- After a command that is acknowledged, the session is open in this process.
  cmd_expect_ack-Yields :
      (cmd : ℕ) (payload : List ℕ) (timeout : ℕ)
      → Yields At Here At (cmd_expect_ack floats cmd payload timeout)
  unfolding cmd_expect_ack
  cmd_expect_ack-Yields cmd payload timeout = Yields-bind _ _ require-Yields λ u.
      Yields-bind _ _ (kept _ (write_cmd-Preserves floats Here Here-Inert cmd payload true)) λ u.
        Yields-bind _ _
          (kept _ (a_expect-Preserves floats Here here.linked 0x45 timeout true (some cmd) false))
          λ r. kept _ (Preserves-pure Here tt)

  spawn-At : (arm : Arm floats) → Here arm → At (spawn floats arm)
  spawn-At arm ((v, d), o, own) = (
    record {
      linked = v.linked;
      stamped = v.stamped;
      cleared = v.cleared;
      gone = v.gone;
      bounded = v.bounded;
      threaded = λ e. refl;
      owned = λ e. pid_here floats arm.pid arm.current_pid arm.ack_open v.stamped o own;
      numbered = omega arith;
      known = v.known;
    },
    d,
  )

  child-At : (k : ℕ) (arm : Arm floats) → At arm → At (child floats k arm)
  child-At k arm (v, d) = (
    record {
      linked = v.linked;
      stamped = v.stamped;
      cleared = v.cleared;
      gone = v.gone;
      bounded = v.bounded;
      threaded = v.threaded;
      owned = λ e. ground (arith, e, v.numbered);
      numbered = omega (arith, v.numbered);
      known = later_known floats arm.pid arm.current_pid k v.known;
    },
    d,
  )

  at_weak : {R : Type 0} (m : Act floats R) → Preserves At m → Yields At At At m
  at_weak m h = Yields-Preserves m (λ arm u. u) (λ arm u. u) h

  at : Stable floats At
  at = inert-Stable floats At (IsAt-Inert floats dfu)

  zero_g_start-At : (period : ℕ) → Preserves At (zero_g_start floats period)
  unfolding zero_g_start
  zero_g_start-At period =
      let begin = Preserves-Yields _ (
        Yields-bind _ _ (cmd_expect_ack-Yields 0x06 (1 ∷ []) 1200)
          λ u. Yields-modify (spawn floats) spawn-At) in
      Preserves-bind At _ _ (Preserves-throw_if At _ _) λ u.
        Preserves-bind At _ _ (Preserves-gets At _) λ idle.
          Preserves-bind At _ _
            (Preserves-if At idle _ _ (reject_if_cart_in_flight-Preserves floats At at)
              (Preserves-pure At tt))
            λ u.
              Preserves-bind At _ _ (Preserves-gets At _)
                λ active. Preserves-if At active _ _ (Preserves-pure At tt) begin

  close-At : Preserves At (close floats)
  close-At = record { holds = λ arm h. (close-IsShut floats dfu arm h).1.0 }

  reconnect-At : (port : Option (List ℕ)) (plug : Plug) → Preserves At (reconnect floats port plug)
  unfolding reconnect
  reconnect-At port plug = Preserves-bind At _ _ close-At λ u. connect-IsAt floats dfu port plug

  IsShut-ends :
      (r : Result (Unit {0})) (arm : Arm floats)
      → (r ≡ ok tt) × IsShut floats dfu arm
      → Ends (IsShut floats dfu) (IsShut floats dfu) r arm
  IsShut-ends (ok u) arm (e, h) = h
  IsShut-ends (err f) arm (e, h) = h

  close-Yields : Yields At (IsShut floats dfu) (IsShut floats dfu) (close floats)
  close-Yields = record {
    leads = λ arm h.
        IsShut-ends ((close floats arm).0) ((close floats arm).1) (close-IsShut floats dfu arm h);
  }

  hand_over-IsValid :
      (arm : Arm floats) → IsShut floats dfu arm → IsValid floats (hand_over floats arm)
  hand_over-IsValid arm ((v, d), o) = record {
    linked = v.linked;
    stamped = v.stamped;
    cleared = v.cleared;
    gone = λ e. o;
    bounded = v.bounded;
    threaded = v.threaded;
    owned = v.owned;
    numbered = v.numbered;
    known = v.known;
  }

  handed : Yields (IsShut floats dfu) (IsValid floats) (IsValid floats) (modify (hand_over floats))
  handed = Yields-modify _ hand_over-IsValid

  given_over : Yields At (IsValid floats) (IsValid floats) (do
    catch_all (close floats) (λ e. do modify (hand_over floats); throw e)
    modify (hand_over floats))
  given_over =
      Yields-bind _ _
        (Yields-catch _ _ close-Yields λ e. Yields-bind _ _ handed λ u. Yields-throw e λ arm v. v)
        λ u. handed

  before : {R : Type 0} (m : Act floats R) → Preserves At m → Yields At At (IsValid floats) m
  before m h = Yields-Preserves m (λ arm u. u) (λ arm u. u.0) h

  enter_dfu-IsValid :
      (timeout : ℕ) → Yields At (IsValid floats) (IsValid floats) (enter_dfu floats timeout)
  unfolding enter_dfu
  enter_dfu-IsValid timeout =
      Yields-bind _ _ (before _ (require-Preserves floats At at.linked)) λ u.
        Yields-bind _ _ (before _ (get_state-Preserves floats At at true 500)) λ st.
          Yields-bind _ _ (before _ (Preserves-throw_if At _ _)) λ u.
            Yields-bind _ _ (before _ (at.commanded 0x15 [])) λ u.
              Yields-bind _ _
                (before _ (answer-Preserves floats At at.linked 0x45 1200 (some 0x15)))
                λ u.
                  Yields-bind _ _ (before _ (wait_until_link_lost-Preserves floats At at timeout))
                    λ lost. Yields-bind _ _ (before _ (Preserves-throw_if At _ _)) λ u. given_over

  stays :
      {R : Type 0} (m : Act floats R)
      → Preserves At m
      → Yields At (IsValid floats) (IsValid floats) m
  stays m h = Yields-weaken m (at_weak m h) (λ arm u. u.0) (λ arm u. u.0)

  step-Yields : (s : Step floats) → Yields At (IsValid floats) (IsValid floats) (step floats s)
  unfolding step
  step-Yields (Step.plain c) = stays _ (call-Preserves floats At at c)
  step-Yields (Step.zero_g_start period) = stays _ (zero_g_start-At period)
  step-Yields (Step.zero_g_stop raise_on_lost) = stays _ (zero_g_stop-IsAt floats dfu raise_on_lost)
  step-Yields Step.zg_keepalive = stays _ (zg_keepalive-IsAt floats dfu)
  step-Yields Step.close = stays _ close-At
  step-Yields (Step.enter_dfu timeout) = enter_dfu-IsValid timeout
  step-Yields (Step.connect port plug) = stays _ (connect-IsAt floats dfu port plug)
  step-Yields (Step.reconnect port plug) = stays _ (reconnect-At port plug)
  step-Yields (Step.fork k) = stays _ (Preserves-modify At _ (child-At k))

module _ (floats : Floats) where
  both_valid :
      (r : Result (Unit {0})) (arm : Arm floats)
      → Ends (IsValid floats) (IsValid floats) r arm
      → IsValid floats arm
  both_valid (ok u) arm h = h
  both_valid (err e) arm h = h

  pub step-IsValid : (s : Step floats) → Preserves (IsValid floats) (step floats s)
  step-IsValid s = record {
    holds = λ arm v.
        both_valid ((step floats s arm).0) ((step floats s arm).1)
          ((step-Yields floats arm.dfu_entered s).leads arm (v, refl));
  }

  steps-Preserves : (ss : List (Step floats)) → Preserves (IsValid floats) (steps floats ss)
  unfolding steps
  steps-Preserves [] = Preserves-pure (IsValid floats) tt
  steps-Preserves (s ∷ ss) =
      Preserves-bind (IsValid floats) _ _ (Preserves-gets (IsValid floats) (λ arm. arm.terminated))
        λ ended. Preserves-if (IsValid floats) ended _ _ (Preserves-pure (IsValid floats) tt) (
          Preserves-bind (IsValid floats) _ _
            (Preserves-attempt (IsValid floats) _ (step-IsValid s)) λ caught. steps-Preserves ss)

  -- Whatever calls are made, whatever they throw, and however the process is forked, a valid session
  -- stays valid: the transport, the queues and the process number come and go together, a closed
  -- session keeps no firmware text, no firmware version, no joint count and no Cartesian support (the
  -- limits that were read stay), a device that was handed over leaves the session closed, the limits
  -- that are kept are finite and in order, and zero gravity runs only for the open session of this
  -- process.
  pub steps-IsValid :
      (ss : List (Step floats)) (arm : Arm floats)
      → IsValid floats arm
      → IsValid floats ((steps floats ss arm).1)
  steps-IsValid ss arm v = (steps-Preserves ss).holds arm v
