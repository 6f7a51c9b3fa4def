-- ===== src/Arm/Silent.antt =====
-- A session that is closed, was handed over, or belongs to another process writes no frame.
use litearm_cpp.Base.{
  ℕ, suc, ◌+◌, ◌≡◌, refl, sym, subst, ◌∙◌, arith, List, [], ◌∷◌, Option, none, some, Bool, true,
  false, not, ◌&&◌, ◌||◌, Bool-cases, inl, inr, if◌then◌else◌,
}
use litearm_cpp.Errors.{Failure, Result, ok, err, arm_is_in_dfu, not_connected, forked_session}
use litearm_cpp.Action.{gets, modify, pure, attempt, ◌>>=◌, ◌>>◌, then_do}
use litearm_cpp.Action.Preserves.{
  Preserves, Preserves-bind, Preserves-modify, Preserves-gets, Preserves-pure, Preserves-if,
  Preserves-throw_if, preserves_rules,
}
use litearm_cpp.Action.Yields.{
  Ends, Yields, Yields-Preserves, Yields-bind, Yields-if, Yields-modify,
}
use litearm_cpp.Floats.{Floats}
use litearm_cpp.Arm.{Arm, Act, SentFrame, is_own, require, cmd_expect_ack, write_query, write_cmd}
use litearm_cpp.Arm.Guards.{admitted, require_lem}
use litearm_cpp.Arm.Hover.{zero_g_start, join, leave, zero_g_stop, zg_keepalive, is_kept_alive}
use litearm_cpp.Arm.Connect.{
  clear_session_state, stop_quietly, close_own, close, connect, reconnect, Plug,
}
use litearm_cpp.Arm.Device.{enter_dfu}
use litearm_cpp.Arm.Stable.{Stable}
use litearm_cpp.Arm.Calls.{Step, step, steps, child}
use litearm_cpp.Arm.Calls.Rules.{reject_if_cart_in_flight-Preserves, call-Preserves}
use litearm_cpp.Arm.Valid.{IsValid, UpTo}
use litearm_cpp.Arm.Valid.Close.{IsShut, close-IsShut}
use litearm_cpp.Arm.Valid.Connect.{connect-gone}
use litearm_cpp.Arm.Valid.Reach.{step-IsValid}

module _ (floats : Floats) where
  -- Handed over, of another process, or closed.
  abbrev pub is_shut : Arm floats → Bool
  is_shut arm = arm.dfu_entered || not (is_own floats arm.pid arm.current_pid) || not arm.ack_open

  -- Whether a step may open a session.
  abbrev pub opens : Step floats → Bool
  opens (Step.connect port plug) = true
  opens (Step.reconnect port plug) = true
  opens s = false

  abbrev pub none_opens : List (Step floats) → Bool
  none_opens [] = true
  none_opens (st ∷ sts) = not (opens st) && none_opens sts

  still_shut :
      (pid : Option ℕ) (current k : ℕ) (dfu ack_open : Bool)
      → UpTo current pid
      → (dfu || not (is_own floats pid current) || not ack_open) ≡ true
      → (dfu || not (is_own floats pid (current + suc k)) || not ack_open) ≡ true
  still_shut none current k dfu ack_open known h = h
  still_shut (some pid) current k dfu ack_open known h = ground (arith, known)

  shut_refused :
      (arm : Arm floats) → is_shut arm ≡ true → (e : Failure) × (admitted floats arm ≡ err e)
  shut_refused arm h = elim (Bool-cases arm.dfu_entered) [
    | inl d ↦ (arm_is_in_dfu, ground (arith, d))
    | inr d ↦ elim (Bool-cases (is_own floats arm.pid arm.current_pid)) [
      | inl o ↦ (not_connected, ground (arith, d, o, h))
      | inr o ↦ (forked_session, ground (arith, d, o))
    ]
  ]

  -- What begins with the guard ends there.
  required :
      {R : Type 0} (f : Unit {0} → Act floats R) (arm : Arm floats)
      → is_shut arm ≡ true
      → (e : Failure) × ((require floats >>= f) arm ≡ (err e, arm))
  unfolding ◌>>=◌
  required f arm h =
      let (e, refused) = shut_refused arm h in (e, rw (require_lem floats arm, refused) refl)

  module _ (gone : Bool) (frames : List SentFrame) where
    abbrev pub IsSilent : Arm floats → Type 0
    IsSilent arm = (arm.dfu_entered ≡ gone) × (is_shut arm ≡ true) × (arm.sent ≡ frames)

    shut_of : (arm : Arm floats) → IsSilent arm → is_shut arm ≡ true
    shut_of arm (d, h, s) = h

    -- An action that begins with the guard.
    after_guard :
        {R : Type 0} (f : Unit {0} → Act floats R) → Preserves IsSilent (require floats >>= f)
    after_guard f = record {
      holds = λ arm h.
          let (e, same) = required f arm (shut_of arm h) in
          subst (λ (out : Result _ × Arm floats). IsSilent (out.1)) (sym same) h;
    }

    write_query-Silent :
        (cmd : ℕ) (payload : List ℕ) → Preserves IsSilent (write_query floats cmd payload)
    unfolding write_query
    write_query-Silent cmd payload = after_guard _

    write_cmd-Silent :
        (cmd : ℕ) (payload : List ℕ) (guarded : Bool)
        → Preserves IsSilent (write_cmd floats cmd payload guarded)
    unfolding write_cmd
    write_cmd-Silent cmd payload guarded = search (preserves_rules, write_query-Silent)

    silent : Stable floats IsSilent
    silent = record {
      linked = λ arm box later h. h;
      queried = λ cmd payload known. write_query-Silent cmd payload;
      commanded = λ cmd payload. write_cmd-Silent cmd payload true;
      stopped = λ cmd known. write_cmd-Silent cmd [] false;
    }

    cmd_expect_ack-then :
        {R : Type 0} (cmd : ℕ) (payload : List ℕ) (timeout : ℕ) (f : Unit {0} → Act floats R)
        → Preserves IsSilent (cmd_expect_ack floats cmd payload timeout >>= f)
    unfolding cmd_expect_ack ◌>>=◌
    cmd_expect_ack-then cmd payload timeout f = record {
      holds = λ arm h.
          let (e, refused) = shut_refused arm (shut_of arm h) in
          rw (require_lem floats arm, refused) h;
    }

    zero_g_start-Silent : (period : ℕ) → Preserves IsSilent (zero_g_start floats period)
    unfolding zero_g_start
    zero_g_start-Silent period = Preserves-bind IsSilent _ _ (Preserves-throw_if IsSilent _ _) λ u.
        Preserves-bind IsSilent _ _ (Preserves-gets IsSilent _) λ idle.
          Preserves-bind IsSilent _ _
            (Preserves-if IsSilent idle _ _
              (reject_if_cart_in_flight-Preserves floats IsSilent silent)
              (Preserves-pure IsSilent tt))
            λ u. Preserves-bind IsSilent _ _ (Preserves-gets IsSilent _) λ active.
              Preserves-if IsSilent active _ _ (Preserves-pure IsSilent tt)
                (cmd_expect_ack-then 0x06 (1 ∷ []) 1200 _)

    leave-Silent : (was_session : Bool) → Preserves IsSilent (leave floats was_session)
    unfolding leave
    leave-Silent was_session = search (preserves_rules, write_cmd-Silent)

    joined : Preserves IsSilent (modify (join floats))
    joined = Preserves-modify IsSilent (join floats) (λ arm h. h)

    zero_g_stop-Silent :
        (raise_on_lost : Bool) → Preserves IsSilent (zero_g_stop floats raise_on_lost)
    unfolding zero_g_stop
    zero_g_stop-Silent raise_on_lost = search (preserves_rules, joined, leave-Silent) depth 12

    stop_quietly-Silent : Preserves IsSilent (stop_quietly floats)
    unfolding stop_quietly
    stop_quietly-Silent = search (preserves_rules, zero_g_stop-Silent) depth 12

    IsQuiet : Arm floats → Type 0
    IsQuiet arm = arm.sent ≡ frames

    quiet :
        {R : Type 0} (m : Act floats R) → Preserves IsSilent m → Yields IsSilent IsSilent IsQuiet m
    unfolding IsQuiet
    quiet m h = Yields-Preserves m (λ arm u. u) (λ arm (d, u, s). s) h

    close-Quiet : Yields IsSilent IsQuiet IsQuiet (close floats)
    unfolding close close_own clear_session_state IsQuiet
    close-Quiet = Yields-bind _ _ (quiet _ (Preserves-gets IsSilent _)) λ foreign.
        Yields-if foreign _ _ (Yields-modify _ λ arm (d, u, s). s)
          (Yields-bind _ _ (quiet _ stop_quietly-Silent) λ u. Yields-modify _ λ arm (d, u, s). s)

    silenced :
        (r : Result (Unit {0})) (arm : Arm floats)
        → Ends IsQuiet IsQuiet r arm
        → IsShut floats gone arm
        → IsSilent arm
    unfolding IsQuiet
    silenced (ok u) arm s ((v, d), o) = (d, ground (arith, o), s)
    silenced (err e) arm s ((v, d), o) = (d, ground (arith, o), s)

    close-Silent :
        (arm : Arm floats) → IsValid floats arm → IsSilent arm → IsSilent ((close floats arm).1)
    close-Silent arm v (d, h, s) =
        silenced ((close floats arm).0) ((close floats arm).1) (close-Quiet.leads arm (d, h, s))
          (close-IsShut floats gone arm (v, d)).1

    not_kept :
        (arm : Arm floats)
        → IsValid floats arm
        → is_shut arm ≡ true
        → is_kept_alive floats arm ≡ false
    not_kept arm v h = elim (Bool-cases (is_kept_alive floats arm)) [
      | inl k ↦ ground (arith, v.owned k, v.stamped, v.gone, h)
      | inr k ↦ k
    ]

    keepalive-Silent :
        (arm : Arm floats)
        → IsValid floats arm
        → IsSilent arm
        → IsSilent ((zg_keepalive floats arm).1)
    unfolding zg_keepalive ◌>>=◌ gets pure
    keepalive-Silent arm v h = rw (not_kept arm v (shut_of arm h)) h

    enter_dfu-Silent : (timeout : ℕ) → Preserves IsSilent (enter_dfu floats timeout)
    unfolding enter_dfu
    enter_dfu-Silent timeout = after_guard _

    child-Silent :
        (k : ℕ) (arm : Arm floats)
        → IsValid floats arm
        → IsSilent arm
        → IsSilent (child floats k arm)
    child-Silent k arm v (d, h, s) =
        (d, still_shut arm.pid arm.current_pid k arm.dfu_entered arm.ack_open v.known h, s)

    connect-Silent :
        (port : Option (List ℕ)) (plug : Plug) (arm : Arm floats)
        → gone ≡ true
        → IsSilent arm
        → IsSilent ((connect floats port plug arm).1)
    connect-Silent port plug arm g (d, h, s) =
        subst (λ (out : Result (Unit {0}) × Arm floats). IsSilent (out.1))
          (sym (connect-gone floats port plug arm (d ∙ g))) (d, h, s)

    reconnect-Silent :
        (port : Option (List ℕ)) (plug : Plug) (arm : Arm floats)
        → gone ≡ true
        → IsValid floats arm
        → IsSilent arm
        → IsSilent ((reconnect floats port plug arm).1)
    unfolding reconnect ◌>>=◌
    reconnect-Silent port plug arm g v h =
        then_connect ((close floats arm).0) ((close floats arm).1) (close-Silent arm v h)
      where
        then_connect :
            (r : Result (Unit {0})) (b : Arm floats)
            → IsSilent b
            → IsSilent ((then_do (λ u. connect floats port plug) (r, b)).1)
        then_connect (ok u) b k = connect-Silent port plug b g k
        then_connect (err e) b k = k

    step-Silent :
        (st : Step floats) (arm : Arm floats)
        → (gone || not (opens st)) ≡ true
        → IsValid floats arm
        → IsSilent arm
        → IsSilent ((step floats st arm).1)
    unfolding step modify
    step-Silent (Step.plain c) arm may v h = (call-Preserves floats IsSilent silent c).holds arm h
    step-Silent (Step.zero_g_start period) arm may v h = (zero_g_start-Silent period).holds arm h
    step-Silent (Step.zero_g_stop raise_on_lost) arm may v h =
        (zero_g_stop-Silent raise_on_lost).holds arm h
    step-Silent Step.zg_keepalive arm may v h = keepalive-Silent arm v h
    step-Silent Step.close arm may v h = close-Silent arm v h
    step-Silent (Step.enter_dfu timeout) arm may v h = (enter_dfu-Silent timeout).holds arm h
    step-Silent (Step.connect port plug) arm may v h = connect-Silent port plug arm (ground arith) h
    step-Silent (Step.reconnect port plug) arm may v h =
        reconnect-Silent port plug arm (ground arith) v h
    step-Silent (Step.fork k) arm may v h = child-Silent k arm v h

    either_does :
        (P : Arm floats → Type 0) (b : Bool) (m other : Act floats (Unit {0})) (arm : Arm floats)
        → P ((m arm).1)
        → P ((other arm).1)
        → P (((if b then m else other) arm).1)
    either_does P true m other arm h g = h
    either_does P false m other arm h g = g

    steps-Silent :
        (sts : List (Step floats)) (arm : Arm floats)
        → (gone || none_opens sts) ≡ true
        → IsValid floats arm
        → IsSilent arm
        → IsSilent ((steps floats sts arm).1)
    unfolding steps pure gets attempt ◌>>=◌
    steps-Silent [] arm may v h = h
    steps-Silent (st ∷ sts) arm may v h =
        let rest =
          steps-Silent sts ((step floats st arm).1) (ground arith)
            ((step-IsValid floats st).holds arm v) (step-Silent st arm (ground arith) v h) in
        either_does IsSilent arm.terminated (pure tt)
          (do attempt (step floats st); steps floats sts) arm h rest

  -- A valid session that is closed, was handed over to the boot loader, or was forked writes no frame
  -- and stays so, whatever calls are made, as long as none connects; after the handover, connecting is
  -- no exception.
  pub steps-silent :
      (sts : List (Step floats)) (arm : Arm floats)
      → IsValid floats arm
      → is_shut arm ≡ true
      → (arm.dfu_entered || none_opens sts) ≡ true
      → let later = (steps floats sts arm).1 in
        (later.sent ≡ arm.sent) × (is_shut later ≡ true) × (later.dfu_entered ≡ arm.dfu_entered)
  steps-silent sts arm v h may =
      let (d, shut, s) = steps-Silent arm.dfu_entered arm.sent sts arm may v (refl, h, refl) in
      (s, shut, d)
