-- ===== src/Arm/Valid/Connect.antt =====
-- Connecting keeps the invariant: it ends with an open session, or it throws from a valid one.
use litearm_cpp.Base.{
  ℕ, zero, suc, ◌≡◌, refl, sym, subst, arith, List, [], Option, none, some, Bool, true, false,
  if◌then◌else◌, Bool-cases, inl, inr,
}
use litearm_cpp.Errors.{Failure, Result, ok, err, transport, arm_is_in_dfu}
use litearm_cpp.Action.{gets, modify, catch_all, ◌>>=◌}
use litearm_cpp.Action.Preserves.{
  Preserves, Preserves-bind, Preserves-modify, Preserves-gets, Preserves-pure, Preserves-if,
  Preserves-throw_if, Preserves-result, Preserves-catch, preserves_rules,
}
use litearm_cpp.Action.Yields.{
  Ends, Yields, Yields-Preserves, Yields-bind, Yields-catch, Yields-throw, Yields-modify,
  Yields-weaken, Preserves-Yields,
}
use litearm_cpp.Floats.{Floats}
use litearm_cpp.Protocol.Version.{FirmwareVersion}
use litearm_cpp.State.{RobotState}
use litearm_cpp.Params.{JointParam}
use litearm_cpp.Cart.{CartPending}
use litearm_cpp.Arm.{Arm, Act, reject_if_in_dfu, reject_if_wrong_process}
use litearm_cpp.Arm.Connect.{
  all_sane, set_limits, refresh_limits, handshake, meet, open_session, trim_text, connect_new,
  connect, all_joint_params, close, close_and_throw, set_port, set_firmware, set_version, set_n,
  set_supported, set_silent, probe_once, probe_next, probe_loop, cart_probe, joints_of, start, Plug,
}
use litearm_cpp.Arm.Stable.{
  Stable, answer-Preserves, require-Preserves, a_expect-Preserves, now_s-Preserves,
  with_cart-Preserves,
}
use litearm_cpp.Arm.Inert.{inert-Stable, raw_write-Preserves, write_query-Preserves}
use litearm_cpp.Arm.Calls.Rules.{joint_params_from-Preserves, read_status-Preserves}
use litearm_cpp.Arm.Valid.{IsAt, IsLive, IsLive-Inert}
use litearm_cpp.Arm.Valid.Close.{IsShut, close-IsShut}

module _ (floats : Floats) where
  ended :
      (r : Result (Unit {0})) (arm : Arm floats)
      → (r ≡ ok tt) × IsShut floats false arm
      → Ends (IsAt floats false) (IsAt floats false) r arm
  ended (ok u) arm (e, h) = h.0
  ended (err f) arm (e, h) = h.0

  abbrev Live : Arm floats → Type 0
  Live = IsLive floats

  abbrev Usable : Arm floats → Type 0
  Usable = IsAt floats false

  live : Stable floats Live
  live = inert-Stable floats Live (IsLive-Inert floats)

  open live use {linked}

  usable_of : (arm : Arm floats) → Live arm → Usable arm
  usable_of arm (v, d, o) = (v, d)

  same : (arm : Arm floats) → Live arm → Live arm
  same arm h = h

  -- What is preserved of an open session.
  kept : {R : Type 0} (m : Act floats R) → Preserves Live m → Yields Live Live Usable m
  kept m h = Yields-Preserves m same usable_of h

  -- A change of the facts that an open session holds.
  facts-Live :
      (arm : Arm floats) (firmware : List ℕ) (ver : Option FirmwareVersion) (n : ℕ)
      (supported silent : Bool) (limits : List (JointParam floats.Double))
      → all_sane floats limits ≡ true
      → Live arm
      → Live (record arm {
        firmware = firmware;
        fw_version = ver;
        n = n;
        cart_supported = supported;
        cart_probe_silent = silent;
        limits = limits;
      })
  facts-Live arm firmware ver n supported silent limits sane (v, d, o) = (
    record {
      linked = v.linked;
      stamped = v.stamped;
      cleared = λ e. cc;
      gone = λ e. cc;
      bounded = sane;
      threaded = v.threaded;
      owned = v.owned;
      numbered = v.numbered;
      known = v.known;
    },
    d,
    o,
  )

  set_firmware-Live : (t : List ℕ) → Preserves Live (modify (set_firmware floats t))
  set_firmware-Live t = Preserves-modify Live _ λ arm h.
      facts-Live arm t arm.fw_version arm.n arm.cart_supported arm.cart_probe_silent arm.limits
        h.0.bounded h

  set_version-Live : (ver : FirmwareVersion) → Preserves Live (modify (set_version floats ver))
  set_version-Live ver = Preserves-modify Live _ λ arm h.
      facts-Live arm arm.firmware (some ver) arm.n arm.cart_supported arm.cart_probe_silent
        arm.limits h.0.bounded h

  set_n-Live : (n : ℕ) → Preserves Live (modify (set_n floats n))
  set_n-Live n = Preserves-modify Live _ λ arm h.
      facts-Live arm arm.firmware arm.fw_version n arm.cart_supported arm.cart_probe_silent
        arm.limits h.0.bounded h

  set_supported-Live : (c : Bool) → Preserves Live (modify (set_supported floats c))
  set_supported-Live c = Preserves-modify Live _ λ arm h.
      facts-Live arm arm.firmware arm.fw_version arm.n c arm.cart_probe_silent arm.limits
        h.0.bounded h

  set_silent-Live : (c : Bool) → Preserves Live (modify (set_silent floats c))
  set_silent-Live c = Preserves-modify Live _ λ arm h.
      facts-Live arm arm.firmware arm.fw_version arm.n arm.cart_supported c arm.limits h.0.bounded h

  set_limits-Live :
      (ps : List (JointParam floats.Double))
      → all_sane floats ps ≡ true
      → Preserves Live (modify (set_limits floats ps))
  set_limits-Live ps sane = Preserves-modify Live _ λ arm h.
      facts-Live arm arm.firmware arm.fw_version arm.n arm.cart_supported arm.cart_probe_silent ps
        sane h

  checked :
      (ps : List (JointParam floats.Double))
      → all_sane floats (if all_sane floats ps then ps else []) ≡ true
  unfolding all_sane
  checked ps = elim (Bool-cases (all_sane floats ps)) [ inl e ↦ rw e e | inr e ↦ rw e refl ]

  refresh_limits-Live : Preserves Live (refresh_limits floats)
  unfolding refresh_limits all_joint_params
  refresh_limits-Live =
      let fetched =
        Preserves-bind Live (gets (λ arm. arm.n)) _ (Preserves-gets Live (λ arm. arm.n))
          λ n. joint_params_from-Preserves floats Live live n 0 in
      Preserves-bind Live _ _ (set_limits-Live [] (unfold all_sane in refl)) λ u.
        Preserves-bind Live _ _ (Preserves-catch Live _ _ fetched λ e. Preserves-pure Live [])
          λ ps. set_limits-Live (if all_sane floats ps then ps else []) (checked ps)

  probe_once-Live : Preserves Live (probe_once floats)
  probe_once-Live = Preserves-bind Live _ _ (require-Preserves floats Live linked) λ u.
      Preserves-bind Live _ _
        (a_expect-Preserves floats Live linked 0x46 1000 false (some 0x3a) false)
        λ r. Preserves-pure Live _

  probe_next-Live :
      (rest : Act floats Bool) (e : Failure)
      → Preserves Live rest
      → Preserves Live (probe_next floats rest e)
  probe_next-Live rest e h = search preserves_rules

  probe_loop-Live : (left : ℕ) → Preserves Live (probe_loop floats left)
  unfolding probe_loop
  probe_loop-Live zero = search (preserves_rules, set_silent-Live)
  probe_loop-Live (suc left) =
      Preserves-bind Live _ _ (write_query-Preserves floats Live (IsLive-Inert floats) 0x3a []) λ u.
        Preserves-catch Live _ _ probe_once-Live
          λ e. probe_next-Live (probe_loop floats left) e (probe_loop-Live left)

  cart_probe-Live : Preserves Live (cart_probe floats)
  unfolding cart_probe
  cart_probe-Live = search (preserves_rules, set_silent-Live, probe_loop-Live)

  close-Yields : Yields Live Usable Usable (close floats)
  close-Yields = record {
    leads = λ arm (v, d, o).
        ended ((close floats arm).0) ((close floats arm).1) (close-IsShut floats false arm (v, d));
  }

  close_and_throw-Yields :
      {R : Type 0} (e : Failure) → Yields Live Live Usable (close_and_throw floats {R = R} e)
  close_and_throw-Yields e = Yields-bind _ _ close-Yields λ u. Yields-throw e λ arm h. h

  joints_of-Yields :
      (st : Option (RobotState floats.Double)) → Yields Live Live Usable (joints_of floats st)
  joints_of-Yields none = close_and_throw-Yields transport
  joints_of-Yields (some st) = kept _ (Preserves-pure Live _)

  -- What closes the session before it throws on.
  guarded :
      {R : Type 0} (m : Act floats R)
      → Preserves Live m
      → Yields Live Live Usable (catch_all m (close_and_throw floats))
  guarded m h =
      Yields-catch m (close_and_throw floats) (Yields-Preserves m same same h)
        close_and_throw-Yields

  handshake-Yields : Yields Live Live Usable (handshake floats)
  unfolding handshake
  handshake-Yields =
      Yields-bind _ _ (kept _ (raw_write-Preserves floats Live (IsLive-Inert floats) 0x41 [])) λ u.
        Yields-bind _ _ (guarded _ (answer-Preserves floats Live linked 0x44 1500 (some 0x41)))
          λ payload. Yields-bind _ _ (kept _ (set_firmware-Live (trim_text payload))) λ u.
            Yields-bind _ _ (kept _ (Preserves-gets Live _)) λ firmware.
              Yields-bind _ _ (kept _ (Preserves-result Live _)) λ ver.
                Yields-bind _ _ (kept _ (Preserves-gets Live _)) λ least.
                  Yields-bind _ _ (guarded _ (Preserves-result Live _))
                    λ accepted. kept _ (set_version-Live accepted)

  meet-Yields : Yields Live Live Usable (meet floats)
  unfolding meet
  meet-Yields = Yields-bind _ _ (kept _ (read_status-Preserves floats Live live 1000)) λ st.
      Yields-bind _ _ (joints_of-Yields st) λ joints.
        Yields-bind _ _ (kept _ (set_n-Live joints)) λ u.
          Yields-bind _ _ (guarded _ cart_probe-Live)
            λ supported. kept _ (set_supported-Live supported)

  set_port-Usable :
      (port : List ℕ) (arm : Arm floats) → Usable arm → Usable (set_port floats port arm)
  set_port-Usable port arm (v, d) = (
    record {
      linked = v.linked;
      stamped = v.stamped;
      cleared = v.cleared;
      gone = v.gone;
      bounded = v.bounded;
      threaded = v.threaded;
      owned = v.owned;
      numbered = v.numbered;
      known = v.known;
    },
    d,
  )

  start-Live : (port : List ℕ) (arm : Arm floats) → Usable arm → Live (start floats port arm)
  start-Live port arm (v, d) = (
    record {
      linked = refl;
      stamped = refl;
      cleared = λ e. cc;
      gone = λ e. cc;
      bounded = v.bounded;
      threaded = v.threaded;
      owned = λ e. refl;
      numbered = v.numbered;
      known = omega arith;
    },
    d,
    refl,
  )

  usable : {R : Type 0} (m : Act floats R) → Preserves Usable m → Yields Usable Usable Usable m
  usable m h = Yields-Preserves m (λ arm u. u) (λ arm u. u) h

  open_session-Yields :
      (port : List ℕ) (opening : Option Failure)
      → Yields Usable Live Usable (open_session floats port opening)
  unfolding open_session
  open_session-Yields port opening =
      let now = kept _ (now_s-Preserves floats Live linked) in
      let cart =
        λ (f : CartPending → CartPending). kept _ (with_cart-Preserves floats Live linked f) in
      Yields-bind _ _ (usable _ (Preserves-modify Usable _ (set_port-Usable port))) λ u.
        Yields-bind _ _ (usable _ (Preserves-result Usable _)) λ u.
          Yields-bind _ _ (Yields-modify _ (start-Live port)) λ u.
            Yields-bind _ _ (kept _ (Preserves-gets Live _)) λ inflight.
              Yields-bind _ _ now λ cleared. Yields-bind _ _ (cart _) λ u.
                Yields-bind _ _ now
                  λ t. Yields-bind _ _ (kept _ (Preserves-gets Live _)) λ ttl. cart _

  close-Usable : Preserves Usable (close floats)
  close-Usable = record { holds = λ arm h. (close-IsShut floats false arm h).1.0 }

  connect_new-Yields :
      (port : Option (List ℕ)) (plug : Plug)
      → Yields Usable Live Usable (connect_new floats port plug)
  unfolding connect_new
  connect_new-Yields port plug = Yields-bind _ _ (usable _ (Preserves-gets Usable _)) λ linked.
      Yields-bind _ _
        (usable _ (Preserves-if Usable linked _ _ close-Usable (Preserves-pure Usable tt)))
        λ u. Yields-bind _ _ (usable _ (Preserves-gets Usable _)) λ p.
          Yields-bind _ _ (usable _ (Preserves-throw_if Usable _ _)) λ u.
            Yields-bind _ _ (open_session-Yields p plug.opening) λ u.
              Yields-bind _ _ handshake-Yields
                λ u. Yields-bind _ _ meet-Yields λ u. kept _ refresh_limits-Live

  connect-Usable :
      (port : Option (List ℕ)) (plug : Plug) → Preserves Usable (connect floats port plug)
  unfolding connect
  connect-Usable port plug =
      let fresh : Preserves Usable (connect_new floats port plug) =
        Preserves-Yields _
          (Yields-weaken _ (connect_new-Yields port plug) usable_of (λ arm h. h)) in
      let dfu : Preserves Usable (reject_if_in_dfu floats) =
        unfold reject_if_in_dfu in record { holds = λ arm h. h } in
      let own : Preserves Usable (reject_if_wrong_process floats) =
        unfold reject_if_wrong_process in record { holds = λ arm h. h } in
      Preserves-bind Usable _ _ dfu λ u. Preserves-bind Usable _ _ own λ u.
        Preserves-bind Usable _ _ (Preserves-gets Usable _)
          λ done. Preserves-if Usable done _ _ (Preserves-pure Usable tt) fresh

  -- A session that was handed over refuses to connect, and nothing changes.
  pub connect-gone :
      (port : Option (List ℕ)) (plug : Plug) (arm : Arm floats)
      → arm.dfu_entered ≡ true
      → connect floats port plug arm ≡ (err arm_is_in_dfu, arm)
  unfolding connect reject_if_in_dfu ◌>>=◌
  connect-gone port plug arm d = rw d refl

  pub connect-IsAt :
      (dfu : Bool) (port : Option (List ℕ)) (plug : Plug)
      → Preserves (IsAt floats dfu) (connect floats port plug)
  connect-IsAt false port plug = connect-Usable port plug
  connect-IsAt true port plug = record {
    holds = λ arm h.
        subst (λ (out : Result (Unit {0}) × Arm floats). IsAt floats true (out.1))
          (sym (connect-gone port plug arm h.1)) h;
  }
