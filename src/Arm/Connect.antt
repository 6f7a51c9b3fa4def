-- ===== src/Arm/Connect.antt =====
-- Opening the session: `connect_impl` and `reconnect` of `src/arm.cpp`, with the probe of
-- `src/cart.cpp`. The discovery of a port and the opening of a transport are arguments.
pub mod Close
pub mod Limits
use litearm_cpp.Base.{
  ℕ, zero, suc, ◌+◌, List, [], ◌∷◌, Option, none, some, Bool, true, false, not, ◌==◌, ◌&&◌, ◌||◌,
  ltb, if◌then◌else◌, length, get_or,
}
use litearm_cpp.Errors.{Failure, Result, ok, err, transport, firmware_mismatch, motion_timeout}
use litearm_cpp.Action.{pure, throw, gets, modify, result, throw_if, catch_all, ◌>>=◌, ◌>>◌}
use litearm_cpp.Floats.{Floats}
use litearm_cpp.Protocol.Frame.{u8}
use litearm_cpp.Protocol.Version.{
  FirmwareVersion, parse_firmware_version, version_lt, litearm, after_prefix, is_space,
}
use litearm_cpp.State.{RobotState}
use litearm_cpp.Ack.{Inbox}
use litearm_cpp.Cart.{CartPending, new_pending, pending, clear_pending}
use litearm_cpp.Params.{JointParam, decode_joint_param, check_idx}
use litearm_cpp.Arm.{
  Arm, Act, is_own, now_s, reject_if_in_dfu, reject_if_wrong_process, require, raw_write,
  write_query, a_expect, answer, with_cart,
}
use litearm_cpp.Arm.Status.{read_status}
use litearm_cpp.Arm.Hover.{zero_g_stop, is_linked}
unfoldable pub use litearm_cpp.Arm.Connect.Close.{
  clear_session_state, abandon_session, unlink, stop_quietly, shut_down, close_own, close,
  close_and_throw,
}
unfoldable pub use litearm_cpp.Arm.Connect.Limits.{
  get_joint_param, joint_params_from, all_joint_params, is_sane, all_sane, set_limits,
  refresh_limits,
}

-- `trim`: the spaces at both ends are left out.
unfoldable pub trim_left : List ℕ → List ℕ
trim_left [] = []
trim_left (c ∷ s) = let rest = trim_left s in if is_space c then rest else c ∷ s

unfoldable pub trim_right : List ℕ → List ℕ
trim_right [] = []
trim_right (c ∷ s) =
    let rest = trim_right s in if is_space c && (length rest == 0) then [] else c ∷ rest

unfoldable pub trim_text : List ℕ → List ℕ
unfolding trim_left trim_right
trim_text s = trim_right (trim_left s)

unfoldable pub same_text : List ℕ → List ℕ → Bool
same_text [] [] = true
same_text (a ∷ s) (b ∷ t) = (a == b) && same_text s t
same_text _ _ = false

abbrev pub cart_absorb_ttl : ℕ → ℕ
cart_absorb_ttl move_timeout = if ltb move_timeout 12000 then 12000 else move_timeout

-- What the operating system answers: the port that is found, and what the opening throws.
pub record Plug : Type 0 where
  pub found : Option (List ℕ)
  pub opening : Option Failure

module _ (floats : Floats) where
  open floats use {Double}

  abbrev is_silence : Failure → Bool
  is_silence motion_timeout = true
  is_silence e = false

  abbrev pub set_silent : Bool → Arm floats → Arm floats
  set_silent silent arm = record arm { cart_probe_silent = silent }

  -- The answer to an attempt of the probe: whether the code of the refusal is not 0.
  abbrev pub probe_once : Act floats Bool
  probe_once = do
    require floats
    r ← a_expect floats 0x46 1000 false (some 0x3a) false
    pure (not ((if ltb 1 (length r.payload) then get_or r.payload 1 0 else 0) == 0))

  abbrev pub probe_next : Act floats Bool → Failure → Act floats Bool
  probe_next rest e = if is_silence e then rest else throw e

  unfoldable pub probe_loop : ℕ → Act floats Bool
  unfolding write_query require a_expect
  probe_loop zero = do modify (set_silent true); pure false
  probe_loop (suc left) = do
    write_query floats 0x3a []
    catch_all probe_once (probe_next (probe_loop left))

  unfoldable pub cart_probe : Act floats Bool
  unfolding probe_loop
  cart_probe = do modify (set_silent false); probe_loop 3

  -- A new object of the answer queues, which keeps the collector of before.
  abbrev pub new_box : CartPending → Inbox Double CartPending
  new_box cart = record {
    queues = λ key. [];
    next_seq = 0;
    dropped = 0;
    state = none;
    status_seq = 0;
    bad_status_frames = 0;
    recv = λ id. none;
    errors = [];
    reader_error = false;
    collector = cart;
  }

  abbrev pub start : List ℕ → Arm floats → Arm floats
  start port arm = record arm {
    tr = some port;
    ack_open = true;
    box = new_box arm.box.collector;
    pid = some arm.current_pid;
  }

  abbrev pub opened : Option Failure → Result (Unit {0})
  opened none = ok tt
  opened (some e) = err e

  abbrev pub set_port : List ℕ → Arm floats → Arm floats
  set_port port arm = record arm { live_port = port }

  abbrev pub set_firmware : List ℕ → Arm floats → Arm floats
  set_firmware firmware arm = record arm { firmware = firmware }

  abbrev pub set_version : FirmwareVersion → Arm floats → Arm floats
  set_version ver arm = record arm { fw_version = some ver }

  abbrev pub set_n : ℕ → Arm floats → Arm floats
  set_n joints arm = record arm { n = joints }

  abbrev pub set_supported : Bool → Arm floats → Arm floats
  set_supported supported arm = record arm { cart_supported = supported }

  -- From the port to the new collector, which inherits the requests in flight as credits.
  unfoldable pub open_session : List ℕ → Option Failure → Act floats (Unit {0})
  unfolding now_s
  open_session port opening = do
    modify (set_port port)
    result (opened opening)
    modify (start port)
    inflight ← gets (λ arm. pending arm.box.collector)
    cleared ← now_s floats
    modify (with_cart floats (clear_pending cleared))
    now ← now_s floats
    ttl ← gets (λ arm. cart_absorb_ttl arm.tol.move_timeout)
    modify (with_cart floats (λ cart. new_pending ttl inflight now))

  abbrev is_prefixed : List ℕ → Bool
  is_prefixed s = elim (after_prefix litearm s) [ none ↦ false | some rest ↦ true ]

  -- The three gates of the version.
  unfoldable pub gate : List ℕ → FirmwareVersion → Option FirmwareVersion → Result FirmwareVersion
  unfolding same_text
  gate firmware least none = err firmware_mismatch
  gate firmware least (some ver) =
      if not (is_prefixed firmware)
      then err firmware_mismatch
      else if version_lt ver least
      then err firmware_mismatch
      else if not (same_text ver.variant (0x37 ∷ 0x4a ∷ []))
      then err firmware_mismatch
      else ok ver

  -- From the query of the version to its gates. What `parse_firmware_version` throws stands outside of
  -- every catch.
  unfoldable pub handshake : Act floats (Unit {0})
  unfolding raw_write answer close gate trim_text
  handshake = do
    raw_write floats 0x41 []
    payload ← catch_all (answer floats 0x44 1500 (some 0x41)) (close_and_throw floats)
    modify (set_firmware (trim_text payload))
    firmware ← gets (λ arm. arm.firmware)
    ver ← result (parse_firmware_version firmware)
    least ← gets (λ arm. arm.min_firmware)
    accepted ← catch_all (result (gate firmware least ver)) (close_and_throw floats)
    modify (set_version accepted)

  abbrev pub joints_of : Option (RobotState Double) → Act floats ℕ
  joints_of none = close_and_throw floats transport
  joints_of (some st) = pure (length st.joints)

  -- The first state frame, which tells the number of joints, and the probe.
  unfoldable pub meet : Act floats (Unit {0})
  unfolding read_status close cart_probe
  meet = do
    st ← read_status floats 1000
    joints ← joints_of st
    modify (set_n joints)
    supported ← catch_all cart_probe (close_and_throw floats)
    modify (set_supported supported)

  abbrev pub is_target : Option (List ℕ) → Option (List ℕ) → Bool
  is_target port none = false
  is_target none (some current) = true
  is_target (some p) (some current) = same_text p current

  -- The port that is asked for, that of the constructor, or the one that is found.
  abbrev pub choose : Option (List ℕ) → List ℕ → Option (List ℕ) → List ℕ
  choose (some p) own found = p
  choose none (c ∷ own) found = c ∷ own
  choose none [] (some p) = p
  choose none [] none = []

  unfoldable pub connect_new : Option (List ℕ) → Plug → Act floats (Unit {0})
  unfolding close open_session handshake meet refresh_limits
  connect_new port plug = do
    linked ← gets (λ arm. is_linked floats arm.tr)
    if linked then close floats else pure tt
    p ← gets (λ arm. choose port arm.port plug.found)
    throw_if (length p == 0) transport
    open_session p plug.opening
    handshake
    meet
    refresh_limits floats

  unfoldable pub connect : Option (List ℕ) → Plug → Act floats (Unit {0})
  unfolding reject_if_in_dfu reject_if_wrong_process connect_new same_text
  connect port plug = do
    reject_if_in_dfu floats
    reject_if_wrong_process floats
    done ← gets (λ arm. is_target port arm.tr)
    if done then pure tt else connect_new port plug

  unfoldable pub reconnect : Option (List ℕ) → Plug → Act floats (Unit {0})
  unfolding close connect
  reconnect port plug = do close floats; connect port plug
