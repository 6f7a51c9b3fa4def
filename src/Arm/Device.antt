-- ===== src/Arm/Device.antt =====
-- Inverse kinematics, the licence, claimed plans and the boot loader: `ik`, `license`, `activate`,
-- `poll_cart` and `enter_dfu` of `src/arm.cpp`, with `LicenseInfo`.
use litearm_cpp.Base.{
  ℕ, ◌+◌, ◌/◌, ◌%◌, List, [], ◌∷◌, ◌++◌, Option, none, some, Bool, true, false, not, ◌==◌, ltb,
  if◌then◌else◌, length, take, drop,
}
use litearm_cpp.Errors.{
  Failure, Result, ok, err, command_rejected, unsupported_by_firmware, invalid_command, transport,
  ik_failed, lite_arm,
}
use litearm_cpp.Action.{pure, throw, gets, modify, result, throw_if, catch_all, ◌>>=◌, ◌>>◌}
use litearm_cpp.Floats.{Floats}
use litearm_cpp.Protocol.Frame.{byte_at}
use litearm_cpp.Protocol.Scalar.{pack_u32le, read_u32le, pack_f32s, unpack_f32s}
use litearm_cpp.State.{RobotState, positions, enabled}
use litearm_cpp.Cart.{CartPlan, CartPending, claim_resolved, from_reply, raise_for_plan}
use litearm_cpp.Arm.{Arm, Act, require, write_query, write_cmd, cmd_expect_ack, answer, with_cart}
use litearm_cpp.Arm.Status.{get_state, wait_until_link_lost}
use litearm_cpp.Arm.Connect.{close}

pub record LicenseInfo : Type 0 where
  pub state : ℕ
  pub ver : ℕ
  pub uid : List ℕ
  pub cust_id : ℕ
  pub issued : ℕ
  pub flags : ℕ

pub activated : LicenseInfo → Bool
activated info = not (info.state == 0)

pub factory_mode : LicenseInfo → Bool
factory_mode info = info.flags % 2 == 1

unfoldable pub decode_license : List ℕ → Result LicenseInfo
decode_license payload =
    if not (length payload == 26)
    then err transport
    else ok (record {
      state = byte_at payload 0;
      ver = byte_at payload 1;
      uid = take 12 (drop 2 payload);
      cust_id = read_u32le payload 14;
      issued = read_u32le payload 18;
      flags = read_u32le payload 22;
    })

-- `kHex[d]` as a character's code.
abbrev pub hex_digit : ℕ → ℕ
hex_digit d = if ltb d 10 then 48 + d else 87 + d

unfoldable pub hex_text : List ℕ → List ℕ
hex_text [] = []
hex_text (b ∷ bytes) = hex_digit (b / 16) ∷ hex_digit (b % 16) ∷ hex_text bytes

pub uid_hex : LicenseInfo → List ℕ
uid_hex info = hex_text info.uid

module _ (floats : Floats) where
  open floats use {Double}

  -- The seed that is given, or the positions of the state, which must have the seven axes of the model.
  abbrev pub seven : Option (RobotState Double) → Result (List Double)
  seven none = err transport
  seven (some st) = if length st.joints == 7 then ok (positions st) else err invalid_command

  unfoldable pub seed_of : List Double → Act floats (List Double)
  unfolding get_state
  seed_of [] = do st ← get_state floats false 500; result (seven st)
  seed_of (d ∷ q_seed) = pure (d ∷ q_seed)

  unfoldable pub ik : List Double → List Double → ℕ → Act floats (List Double)
  unfolding require seed_of write_query answer
  ik pose q_seed timeout = do
    require floats
    seed ← seed_of q_seed
    throw_if (not (length seed == 7)) invalid_command
    write_query floats 0x42 (pack_f32s floats (pose ++ seed))
    payload ← answer floats 0x47 timeout (some 0x42)
    throw_if (ltb (length payload) 29) transport
    throw_if (byte_at payload 28 == 0) ik_failed
    pure (unpack_f32s floats payload 0 7)

  unfoldable pub license : ℕ → Act floats LicenseInfo
  unfolding require write_query answer
  license timeout = do
    require floats
    write_query floats 0x2f []
    payload ← answer floats 0x4f timeout none
    result (decode_license payload)

  abbrev is_aggregate : Failure → Bool
  is_aggregate (command_rejected cmd code) = code == 2
  is_aggregate (unsupported_by_firmware cmd code) = code == 2
  is_aggregate e = false

  -- The catch of `activate`: only the record that is read back tells whether the arm is unlocked.
  unfoldable pub recheck : Failure → Act floats (Unit {0})
  unfolding license
  recheck e =
      if is_aggregate e
      then (do info ← license 1000; throw_if (not (activated info)) e)
      else throw e

  unfoldable pub activate : ℕ → ℕ → ℕ → List ℕ → ℕ → Act floats (Unit {0})
  unfolding cmd_expect_ack recheck
  activate cust_id issued flags mac timeout = do
    throw_if (not (length mac == 16)) invalid_command
    throw_if (ltb 1 flags) invalid_command
    catch_all
        (cmd_expect_ack floats 0x3f
          (pack_u32le cust_id ++ pack_u32le issued ++ pack_u32le flags ++ mac) timeout)
        recheck

  abbrev pub of_plan : CartPlan → Result (Unit {0}) → Result (Option CartPlan)
  of_plan plan (ok u) = ok (some plan)
  of_plan plan (err e) = err e

  abbrev pub plan_of : Result CartPlan → Result (Option CartPlan)
  plan_of (err e) = err e
  plan_of (ok plan) = of_plan plan (raise_for_plan plan)

  abbrev pub claimed : CartPending → Option ℕ → Result (Option CartPlan)
  claimed p none = ok none
  claimed p (some id) = elim ((p.tokens id).reply) [
    | none ↦ ok none
    | some payload ↦ plan_of (from_reply payload)
  ]

  unfoldable pub poll_cart : Act floats (Option CartPlan)
  unfolding require
  poll_cart = do
    require floats
    (p, id) ← gets (λ arm. claim_resolved arm.box.collector)
    modify (with_cart floats (λ cart. p))
    result (claimed p id)

  abbrev is_armed : Option (RobotState Double) → Bool
  is_armed none = false
  is_armed (some st) = enabled st

  -- `dfu_entered_` is set whether `close` throws or not.
  abbrev pub hand_over : Arm floats → Arm floats
  hand_over arm = record arm { dfu_entered = true }

  unfoldable pub enter_dfu : ℕ → Act floats (Unit {0})
  unfolding require get_state write_cmd answer wait_until_link_lost close
  enter_dfu timeout = do
    require floats
    st ← get_state floats true 500
    throw_if (is_armed st) invalid_command
    write_cmd floats 0x15 [] true
    answer floats 0x45 1200 (some 0x15)
    lost ← wait_until_link_lost floats timeout
    throw_if (not lost) lite_arm
    catch_all (close floats) (λ e. do modify hand_over; throw e)
    modify hand_over
