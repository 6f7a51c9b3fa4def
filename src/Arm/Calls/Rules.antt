-- ===== src/Arm/Calls/Rules.antt =====
-- Every call preserves a stable predicate.
pub mod Reading
pub mod Settle
pub mod Cartesian
pub mod Pose
use litearm_cpp.Base.{refl, ◌+◌, ℕ, zero, suc, List, [], ◌∷◌, Option, none, some, Bool, false}
use litearm_cpp.Errors.{Failure, Result, is_command_rejected}
use litearm_cpp.Action.Preserves.{
  Preserves, Preserves-bind, Preserves-gets, Preserves-pure, Preserves-if, Preserves-throw,
  Preserves-catch, preserves_rules,
}
use litearm_cpp.Floats.{Floats}
use litearm_cpp.Params.{Index}
use litearm_cpp.Arm.{Arm, Act, member, cmd_expect_ack, write_cmd, reject_if_in_dfu}
use litearm_cpp.Arm.Stable.{
  Stable, now_s-Preserves, require-Preserves, a_expect-Preserves, with_cart-Preserves,
  raise_front-Preserves, pump-Preserves, until_lost-Preserves, await_arrival-Preserves,
  await_reply-Preserves, answer-Preserves,
}
use litearm_cpp.Arm.Status.{
  pump_until, read_status, await_status, get_status_now, get_state, get_tcp, wait_until_link_lost,
}
use litearm_cpp.Arm.Hover.{reject_if_cart_in_flight}
use litearm_cpp.Arm.Safety.{
  enable_loop, enable, disable, emergency_stop, reset, clear_faults, park, set_motion_mode,
  set_speed, next_attempt,
}
use litearm_cpp.Arm.Connect.{get_joint_param, joint_params_from}
use litearm_cpp.Arm.Move.{
  arrive_at, move_joints, home, send_arrays, move_js, send_mit, movej, movej_sync, joint_follow,
  send_mit_all,
}
use litearm_cpp.Arm.Tuning.{
  set_ff_mask, ff_preset, set_ff_vec, set_ff_scalar, get_ff_vec, get_ff_scalar, set_gravity_scale,
  set_inertia_scale, set_payload, set_gravity_vector, save_params,
}
use litearm_cpp.Arm.Device.{seed_of, ik, license, recheck, activate, poll_cart}
use litearm_cpp.Arm.Status
use litearm_cpp.Cart.{register_token, drop_token}
use litearm_cpp.Arm.Cartesian.{
  is_transport, register, drop_on, await_accept, request_and_wait, enter_cart, require_cart_support,
  reject_in_zero_g, move_l, move_c, add_points, move_path,
}
use litearm_cpp.Arm.Calls.{Call, call}
pub use litearm_cpp.Arm.Calls.Rules.Reading.{
  cmd_expect_ack-Preserves, disable-Preserves, emergency_stop-Preserves, pump_until-Preserves,
  read_status-Preserves, get_state-Preserves, await_status-Preserves, get_status_now-Preserves,
  get_tcp-Preserves, wait_until_link_lost-Preserves, get_joint_param-Preserves,
}
use litearm_cpp.Arm.Calls.Rules.Cartesian.{move_l-Preserves, move_c-Preserves, move_path-Preserves}
use litearm_cpp.Arm.Calls.Rules.Pose.{move_p-Preserves}

module _ (floats : Floats) (P : Arm floats → Type 0) (stable : Stable floats P) where
  open floats use {Double}
  open stable use {linked, queried, commanded, stopped}

  pub arrive_at-Preserves :
      (target : List Double) (timeout : Option ℕ) → Preserves P (arrive_at floats target timeout)
  unfolding arrive_at
  arrive_at-Preserves target timeout =
      search (preserves_rules, require-Preserves, now_s-Preserves, await_arrival-Preserves) depth 12

  pub move_joints-Preserves :
      (cmd : ℕ) (q : List Double) (speed : Double) → Preserves P (move_joints floats cmd q speed)
  unfolding move_joints
  move_joints-Preserves cmd q speed =
      search (preserves_rules, require-Preserves, commanded, answer-Preserves, arrive_at-Preserves)
        depth 12

  pub home-Preserves : (timeout : Option ℕ) → Preserves P (home floats timeout)
  unfolding home
  home-Preserves timeout =
      search (preserves_rules, require-Preserves, commanded, answer-Preserves, arrive_at-Preserves)
        depth 12

  pub reject_if_in_dfu-Preserves : Preserves P (reject_if_in_dfu floats)
  unfolding reject_if_in_dfu
  reject_if_in_dfu-Preserves = search (preserves_rules) depth 12

  pub send_arrays-Preserves :
      (cmd : ℕ) (arrays : List (List Double)) → Preserves P (send_arrays floats cmd arrays)
  unfolding send_arrays
  send_arrays-Preserves cmd arrays =
      search (preserves_rules, reject_if_in_dfu-Preserves, cmd_expect_ack-Preserves) depth 12

  pub move_js-Preserves : (q dq tau_ff : List Double) → Preserves P (move_js floats q dq tau_ff)
  unfolding move_js
  move_js-Preserves q dq tau_ff = search (preserves_rules, send_arrays-Preserves) depth 12

  pub send_mit-Preserves :
      (idx : Index) (q dq kp kd tau : Double) → Preserves P (send_mit floats idx q dq kp kd tau)
  unfolding send_mit
  send_mit-Preserves idx q dq kp kd tau =
      search (preserves_rules, reject_if_in_dfu-Preserves, cmd_expect_ack-Preserves) depth 12

  pub set_ff_mask-Preserves : (mask : ℕ) → Preserves P (set_ff_mask floats mask)
  unfolding set_ff_mask
  set_ff_mask-Preserves mask = search (preserves_rules, cmd_expect_ack-Preserves) depth 12

  pub ff_preset-Preserves : (preset : Index) → Preserves P (ff_preset floats preset)
  unfolding ff_preset
  ff_preset-Preserves preset = search (preserves_rules, cmd_expect_ack-Preserves) depth 12

  pub set_ff_vec-Preserves :
      (item : Index) (values : List Double) → Preserves P (set_ff_vec floats item values)
  unfolding set_ff_vec
  set_ff_vec-Preserves item values = search (preserves_rules, cmd_expect_ack-Preserves) depth 12

  pub set_ff_scalar-Preserves :
      (item sub : Index) (value : Double) → Preserves P (set_ff_scalar floats item sub value)
  unfolding set_ff_scalar
  set_ff_scalar-Preserves item sub value =
      search (preserves_rules, cmd_expect_ack-Preserves) depth 12

  pub get_ff_vec-Preserves :
      (item : Index) (timeout : ℕ) → Preserves P (get_ff_vec floats item timeout)
  unfolding get_ff_vec
  get_ff_vec-Preserves item timeout =
      let q = λ (payload : List ℕ). queried 0x2b payload (unfold member in refl) in
      search (preserves_rules, require-Preserves, q, answer-Preserves) depth 12

  pub get_ff_scalar-Preserves :
      (item sub : Index) (timeout : ℕ) → Preserves P (get_ff_scalar floats item sub timeout)
  unfolding get_ff_scalar
  get_ff_scalar-Preserves item sub timeout =
      let q = λ (payload : List ℕ). queried 0x2c payload (unfold member in refl) in
      search (preserves_rules, require-Preserves, q, answer-Preserves) depth 12

  pub set_gravity_scale-Preserves : (gs : List Double) → Preserves P (set_gravity_scale floats gs)
  unfolding set_gravity_scale
  set_gravity_scale-Preserves gs = search (preserves_rules, set_ff_vec-Preserves) depth 12

  pub set_inertia_scale-Preserves : (isc : List Double) → Preserves P (set_inertia_scale floats isc)
  unfolding set_inertia_scale
  set_inertia_scale-Preserves isc = search (preserves_rules, set_ff_vec-Preserves) depth 12

  pub set_payload-Preserves : (mass x y z : Double) → Preserves P (set_payload floats mass x y z)
  unfolding set_payload
  set_payload-Preserves mass x y z = search (preserves_rules, set_ff_scalar-Preserves) depth 12

  pub set_gravity_vector-Preserves :
      (x y z : Double) → Preserves P (set_gravity_vector floats x y z)
  unfolding set_gravity_vector
  set_gravity_vector-Preserves x y z = search (preserves_rules, set_ff_scalar-Preserves) depth 12

  pub license-Preserves : (timeout : ℕ) → Preserves P (license floats timeout)
  unfolding license
  license-Preserves timeout =
      let q = λ (payload : List ℕ). queried 0x2f payload (unfold member in refl) in
      search (preserves_rules, require-Preserves, q, answer-Preserves) depth 12

  pub recheck-Preserves : (e : Failure) → Preserves P (recheck floats e)
  unfolding recheck
  recheck-Preserves e = search (preserves_rules, license-Preserves) depth 12

  pub activate-Preserves :
      (cust_id issued flags : ℕ) (mac : List ℕ) (timeout : ℕ)
      → Preserves P (activate floats cust_id issued flags mac timeout)
  unfolding activate
  activate-Preserves cust_id issued flags mac timeout =
      search (preserves_rules, cmd_expect_ack-Preserves, recheck-Preserves) depth 12

  pub poll_cart-Preserves : Preserves P (poll_cart floats)
  unfolding poll_cart
  poll_cart-Preserves = search (preserves_rules, require-Preserves, with_cart-Preserves) depth 12

  next_attempt-Preserves :
      (left : ℕ) (rest : Act floats (Unit {0})) (e : Failure)
      → Preserves P rest
      → Preserves P (next_attempt floats left rest e)
  next_attempt-Preserves zero rest e h = search preserves_rules
  next_attempt-Preserves (suc left) rest e h = search preserves_rules

  enable_loop-Preserves : (attempts : ℕ) → Preserves P (enable_loop floats attempts)
  unfolding enable_loop
  enable_loop-Preserves zero = search preserves_rules
  enable_loop-Preserves (suc left) =
      let rest = enable_loop-Preserves left in
      search (preserves_rules, commanded, answer-Preserves, next_attempt-Preserves) depth 12

  pub enable-Preserves : (attempts : ℕ) → Preserves P (enable floats attempts)
  unfolding enable
  enable-Preserves attempts = search (preserves_rules, require-Preserves, enable_loop-Preserves)

  pub set_motion_mode-Preserves : (mode : Index) → Preserves P (set_motion_mode floats mode)
  unfolding set_motion_mode
  set_motion_mode-Preserves none = search preserves_rules
  set_motion_mode-Preserves (some mode) = search (preserves_rules, cmd_expect_ack-Preserves)

  pub set_speed-Preserves : (percent : Index) → Preserves P (set_speed floats percent)
  unfolding set_speed
  set_speed-Preserves none = search preserves_rules
  set_speed-Preserves (some percent) = search (preserves_rules, cmd_expect_ack-Preserves)

  seed_of-Preserves : (q_seed : List Double) → Preserves P (seed_of floats q_seed)
  unfolding seed_of
  seed_of-Preserves [] = search (preserves_rules, get_state-Preserves)
  seed_of-Preserves (d ∷ q_seed) = search preserves_rules

  pub ik-Preserves :
      (pose q_seed : List Double) (timeout : ℕ) → Preserves P (ik floats pose q_seed timeout)
  unfolding ik
  ik-Preserves pose q_seed timeout =
      let q = λ (payload : List ℕ). queried 0x42 payload (unfold member in refl) in
      search (preserves_rules, require-Preserves, seed_of-Preserves, q, answer-Preserves) depth 12

  pub joint_params_from-Preserves : (left i : ℕ) → Preserves P (joint_params_from floats left i)
  unfolding joint_params_from
  joint_params_from-Preserves zero i = search preserves_rules
  joint_params_from-Preserves (suc left) i =
      search (preserves_rules, get_joint_param-Preserves, joint_params_from-Preserves left) depth 12

  pub reject_if_cart_in_flight-Preserves : Preserves P (reject_if_cart_in_flight floats)
  unfolding reject_if_cart_in_flight
  reject_if_cart_in_flight-Preserves = search (preserves_rules, get_status_now-Preserves) depth 12

  pub call-Preserves : (c : Call floats) → Preserves P (call floats c)
  unfolding call park reset clear_faults save_params movej movej_sync joint_follow send_mit_all
  call-Preserves Call.disable = disable-Preserves floats P stable
  call-Preserves Call.emergency_stop = emergency_stop-Preserves floats P stable
  call-Preserves Call.reset = cmd_expect_ack-Preserves floats P stable 0x14 [] 1200
  call-Preserves Call.clear_faults = cmd_expect_ack-Preserves floats P stable 0x13 [] 1200
  call-Preserves Call.park = set_motion_mode-Preserves (some 0)
  call-Preserves Call.save_params = cmd_expect_ack-Preserves floats P stable 0x25 [] 2500
  call-Preserves Call.poll_cart = search (preserves_rules, poll_cart-Preserves)
  call-Preserves (Call.enable attempts) = enable-Preserves attempts
  call-Preserves (Call.get_status_now timeout) = search (preserves_rules, get_status_now-Preserves)
  call-Preserves (Call.get_tcp timeout) = search (preserves_rules, get_tcp-Preserves)
  call-Preserves (Call.get_joint_param idx) = search (preserves_rules, get_joint_param-Preserves)
  call-Preserves (Call.set_ff_mask mask) = set_ff_mask-Preserves mask
  call-Preserves (Call.license timeout) = search (preserves_rules, license-Preserves)
  call-Preserves (Call.set_motion_mode mode) = set_motion_mode-Preserves mode
  call-Preserves (Call.set_speed percent) = set_speed-Preserves percent
  call-Preserves (Call.ff_preset preset) = ff_preset-Preserves preset
  call-Preserves (Call.home timeout) = search (preserves_rules, home-Preserves)
  call-Preserves (Call.get_state refresh timeout) = search (preserves_rules, get_state-Preserves)
  call-Preserves (Call.movej q speed) = search (preserves_rules, move_joints-Preserves)
  call-Preserves (Call.movej_sync q speed) = search (preserves_rules, move_joints-Preserves)
  call-Preserves (Call.move_js q dq tau_ff) = move_js-Preserves q dq tau_ff
  call-Preserves (Call.joint_follow q dq kp kd) = send_arrays-Preserves 0x08 _
  call-Preserves (Call.send_mit_all q dq kp kd tau) = send_arrays-Preserves 0x05 _
  call-Preserves (Call.send_mit idx q dq kp kd tau) = send_mit-Preserves idx q dq kp kd tau
  call-Preserves (Call.set_ff_vec item values) = set_ff_vec-Preserves item values
  call-Preserves (Call.set_ff_scalar item sub value) = set_ff_scalar-Preserves item sub value
  call-Preserves (Call.get_ff_vec item timeout) = search (preserves_rules, get_ff_vec-Preserves)
  call-Preserves (Call.get_ff_scalar item sub timeout) =
      search (preserves_rules, get_ff_scalar-Preserves)
  call-Preserves (Call.set_gravity_scale gs) = set_gravity_scale-Preserves gs
  call-Preserves (Call.set_inertia_scale isc) = set_inertia_scale-Preserves isc
  call-Preserves (Call.set_payload mass x y z) = set_payload-Preserves mass x y z
  call-Preserves (Call.set_gravity_vector x y z) = set_gravity_vector-Preserves x y z
  call-Preserves (Call.ik pose q_seed timeout) = search (preserves_rules, ik-Preserves)
  call-Preserves (Call.activate cust_id issued flags mac timeout) =
      activate-Preserves cust_id issued flags mac timeout
  call-Preserves (Call.move_l is_near pose speed awaited) =
      search (preserves_rules, move_l-Preserves)
  call-Preserves (Call.move_c is_near start via goal speed awaited) =
      search (preserves_rules, move_c-Preserves)
  call-Preserves (Call.move_path is_near poses speed awaited) =
      search (preserves_rules, move_path-Preserves)
  call-Preserves (Call.move_p is_near pose speed pos_tol rpy_tol) =
      search (preserves_rules, move_p-Preserves)
