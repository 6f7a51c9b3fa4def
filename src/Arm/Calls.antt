-- ===== src/Arm/Calls.antt =====
-- The public calls of `class Arm` as values, and what a sequence of them does. Between two calls, the
-- thread of zero gravity may run a round, and the process may be forked.
pub mod Rules
use litearm_cpp.Base.{ℕ, suc, ◌+◌, List, [], ◌∷◌, Option, Bool, if◌then◌else◌}
use litearm_cpp.Errors.{Result}
use litearm_cpp.Action.{Action, pure, gets, modify, attempt, ◌>>=◌, ◌>>◌}
use litearm_cpp.Floats.{Floats}
use litearm_cpp.Params.{Index}
use litearm_cpp.Arm.{Arm, Act}
use litearm_cpp.Arm.Status
use litearm_cpp.Arm.Safety
use litearm_cpp.Arm.Hover
use litearm_cpp.Arm.Connect
use litearm_cpp.Arm.Connect.{Plug}
use litearm_cpp.Arm.Move
use litearm_cpp.Arm.Pose
use litearm_cpp.Arm.Tuning
use litearm_cpp.Arm.Device
use litearm_cpp.Arm.Cartesian

module _ (floats : Floats) where
  open floats use {Double}

  abbrev Doubles : Type 0
  Doubles = List Double

  -- The calls that leave the session open or closed as it is.
  pub data Call : Type 0 where
    disable emergency_stop reset clear_faults park save_params poll_cart : Call
    enable get_status_now get_tcp get_joint_param set_ff_mask license : ℕ → Call
    set_motion_mode set_speed ff_preset : Index → Call
    home : Option ℕ → Call
    get_state : Bool → ℕ → Call
    movej movej_sync : Doubles → Double → Call
    move_js : Doubles → Doubles → Doubles → Call
    joint_follow : Doubles → Doubles → Doubles → Doubles → Call
    send_mit_all : Doubles → Doubles → Doubles → Doubles → Doubles → Call
    send_mit : Index → Double → Double → Double → Double → Double → Call
    set_ff_vec : Index → Doubles → Call
    set_ff_scalar : Index → Index → Double → Call
    get_ff_vec : Index → ℕ → Call
    get_ff_scalar : Index → Index → ℕ → Call
    set_gravity_scale set_inertia_scale : Doubles → Call
    set_payload : Double → Double → Double → Double → Call
    set_gravity_vector : Double → Double → Double → Call
    ik : Doubles → Doubles → ℕ → Call
    activate : ℕ → ℕ → ℕ → List ℕ → ℕ → Call
    move_l : (Doubles → Doubles → Bool) → Result Doubles → Double → Bool → Call
    move_c :
        (Doubles → Doubles → Bool)
        → Result Doubles
        → Result Doubles
        → Result Doubles
        → Double
        → Bool
        → Call
    move_path : (Doubles → Doubles → Bool) → List (Result Doubles) → Double → Bool → Call
    move_p :
        (Doubles → Doubles → Double → Double → Bool)
        → Result Doubles
        → Double
        → Double
        → Double
        → Call

  abbrev pub void : {R : Type 0} → Act floats R → Act floats (Unit {0})
  void m = m >>= λ r. pure tt

  unfoldable pub call : Call → Act floats (Unit {0})
  unfolding Safety.disable Safety.emergency_stop Safety.reset Safety.clear_faults Safety.park
      Tuning.save_params Device.poll_cart Safety.enable Status.get_status_now Status.get_tcp
      Connect.get_joint_param Tuning.set_ff_mask Device.license Safety.set_motion_mode
      Safety.set_speed Tuning.ff_preset Move.home Status.get_state Move.movej Move.movej_sync
      Move.move_js Move.joint_follow Move.send_mit_all Move.send_mit Tuning.set_ff_vec
      Tuning.set_ff_scalar Tuning.get_ff_vec Tuning.get_ff_scalar Tuning.set_gravity_scale
      Tuning.set_inertia_scale Tuning.set_payload Tuning.set_gravity_vector Device.ik
      Device.activate Cartesian.move_l Cartesian.move_c Cartesian.move_path Pose.move_p
  call disable = Safety.disable floats
  call emergency_stop = Safety.emergency_stop floats
  call reset = Safety.reset floats
  call clear_faults = Safety.clear_faults floats
  call park = Safety.park floats
  call save_params = Tuning.save_params floats
  call poll_cart = void (Device.poll_cart floats)
  call (enable attempts) = Safety.enable floats attempts
  call (get_status_now timeout) = void (Status.get_status_now floats timeout)
  call (get_tcp timeout) = void (Status.get_tcp floats timeout)
  call (get_joint_param idx) = void (Connect.get_joint_param floats idx)
  call (set_ff_mask mask) = Tuning.set_ff_mask floats mask
  call (license timeout) = void (Device.license floats timeout)
  call (set_motion_mode mode) = Safety.set_motion_mode floats mode
  call (set_speed percent) = Safety.set_speed floats percent
  call (ff_preset preset) = Tuning.ff_preset floats preset
  call (home timeout) = void (Move.home floats timeout)
  call (get_state refresh timeout) = void (Status.get_state floats refresh timeout)
  call (movej q speed) = void (Move.movej floats q speed)
  call (movej_sync q speed) = void (Move.movej_sync floats q speed)
  call (move_js q dq tau_ff) = Move.move_js floats q dq tau_ff
  call (joint_follow q dq kp kd) = Move.joint_follow floats q dq kp kd
  call (send_mit_all q dq kp kd tau) = Move.send_mit_all floats q dq kp kd tau
  call (send_mit idx q dq kp kd tau) = Move.send_mit floats idx q dq kp kd tau
  call (set_ff_vec item values) = Tuning.set_ff_vec floats item values
  call (set_ff_scalar item sub value) = Tuning.set_ff_scalar floats item sub value
  call (get_ff_vec item timeout) = void (Tuning.get_ff_vec floats item timeout)
  call (get_ff_scalar item sub timeout) = void (Tuning.get_ff_scalar floats item sub timeout)
  call (set_gravity_scale gs) = Tuning.set_gravity_scale floats gs
  call (set_inertia_scale isc) = Tuning.set_inertia_scale floats isc
  call (set_payload mass x y z) = Tuning.set_payload floats mass x y z
  call (set_gravity_vector x y z) = Tuning.set_gravity_vector floats x y z
  call (ik pose q_seed timeout) = void (Device.ik floats pose q_seed timeout)
  call (activate cust_id issued flags mac timeout) =
      Device.activate floats cust_id issued flags mac timeout
  call (move_l is_near pose speed awaited) =
      void (Cartesian.move_l floats is_near pose speed awaited)
  call (move_c is_near pose_start pose_via pose_goal speed awaited) =
      void (Cartesian.move_c floats is_near pose_start pose_via pose_goal speed awaited)
  call (move_path is_near poses speed awaited) =
      void (Cartesian.move_path floats is_near poses speed awaited)
  call (move_p is_near pose speed pos_tol rpy_tol) =
      void (Pose.move_p floats is_near pose speed pos_tol rpy_tol)

  -- Everything that may happen to a session.
  pub data Step : Type 0 where
    plain : Call → Step
    zero_g_start : ℕ → Step
    zero_g_stop : Bool → Step
    zg_keepalive close : Step
    enter_dfu : ℕ → Step
    connect reconnect : Option (List ℕ) → Plug → Step
    -- The child's view after a fork: its number was not used before.
    fork : ℕ → Step

  abbrev pub child : ℕ → Arm floats → Arm floats
  child k arm = record arm { current_pid = arm.current_pid + suc k }

  unfoldable pub step : Step → Act floats (Unit {0})
  unfolding call Hover.zero_g_start Hover.zero_g_stop Hover.zg_keepalive Connect.close
      Device.enter_dfu Connect.connect Connect.reconnect
  step (plain c) = call c
  step (zero_g_start period) = Hover.zero_g_start floats period
  step (zero_g_stop raise_on_lost) = Hover.zero_g_stop floats raise_on_lost
  step zg_keepalive = Hover.zg_keepalive floats
  step close = Connect.close floats
  step (enter_dfu timeout) = Device.enter_dfu floats timeout
  step (connect port plug) = Connect.connect floats port plug
  step (reconnect port plug) = Connect.reconnect floats port plug
  step (fork k) = modify (child k)

  -- Every exception is caught by the caller, who goes on; once `std::terminate` has run, there is no
  -- caller and nothing goes on.
  unfoldable pub steps : List Step → Act floats (Unit {0})
  unfolding step
  steps [] = pure tt
  steps (s ∷ rest) =
      let more = steps rest in
      do
        ended ← gets (λ arm. arm.terminated)
        if ended then pure tt else (do attempt (step s); more)
