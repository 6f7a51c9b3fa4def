-- ===== src/Arm/Examples.antt =====
-- The theorems on the session at concrete sessions.
use litearm_cpp.Base.{
  ℕ, ◌≡◌, refl, arith, List, [], ◌∷◌, none, some, true, false, inl, map, All, ◌⊎◌, ◌↔◌, ◌≢◌, length,
}
use litearm_cpp.Errors.{transport, Result, ok, err, invalid_command, unsupported_by_firmware}
use litearm_cpp.Action.{gets, throw_if, pure, throw, modify, result, catch_all, ◌>>=◌}
use litearm_cpp.Floats.{pattern_floats}
use litearm_cpp.State.{RobotState, faulted, positions, velocities, cart_busy, decode_state}
use litearm_cpp.Protocol.Status.{decode_status}
use litearm_cpp.Protocol.Tables.{rsp_of, find_answer}
use litearm_cpp.Ack.{
  echoed, wait_keys, frame, reader_loop, deliver, on_status, enqueue, push, drain_for, read_key,
  note_recv,
}
use litearm_cpp.Ack.Wait.{arrive, expect, wait, wait_loop, round, look, guard_for_ack_wait}
use litearm_cpp.Cart.{new_pending, cart_clears_upon, clear_pending}
use litearm_cpp.Params.{JointParam}
use litearm_cpp.Arm.{
  Arm, member, raw_write, require, reject_if_in_dfu, reject_if_wrong_process, write_query,
  void_plans, write_frame, now_s, cmd_expect_ack, write_cmd, a_expect,
}
use litearm_cpp.Arm.Status.{get_status_now, await_status, pump_until, pump, pump_loop, raise_front}
use litearm_cpp.Arm.Hover.{zero_g_start, reject_if_cart_in_flight}
use litearm_cpp.Arm.Cartesian.{CartMove, move_l, move_c, move_path}
use litearm_cpp.Arm.Refused.{cart_refused}
use litearm_cpp.Arm.Lost.{zero_g_start-lost}
use litearm_cpp.Arm.Hover.{zg_keepalive}
use litearm_cpp.Arm.Safety.{disable, emergency_stop, enable}
use litearm_cpp.Arm.Connect.{new_box, all_sane}
use litearm_cpp.Arm.Move.{
  arrive_at, precheck_q, await_arrival, arrive_loop, arrive_look, is_at, all_near, all_slow,
  start_of, is_moving, max_from,
}
use litearm_cpp.Arm.Calls.{Call, Step, steps}
use litearm_cpp.Arm.Valid.{IsValid}
use litearm_cpp.Arm.Valid.Reach.{steps-IsValid}
use litearm_cpp.Arm.Silent.{is_shut, steps-silent}
use litearm_cpp.Arm.Calm.{all_calm, steps-calm}
use litearm_cpp.Arm.Exit.{IsFresh, raw_write-IsFresh, stops-written}
use litearm_cpp.Arm.Attempts.{IsWithin, enable_bounded}
use litearm_cpp.Arm.Arrival.{IsArrival, arrive_seen, await_arrival-arrived, arrive_at_capped}
use litearm_cpp.Arm.Precheck.{Within, precheck_q_iff}

abbrev Session : Type 0
Session = Arm pattern_floats

-- A session that was never opened, in the process 7.
abbrev closed_arm : Session
closed_arm = record {
  port = [];
  live_port = [];
  tr = none;
  ack_open = false;
  box = new_box pattern_floats (new_pending 15000 0 0);
  pid = none;
  firmware = [];
  fw_version = none;
  min_firmware = record { major = 1; minor = 5; patch = 0; variant = [] };
  n = 0;
  cart_supported = false;
  cart_probe_silent = false;
  limits = [];
  dfu_entered = false;
  zg_active = false;
  zg_thread = false;
  zg_owner = 0;
  zg_error = none;
  cart_serial = false;
  tol = record { q_tol = 3; dq_tol = 2; arrive_frames = 1; move_timeout = 15000 };
  terminated = false;
  current_pid = 7;
  sent = [];
  writes = [];
  later = [];
}

-- A session on a port, with the readings of the clock to come.
abbrev open_arm : Session
open_arm = record closed_arm {
  tr = some (0x43 ∷ []);
  ack_open = true;
  pid = some 7;
  n = 1;
  later = record { now = 10; arrived = [] } ∷ record { now = 20; arrived = [] } ∷ [];
}

abbrev hovering_arm : Session
hovering_arm = record open_arm { zg_active = true; zg_thread = true; zg_owner = 7 }

closed-IsValid : IsValid pattern_floats closed_arm
closed-IsValid = record {
  linked = refl;
  stamped = refl;
  cleared = λ e. (refl, refl, refl, refl);
  gone = λ e. refl;
  bounded = unfold all_sane in refl;
  threaded = λ e. cc;
  owned = λ e. cc;
  numbered = omega arith;
  known = tt;
}

abbrev some_steps : List (Step pattern_floats)
some_steps =
    Step.connect (some (0x43 ∷ [])) (record { found = none; opening = none })
    ∷ Step.zero_g_start 40
    ∷ Step.fork 3
    ∷ Step.close
    ∷ []

steps-IsValid_example : IsValid pattern_floats ((steps pattern_floats some_steps closed_arm).1)
steps-IsValid_example = steps-IsValid pattern_floats some_steps closed_arm closed-IsValid

abbrev quiet_steps : List (Step pattern_floats)
quiet_steps = Step.plain (Call.enable 3) ∷ Step.zg_keepalive ∷ Step.close ∷ Step.fork 2 ∷ []

steps-silent_example :
    let later = (steps pattern_floats quiet_steps closed_arm).1 in
    (later.sent ≡ []) × (is_shut pattern_floats later ≡ true) × (later.dfu_entered ≡ false)
steps-silent_example = steps-silent pattern_floats quiet_steps closed_arm closed-IsValid refl refl

abbrev some_calls : List (Call pattern_floats)
some_calls = Call.get_tcp 600 ∷ Call.movej (5 ∷ []) 0 ∷ Call.emergency_stop ∷ []

steps-calm_example :
    let later = (steps pattern_floats (map Step.plain some_calls) hovering_arm).1 in
    (later.zg_active ≡ true) × (all_calm later.sent ≡ true)
steps-calm_example = steps-calm pattern_floats some_calls hovering_arm refl refl

-- The acknowledgement arrives before the write returns.
abbrev answered_arm : Session
answered_arm = record open_arm {
  writes = record { fails = none; answers = frame 0x45 (0x01 ∷ []) 5 ∷ [] } ∷ [];
}

raw_write-IsFresh_example :
    let later = (raw_write pattern_floats 0x01 (1 ∷ []) answered_arm).1 in
    (later.sent ≡ record { cmd = 0x01; payload = 1 ∷ [] } ∷ [])
    × IsFresh pattern_floats 0x01 (echoed 0x45 0x01 ∷ echoed 0x46 0x01 ∷ []) answered_arm later
raw_write-IsFresh_example =
    raw_write-IsFresh pattern_floats 0x01 (1 ∷ []) 0x45 (echoed 0x45 0x01 ∷ echoed 0x46 0x01 ∷ [])
      answered_arm refl refl refl (inl refl) (unfold wait_keys in refl)

stops-written_example :
    ((disable pattern_floats hovering_arm).1.sent ≡ record { cmd = 0x11; payload = [] } ∷ [])
    × ((emergency_stop pattern_floats hovering_arm).1.sent
        ≡ record { cmd = 0x12; payload = [] } ∷ [])
stops-written_example = stops-written pattern_floats hovering_arm refl refl refl

enable_bounded_example : IsWithin pattern_floats [] 12 ((enable pattern_floats 12 open_arm).1)
enable_bounded_example = enable_bounded pattern_floats 12 open_arm

-- One joint that stands still near 5.
abbrev resting : RobotState ℕ
resting = record {
  mode = 0;
  mode_name = "idle";
  flags = 0;
  flag_names = [];
  seq = 9;
  joints = record { q = 6; dq = 1; tau = 0; t_mos = 0; t_coil = 0; err = 0 } ∷ [];
  joint_fault = 0;
}

abbrev resting_arm : Session
resting_arm = record open_arm { box = record open_arm.box { state = some resting; status_seq = 4 } }

returned :
    (await_arrival pattern_floats (5 ∷ []) 100 400 (start_of pattern_floats 3 100) resting_arm).0
    ≡ ok resting
unfolding await_arrival arrive_loop arrive_look is_at all_near all_slow faulted is_moving positions
    velocities max_from
returned = refl

await_arrival-arrived_example : IsArrival pattern_floats resting_arm.tol (5 ∷ []) resting (
    arrive_seen pattern_floats
      (5 ∷ [])
      100
      400
      (start_of pattern_floats 3 100)
      resting_arm.later
      resting_arm
      [])
await_arrival-arrived_example =
    await_arrival-arrived pattern_floats (5 ∷ []) 100 400 3 100 resting_arm resting returned

arrive_at_capped_example :
    (arrive_at pattern_floats (5 ∷ []) (some 100) (record open_arm {
      later = record { now = 7; arrived = [] } ∷ record { now = 407; arrived = [] } ∷ [];
    })).0
    ≡ (arrive_at pattern_floats (5 ∷ []) (some 100) (record open_arm {
      later =
          record { now = 7; arrived = [] }
          ∷ record { now = 407; arrived = [] }
          ∷ record { now = 408; arrived = [] }
          ∷ [];
    })).0
arrive_at_capped_example =
    arrive_at_capped pattern_floats (5 ∷ []) (some 100) (record { now = 7; arrived = [] })
      (record { now = 407; arrived = [] }) [] [] (record { now = 408; arrived = [] } ∷ []) open_arm
      (omega arith)

abbrev one_limit : List (JointParam ℕ)
one_limit = record { idx = 0; kp = 0; kd = 0; tau_max = 0; q_min = 2; q_max = 8 } ∷ []

precheck_q_iff_example :
    ((precheck_q pattern_floats one_limit (9 ∷ []) ≡ ok tt) ↔ (
      All (λ d. pattern_floats.is_finite d ≡ true) (9 ∷ [])
      × ((one_limit ≡ []) ⊎ (length one_limit ≢ 1) ⊎ Within pattern_floats one_limit (9 ∷ []))))
    × ((precheck_q pattern_floats one_limit (9 ∷ []) ≡ ok tt)
        ⊎ (precheck_q pattern_floats one_limit (9 ∷ []) ≡ err invalid_command))
precheck_q_iff_example = precheck_q_iff pattern_floats one_limit (9 ∷ [])

-- A session whose keep-alive runs, and whose next write fails. A state frame and then the
-- acknowledgement of a new start are on their way.
abbrev losing_arm : Session
losing_arm = record resting_arm {
  zg_active = true;
  zg_thread = true;
  zg_owner = 7;
  writes = record { fails = some transport; answers = [] } ∷ [];
  later =
      record { now = 9; arrived = [] }
      ∷ record { now = 10; arrived = frame 0x40 [] 10 ∷ [] }
      ∷ record { now = 11; arrived = [] }
      ∷ record { now = 12; arrived = frame 0x45 (0x06 ∷ []) 12 ∷ [] }
      ∷ record { now = 13; arrived = [] }
      ∷ record { now = 14; arrived = [] }
      ∷ [];
}

write_lost : (raw_write pattern_floats 0x06 (1 ∷ []) losing_arm).0 ≡ err transport
unfolding raw_write write_frame void_plans member now_s gets modify result drain_for rsp_of
    find_answer clear_pending cart_clears_upon wait_keys ◌>>=◌
write_lost = refl

started : (zero_g_start pattern_floats 40 ((zg_keepalive pattern_floats losing_arm).1)).0 ≡ ok tt
unfolding zg_keepalive zero_g_start reject_if_cart_in_flight get_status_now require reject_if_in_dfu
    reject_if_wrong_process write_query raw_write void_plans write_frame member now_s await_status
    pump_until pump pump_loop raise_front cmd_expect_ack write_cmd a_expect expect wait wait_loop
    round look arrive reader_loop deliver on_status enqueue push drain_for rsp_of find_answer
    wait_keys read_key note_recv guard_for_ack_wait clear_pending cart_clears_upon cart_busy
    decode_state decode_status gets throw_if pure throw modify result catch_all ◌>>=◌
started = refl

zero_g_start-lost_example :
    let lost = (zg_keepalive pattern_floats losing_arm).1 in
    let ended = (zero_g_start pattern_floats 40 lost).1 in
    (lost.zg_error ≡ some transport)
    × (lost.zg_active ≡ false)
    × (lost.zg_thread ≡ true)
    × (ended.terminated ≡ true)
    × (steps pattern_floats (Step.zg_keepalive ∷ []) ended ≡ (ok tt, ended))
zero_g_start-lost_example =
    zero_g_start-lost pattern_floats 40 transport (Step.zg_keepalive ∷ []) losing_arm refl refl
      write_lost started

cart_refused_example :
    let refused : Result (CartMove pattern_floats) × Session =
      (err (unsupported_by_firmware 0x3a 0), open_arm) in
    (move_l pattern_floats (λ a b. true) (ok (1 ∷ [])) 0 true open_arm ≡ refused)
    × (move_c pattern_floats (λ a b. true) (ok (1 ∷ [])) (ok []) (ok []) 0 true open_arm ≡ refused)
    × (move_path pattern_floats (λ a b. true) (ok [] ∷ []) 0 true open_arm ≡ refused)
cart_refused_example =
    cart_refused pattern_floats open_arm (ok (1 ∷ [])) (ok []) (ok []) (ok [] ∷ []) (λ a b. true) 0
      true refl refl
