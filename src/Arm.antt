-- ===== src/Arm.antt =====
-- The session of an arm: the state of `class Arm`, its guards and the exits of its frames, of
-- `include/litearm/arm.hpp` and `src/arm.cpp`. A tick of the clock is a millisecond.
pub mod Guards
pub mod Status
pub mod Safety
pub mod Hover
pub mod Connect
pub mod Move
pub mod Pose
pub mod Settle
pub mod Tuning
pub mod Device
pub mod Cartesian
pub mod Stable
pub mod Calls
pub mod Inert
pub mod Valid
pub mod Silent
pub mod Calm
pub mod Exit
pub mod Attempts
pub mod Near
pub mod Arrival
pub mod Precheck
pub mod Readings
pub mod Refused
pub mod Lost
mod Examples
use litearm_cpp.Base.{
  ℕ, ◌+◌, List, [], ◌∷◌, ◌++◌, Option, none, some, Bool, true, false, not, ◌==◌, ◌&&◌, ◌||◌,
  if◌then◌else◌,
}
use litearm_cpp.Errors.{
  Failure, Result, ok, err, after, not_connected, invalid_command, forked_session, arm_is_in_dfu,
}
use litearm_cpp.Action.{Action, pure, throw, gets, modify, result, throw_if, ◌>>=◌, ◌>>◌}
use litearm_cpp.Floats.{Floats}
use litearm_cpp.Protocol.Version.{FirmwareVersion}
use litearm_cpp.Ack.{Inbox, Event, drain_for}
use litearm_cpp.Ack.Wait.{
  Session, guard_for_ack_wait, ExpectResult, Outcome, Moment, Moments, Box, arrive, expect,
}
use litearm_cpp.Cart.{CartPending, cart_collector, cart_clears_upon, clear_pending}
use litearm_cpp.Params.{JointParam}

-- A frame that was handed to `write_frame`.
pub record SentFrame : Type 0 where
  pub cmd : ℕ
  pub payload : List ℕ

-- The values of `ArmOptions` that may change while the session runs.
pub record Tolerances (D : Type 0) : Type 0 where
  pub q_tol : D
  pub dq_tol : D
  pub arrive_frames : ℕ
  pub move_timeout : ℕ

-- What a write brings: what it throws, if anything, and what the reading thread receives before the
-- call that writes goes on.
pub record Written (E : Type 0) : Type 0 where
  pub fails : Option Failure
  pub answers : List E

unfoldable pub member : ℕ → List ℕ → Bool
member x [] = false
member x (y ∷ ys) = (x == y) || member x ys

module _ (floats : Floats) where
  open floats use {Double}

  -- The session. The fields from `terminated` on are the world's: the process that runs the code, the frames
  -- that were handed to the transport, what its next writes bring, and the clock readings to come
  -- with what arrives before each.
  pub record Arm : Type 0 where
    pub port : List ℕ
    pub live_port : List ℕ
    -- `tr_`, by its `port_name`, and whether `a_` is set.
    pub tr : Option (List ℕ)
    pub ack_open : Bool
    -- What `a_` holds, and `cart_`, which outlives it.
    pub box : Inbox Double CartPending
    pub pid : Option ℕ
    pub firmware : List ℕ
    pub fw_version : Option FirmwareVersion
    pub min_firmware : FirmwareVersion
    pub n : ℕ
    pub cart_supported : Bool
    pub cart_probe_silent : Bool
    pub limits : List (JointParam Double)
    pub dfu_entered : Bool
    -- `zg_active_`, whether `zg_thread_` is joinable, and `zg_error_`.
    pub zg_active : Bool
    pub zg_thread : Bool
    -- The process in which the thread runs.
    pub zg_owner : ℕ
    pub zg_error : Option Failure
    -- Whether another thread is in a Cartesian entry point.
    pub cart_serial : Bool
    pub tol : Tolerances Double
    -- Whether `std::terminate` was called.
    pub terminated : Bool
    pub current_pid : ℕ
    pub sent : List SentFrame
    pub writes : List (Written (Event floats cart_collector))
    pub later : Moments floats cart_collector

  abbrev pub Act : Type 0 → Type 0
  Act R = Action Arm R

  -- `clock().now_s()`. The reading thread delivers only while there is one.
  abbrev pub hear : List (Event floats cart_collector) → Arm → Arm
  hear events arm = record arm {
    box = if arm.ack_open then arrive floats cart_collector events arm.box else arm.box;
  }

  abbrev pub reading : Moments floats cart_collector → Arm → ℕ × Arm
  reading [] arm = (0, arm)
  reading (m ∷ moments) arm = (m.now, hear m.arrived (record arm { later = moments }))

  unfoldable pub now_s : Act ℕ
  now_s arm = let (t, next) = reading arm.later arm in (ok t, next)

  abbrev pub is_own : Option ℕ → ℕ → Bool
  is_own none current = true
  is_own (some pid) current = pid == current

  abbrev pub session : Arm → Session
  session arm = record {
    in_dfu = arm.dfu_entered;
    own_process = is_own arm.pid arm.current_pid;
    ack_open = arm.ack_open;
  }

  unfoldable pub reject_if_in_dfu : Act (Unit {0})
  reject_if_in_dfu arm = (if arm.dfu_entered then err arm_is_in_dfu else ok tt, arm)

  unfoldable pub reject_if_wrong_process : Act (Unit {0})
  reject_if_wrong_process arm =
      (if is_own arm.pid arm.current_pid then ok tt else err forked_session, arm)

  -- `require`, whose result is the queues, which are part of the state.
  unfoldable pub require : Act (Unit {0})
  unfolding reject_if_in_dfu reject_if_wrong_process
  require = do
    reject_if_in_dfu
    reject_if_wrong_process
    throw_if (← gets (λ arm. not arm.ack_open)) not_connected

  abbrev written : Option Failure → Result (Unit {0})
  written none = ok tt
  written (some e) = err e

  abbrev pub Brought : Type 0
  Brought = Written (Event floats cart_collector)

  abbrev pub first_write : List Brought → Brought
  first_write [] = record { fails = none; answers = [] }
  first_write (w ∷ writes) = w

  abbrev rest_of : List Brought → List Brought
  rest_of [] = []
  rest_of (w ∷ writes) = writes

  -- `tr_->write_frame`: the transport takes the frame, or throws. The reading thread may deliver the
  -- answer before the call goes on.
  unfoldable pub write_frame : ℕ → List ℕ → Act (Unit {0})
  write_frame cmd payload arm =
      let w = first_write arm.writes in
      let frame : SentFrame = record { cmd = cmd; payload = payload } in
      let out = record arm { sent = arm.sent ++ frame ∷ []; writes = rest_of arm.writes } in
      (written w.fails, hear w.answers out)

  abbrev pub with_cart : (CartPending → CartPending) → Arm → Arm
  with_cart f arm = record arm { box = record arm.box { collector = f arm.box.collector } }

  abbrev pub drain : ℕ → Arm → Arm
  drain cmd arm = record arm { box = if arm.ack_open then drain_for cmd arm.box else arm.box }

  -- The commands that void the firmware's plans clear the queue of requests.
  unfoldable pub void_plans : ℕ → Act (Unit {0})
  unfolding now_s
  void_plans cmd =
      if member cmd cart_clears_upon
      then (do t ← now_s; modify (with_cart (clear_pending t)))
      else pure tt

  -- The only exit of a frame.
  unfoldable pub raw_write : ℕ → List ℕ → Act (Unit {0})
  unfolding reject_if_in_dfu reject_if_wrong_process void_plans write_frame
  raw_write cmd payload = do
    reject_if_in_dfu
    reject_if_wrong_process
    void_plans cmd
    modify (drain cmd)
    write_frame cmd payload

  unfoldable pub write_query : ℕ → List ℕ → Act (Unit {0})
  unfolding require raw_write
  write_query cmd payload = do require; raw_write cmd payload

  unfoldable pub write_cmd : ℕ → List ℕ → Bool → Act (Unit {0})
  unfolding write_query
  write_cmd cmd payload guarded = do
    throw_if (← gets (λ arm. guarded && arm.zg_active)) invalid_command
    write_query cmd payload

  abbrev pub resume : {R : Type 0} → Outcome floats cart_collector R → Arm → Result R × Arm
  resume out arm = (out.result, record arm { box = out.box; later = out.later })

  -- `a.expect(want, timeout, label, raise_on_err, echo_cmd, err_waits_for_ack)`.
  unfoldable pub a_expect : ℕ → ℕ → Bool → Option ℕ → Bool → Act ExpectResult
  a_expect want timeout raise_on_err echo_cmd err_waits arm =
      resume
        (expect floats cart_collector (session arm) want timeout raise_on_err echo_cmd err_waits
          arm.later arm.box)
        arm

  unfoldable pub cmd_expect_ack : ℕ → List ℕ → ℕ → Act (Unit {0})
  unfolding require write_cmd a_expect
  cmd_expect_ack cmd payload timeout = do
    require
    write_cmd cmd payload true
    a_expect 0x45 timeout true (some cmd) false
    pure tt

  -- `a_->expect` as the calls of this file make it: a refusal is raised.
  unfoldable pub answer : ℕ → ℕ → Option ℕ → Act (List ℕ)
  unfolding a_expect
  answer want timeout echo_cmd = do r ← a_expect want timeout true echo_cmd false; pure r.payload
