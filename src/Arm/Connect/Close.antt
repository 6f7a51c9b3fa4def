-- ===== src/Arm/Connect/Close.antt =====
-- `close` and `clear_session_state` of `src/arm.cpp`.
use litearm_cpp.Base.{[], none, false, not, ◌||◌, if◌then◌else◌}
use litearm_cpp.Errors.{Failure}
use litearm_cpp.Action.{pure, throw, gets, modify, catch_all, ◌>>=◌, ◌>>◌}
use litearm_cpp.Floats.{Floats}
use litearm_cpp.Arm.{Arm, Act, is_own}
use litearm_cpp.Arm.Hover.{zero_g_stop, is_linked}

module _ (floats : Floats) where
  unfoldable pub clear_session_state : Arm floats → Arm floats
  clear_session_state arm = record arm {
    firmware = [];
    fw_version = none;
    n = 0;
    cart_supported = false;
    cart_probe_silent = false;
    pid = none;
    live_port = [];
  }

  -- The branch of `close` for a forked process: the handles are let go, nothing is written.
  abbrev pub abandon_session : Arm floats → Arm floats
  abandon_session arm = record arm {
    ack_open = false;
    tr = none;
    firmware = [];
    fw_version = none;
    n = 0;
    cart_supported = false;
    cart_probe_silent = false;
    pid = none;
  }

  abbrev pub unlink : Arm floats → Arm floats
  unlink arm = record arm {
    tr = none;
    ack_open = if is_linked floats arm.tr then false else arm.ack_open;
  }

  -- Zero gravity is left, whatever that throws.
  unfoldable pub stop_quietly : Act floats (Unit {0})
  unfolding zero_g_stop
  stop_quietly = do
    hovering ← gets (λ arm. arm.zg_thread || arm.zg_active)
    if hovering then catch_all (zero_g_stop floats false) (λ e. pure tt) else pure tt

  abbrev pub shut_down : Arm floats → Arm floats
  shut_down arm = clear_session_state (unlink arm)

  unfoldable pub close_own : Act floats (Unit {0})
  unfolding stop_quietly clear_session_state
  close_own = do stop_quietly; modify shut_down

  unfoldable pub close : Act floats (Unit {0})
  unfolding close_own
  close = do
    foreign ← gets (λ arm. not (is_own floats arm.pid arm.current_pid))
    if foreign then modify abandon_session else close_own

  -- `catch (...) { close(); throw; }`
  abbrev pub close_and_throw : {R : Type 0} → Failure → Act floats R
  close_and_throw e = do close; throw e
