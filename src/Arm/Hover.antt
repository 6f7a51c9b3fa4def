-- ===== src/Arm/Hover.antt =====
-- Zero gravity: the guard against a Cartesian motion and `zero_g_start`, `zg_keepalive` and
-- `zero_g_stop` of `src/arm.cpp`. A period is whole milliseconds. The lock makes each call whole, so
-- that the rounds of the other thread stand between calls.
use litearm_cpp.Base.{
  ℕ, List, [], ◌∷◌, Option, none, some, Bool, true, false, not, ◌==◌, ◌&&◌, ◌||◌, leb, ltb,
  if◌then◌else◌,
}
use litearm_cpp.Errors.{
  Failure, Result, ok, err, command_rejected, unsupported_by_firmware, transport, motion_timeout,
  invalid_command,
}
use litearm_cpp.Action.{
  pure, throw, gets, modify, result, throw_if, catch_all, attempt, ◌>>=◌, ◌>>◌,
}
use litearm_cpp.Floats.{Floats}
use litearm_cpp.State.{cart_busy}
use litearm_cpp.Arm.{Arm, Act, raw_write, write_cmd, cmd_expect_ack}
use litearm_cpp.Arm.Status.{get_status_now}

-- The three catches of `reject_if_cart_in_flight`.
abbrev pub unconfirmed : Failure → Failure
unconfirmed motion_timeout = invalid_command
unconfirmed transport = invalid_command
unconfirmed (command_rejected cmd code) = invalid_command
unconfirmed (unsupported_by_firmware cmd code) = invalid_command
unconfirmed e = e

module _ (floats : Floats) where
  unfoldable pub reject_if_cart_in_flight : Act floats (Unit {0})
  unfolding get_status_now
  reject_if_cart_in_flight = do
    throw_if (← gets (λ arm. arm.cart_serial)) invalid_command
    st ← catch_all (get_status_now floats 500) (λ e. throw (unconfirmed e))
    throw_if (cart_busy st) invalid_command

  -- The thread is started. Assigning it to a thread that is still joinable calls `std::terminate`:
  -- `terminated` says that the process has ended here, and nothing that the model computes after it
  -- is a run of the program.
  abbrev pub spawn : Arm floats → Arm floats
  spawn arm = record arm {
    zg_error = none;
    zg_active = true;
    zg_thread = true;
    zg_owner = arm.current_pid;
    terminated = arm.terminated || arm.zg_thread;
  }

  unfoldable pub zero_g_start : ℕ → Act floats (Unit {0})
  unfolding reject_if_cart_in_flight cmd_expect_ack
  zero_g_start period = do
    throw_if (not (leb 5 period && ltb period 100)) invalid_command
    idle ← gets (λ arm. not arm.zg_active)
    if idle then reject_if_cart_in_flight else pure tt
    active ← gets (λ arm. arm.zg_active)
    if active then pure tt else (do cmd_expect_ack floats 0x06 (1 ∷ []) 1200; modify spawn)

  -- The catch of the thread.
  abbrev pub lose : Failure → Arm floats → Arm floats
  lose e arm = record arm { zg_error = some e; zg_active = false }

  -- Whether the thread runs in this process: it runs until it is stopped or has failed.
  abbrev pub is_kept_alive : Arm floats → Bool
  is_kept_alive arm = arm.zg_active && (arm.zg_owner == arm.current_pid)

  -- A round of the thread.
  unfoldable pub zg_keepalive : Act floats (Unit {0})
  unfolding raw_write
  zg_keepalive = do
    running ← gets is_kept_alive
    if running then catch_all (raw_write floats 0x06 (1 ∷ [])) (λ e. modify (lose e)) else pure tt

  -- The flags are reset and the thread is joined.
  abbrev pub join : Arm floats → Arm floats
  join arm = record arm { zg_active = false; zg_thread = false; zg_error = none }

  abbrev pub is_linked : Option (List ℕ) → Bool
  is_linked none = false
  is_linked (some port) = true

  -- The exit frame, whose failure is kept.
  unfoldable pub leave : Bool → Act floats (Option Failure)
  unfolding write_cmd
  leave was_session = do
    linked ← gets (λ arm. is_linked arm.tr)
    if was_session && linked then attempt (write_cmd floats 0x06 (0 ∷ []) true) else pure none

  abbrev pub raise : Option Failure → Option Failure → Result (Unit {0})
  raise (some e) exit = err e
  raise none (some e) = err e
  raise none none = ok tt

  unfoldable pub zero_g_stop : Bool → Act floats (Unit {0})
  unfolding leave
  zero_g_stop raise_on_lost = do
    was_session ← gets (λ arm. arm.zg_thread || arm.zg_active)
    lost ← gets (λ arm. arm.zg_error)
    modify join
    exit ← leave was_session
    result (if raise_on_lost then raise lost exit else ok tt)
