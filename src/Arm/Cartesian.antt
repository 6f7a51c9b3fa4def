-- ===== src/Arm/Cartesian.antt =====
-- The Cartesian entry points `move_l`, `move_c` and `move_path` of `src/cart.cpp`. A pose is what its
-- conversion gives, which may throw; the judgement of `pose_near` is an argument. The lock lets one
-- call in at a time.
use litearm_cpp.Base.{
  ℕ, ◌+◌, List, [], ◌∷◌, ◌++◌, Option, none, some, Bool, true, false, not, ◌==◌, ◌||◌, leb, ltb,
  if◌then◌else◌, length,
}
use litearm_cpp.Errors.{
  Failure, Result, ok, err, transport, invalid_command, unsupported_by_firmware,
  is_command_rejected,
}
use litearm_cpp.Action.{pure, throw, gets, modify, result, throw_if, catch_all, ◌>>=◌, ◌>>◌}
use litearm_cpp.Floats.{Floats}
use litearm_cpp.Protocol.Frame.{u8}
use litearm_cpp.Protocol.Scalar.{pack_f32s, pack_f32le}
use litearm_cpp.Ack.Wait.{Moments}
use litearm_cpp.Cart.{
  CartPlan, cart_collector, register_token, drop_token, from_reply, raise_for_plan,
}
use litearm_cpp.Cart.Wait.{Ending, settled, timed_out, link_down, is_settled, conclude}
use litearm_cpp.Arm.{Arm, Act, hear, now_s, require, write_cmd, a_expect, cmd_expect_ack, with_cart}
use litearm_cpp.Arm.Status.{get_tcp}
use litearm_cpp.Arm.Move.{is_speed}
use litearm_cpp.Arm.Settle.{Arrived, not_awaited, seq_now, settle, back}

-- A transport error says that no frame went out whole.
abbrev pub is_transport : Failure → Bool
is_transport transport = true
is_transport e = false

module _ (floats : Floats) where
  open floats use {Double}

  unfoldable pub require_cart_support : Act floats (Unit {0})
  require_cart_support = gets (λ arm. not arm.cart_supported) >>= λ missing.
      throw_if missing (unsupported_by_firmware 0x3a 0)

  unfoldable pub reject_in_zero_g : Act floats (Unit {0})
  reject_in_zero_g = gets (λ arm. arm.zg_active) >>= λ active. throw_if active invalid_command

  unfoldable pub as_speed : Double → Result Double
  unfolding is_speed
  as_speed speed = if is_speed floats speed then ok speed else err invalid_command

  -- `link_dead`.
  abbrev pub link_dead : Arm floats → Bool
  link_dead arm = not arm.ack_open || arm.box.reader_error

  -- The loop of `CartPending::wait`, on the readings that are left.
  unfoldable pub token_loop :
      ℕ → ℕ → Moments floats cart_collector → Arm floats → Ending × Arm floats
  token_loop id end [] arm =
      (if is_settled (arm.box.collector.tokens id) then settled else timed_out end, arm)
  token_loop id end (m ∷ moments) arm =
      let next = hear floats m.arrived (record arm { later = moments }) in
      let rest = token_loop id end moments next in
      if is_settled (arm.box.collector.tokens id)
      then (settled, arm)
      else if leb end m.now
      then (timed_out m.now, arm)
      else if link_dead next
      then (link_down m.now, next)
      else rest

  abbrev pub concluded : ℕ → Ending × Arm floats → Result (List ℕ) × Arm floats
  concluded id (ending, arm) =
      let (r, p) = conclude id (ending, arm.box.collector) in (r, with_cart floats (λ cart. p) arm)

  unfoldable pub await_reply : ℕ → ℕ → Act floats (List ℕ)
  unfolding token_loop
  await_reply id end arm = concluded id (token_loop id end arm.later arm)

  unfoldable pub register : Act floats ℕ
  register = do
    id ← gets (λ arm. arm.box.collector.next_token)
    modify (with_cart floats register_token)
    pure id

  -- The catches that take the token off.
  unfoldable pub drop_on : {R : Type 0} → (Failure → Bool) → ℕ → Failure → Act floats R
  drop_on is_caught id e = do
    if is_caught e then modify (with_cart floats (drop_token id)) else pure tt
    throw e

  -- The wait for the acknowledgement, in which a refusal does not hide one.
  unfoldable pub await_accept : ℕ → Act floats (Unit {0})
  unfolding require a_expect
  await_accept cmd = do require floats; a_expect floats 0x45 1000 true (some cmd) true; pure tt

  -- A `CartPlan`: what the reply says, and what the wait for the end fills in.
  pub record CartMove : Type 0 where
    pub plan : CartPlan
    pub arrived : Arrived floats

  unfoldable pub request_and_wait :
      ℕ → List ℕ → (List Double → Bool) → Option ℕ → Bool → Act floats CartMove
  unfolding register drop_on write_cmd await_accept now_s await_reply settle
  request_and_wait cmd payload is_near seq0 awaited = do
    id ← register
    catch_all (write_cmd floats cmd payload true) (drop_on is_transport id)
    catch_all (await_accept cmd) (drop_on is_command_rejected id)
    timeout ← gets (λ arm. arm.tol.move_timeout)
    start ← now_s floats
    reply ← await_reply id (start + timeout)
    plan ← result (from_reply reply)
    result (raise_for_plan plan)
    arrived ← if awaited then settle floats is_near seq0 else pure (not_awaited floats)
    pure (record { plan = plan; arrived = arrived })

  -- The guards that each entry point begins with.
  unfoldable pub enter_cart : Act floats (Unit {0})
  unfolding require require_cart_support reject_in_zero_g
  enter_cart = do require floats; require_cart_support; reject_in_zero_g

  unfoldable pub move_l :
      (List Double → List Double → Bool)
      → Result (List Double)
      → Double
      → Bool
      → Act floats CartMove
  unfolding enter_cart as_speed seq_now request_and_wait
  move_l is_near pose speed awaited = do
    enter_cart
    vec ← result pose
    sp ← result (as_speed speed)
    seq0 ← seq_now floats
    request_and_wait 0x3a (pack_f32s floats vec ++ pack_f32le floats sp) (λ tcp. is_near tcp vec)
        seq0 awaited

  abbrev or_transport : Option (List Double) → Result (List Double)
  or_transport none = err transport
  or_transport (some tcp) = ok tcp

  unfoldable pub move_c :
      (List Double → List Double → Bool)
      → Result (List Double)
      → Result (List Double)
      → Result (List Double)
      → Double
      → Bool
      → Act floats CartMove
  unfolding enter_cart as_speed get_tcp seq_now request_and_wait
  move_c is_near pose_start pose_via pose_goal speed awaited = do
    enter_cart
    start ← result pose_start
    via ← result pose_via
    goal ← result pose_goal
    sp ← result (as_speed speed)
    tcp ← get_tcp floats 600
    at ← result (or_transport tcp)
    throw_if (not (is_near at start)) invalid_command
    seq0 ← seq_now floats
    request_and_wait 0x3b (pack_f32s floats via ++ pack_f32s floats goal ++ pack_f32le floats sp)
        (λ tcp. is_near tcp goal) seq0 awaited

  -- Every pose of a path is converted before the first frame.
  unfoldable pub all_poses : List (Result (List Double)) → Result (List (List Double))
  all_poses [] = ok []
  all_poses (err e ∷ poses) = err e
  all_poses (ok vec ∷ poses) = elim (all_poses poses) [ err e ↦ err e | ok vecs ↦ ok (vec ∷ vecs) ]

  -- `CART_ADD` for each point, from the index `i`.
  unfoldable pub add_points : ℕ → List (List Double) → Act floats (Unit {0})
  unfolding cmd_expect_ack
  add_points i [] = pure tt
  add_points i (vec ∷ vecs) = do
    cmd_expect_ack floats 0x3d (u8 i ∷ pack_f32s floats vec) 1200
    add_points (i + 1) vecs

  unfoldable pub move_path :
      (List Double → List Double → Bool)
      → List (Result (List Double))
      → Double
      → Bool
      → Act floats CartMove
  unfolding enter_cart all_poses as_speed seq_now cmd_expect_ack add_points request_and_wait back
  move_path is_near poses speed awaited = do
    enter_cart
    throw_if (length poses == 0) invalid_command
    throw_if (ltb 32 (length poses)) invalid_command
    pts ← result (all_poses poses)
    sp ← result (as_speed speed)
    seq0 ← seq_now floats
    cmd_expect_ack floats 0x3c (u8 (length pts) ∷ pack_f32le floats sp) 1200
    add_points 0 pts
    request_and_wait 0x3e [] (λ tcp. is_near tcp (back floats pts)) seq0 awaited
