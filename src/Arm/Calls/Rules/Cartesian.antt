-- ===== src/Arm/Calls/Rules/Cartesian.antt =====
-- The Cartesian entry points preserve a stable predicate.
use litearm_cpp.Base.{◌+◌, ℕ, List, [], ◌∷◌, Option, Bool}
use litearm_cpp.Errors.{Failure, Result, is_command_rejected}
use litearm_cpp.Action.Preserves.{
  Preserves, Preserves-bind, Preserves-gets, Preserves-pure, Preserves-if, Preserves-throw,
  Preserves-catch, preserves_rules,
}
use litearm_cpp.Floats.{Floats}
use litearm_cpp.Arm.{Arm}
use litearm_cpp.Arm.Stable.{
  Stable, now_s-Preserves, require-Preserves, a_expect-Preserves, with_cart-Preserves,
  await_reply-Preserves,
}
use litearm_cpp.Cart.{register_token, drop_token}
use litearm_cpp.Arm.Cartesian.{
  is_transport, register, drop_on, await_accept, request_and_wait, enter_cart, require_cart_support,
  reject_in_zero_g, move_l, move_c, add_points, move_path,
}
use litearm_cpp.Arm.Calls.Rules.Settle.{seq_now-Preserves, settle-Preserves}
use litearm_cpp.Arm.Calls.Rules.Reading.{cmd_expect_ack-Preserves, get_tcp-Preserves}

module _ (floats : Floats) (P : Arm floats → Type 0) (stable : Stable floats P) where
  open floats use {Double}
  open stable use {linked, queried, commanded, stopped}

  register-Preserves : Preserves P (register floats)
  unfolding register
  register-Preserves = Preserves-bind P _ _ (Preserves-gets P _) λ id.
      Preserves-bind P _ _ (with_cart-Preserves floats P linked register_token)
        λ u. Preserves-pure P id

  drop_on-Preserves :
      {R : Type 0} (is_caught : Failure → Bool) (id : ℕ) (e : Failure)
      → Preserves P (drop_on floats {R = R} is_caught id e)
  unfolding drop_on
  drop_on-Preserves is_caught id e =
      Preserves-bind P _ _
        (Preserves-if P (is_caught e) _ _ (with_cart-Preserves floats P linked (drop_token id))
          (Preserves-pure P tt))
        λ u. Preserves-throw P e

  await_accept-Preserves : (cmd : ℕ) → Preserves P (await_accept floats cmd)
  unfolding await_accept
  await_accept-Preserves cmd = search (preserves_rules, require-Preserves, a_expect-Preserves)

  request_and_wait-Preserves :
      (cmd : ℕ) (payload : List ℕ) (is_near : List Double → Bool) (seq0 : Option ℕ) (awaited : Bool)
      → Preserves P (request_and_wait floats cmd payload is_near seq0 awaited)
  unfolding request_and_wait
  request_and_wait-Preserves cmd payload is_near seq0 awaited =
      let asked = λ (id : ℕ).
        Preserves-catch P _ _ (commanded cmd payload) (drop_on-Preserves is_transport id) in
      let taken = λ (id : ℕ).
        Preserves-catch P _ _ (await_accept-Preserves cmd)
          (drop_on-Preserves is_command_rejected id) in
      Preserves-bind P _ _ register-Preserves λ id. Preserves-bind P _ _ (asked id) λ u.
        Preserves-bind P _ _ (taken id) λ u. Preserves-bind P _ _ (Preserves-gets P _) λ timeout.
          Preserves-bind P _ _ (now_s-Preserves floats P linked) λ start.
            Preserves-bind P _ _ (await_reply-Preserves floats P linked id (start + timeout))
              λ reply. search (preserves_rules, settle-Preserves) depth 12

  enter_cart-Preserves : Preserves P (enter_cart floats)
  unfolding enter_cart require_cart_support reject_in_zero_g
  enter_cart-Preserves = search (preserves_rules, require-Preserves) depth 12

  pub move_l-Preserves :
      (is_near : List Double → List Double → Bool) (pose : Result (List Double)) (speed : Double)
      (awaited : Bool)
      → Preserves P (move_l floats is_near pose speed awaited)
  unfolding move_l
  move_l-Preserves is_near pose speed awaited =
      search (preserves_rules, enter_cart-Preserves, seq_now-Preserves, request_and_wait-Preserves)
        depth 14

  pub move_c-Preserves :
      (is_near : List Double → List Double → Bool) (start via goal : Result (List Double))
      (speed : Double) (awaited : Bool)
      → Preserves P (move_c floats is_near start via goal speed awaited)
  unfolding move_c
  move_c-Preserves is_near start via goal speed awaited =
      search
        (
          preserves_rules, enter_cart-Preserves, get_tcp-Preserves, seq_now-Preserves,
          request_and_wait-Preserves,
        )
        depth 18

  add_points-Preserves :
      (vecs : List (List Double)) (i : ℕ) → Preserves P (add_points floats i vecs)
  unfolding add_points
  add_points-Preserves [] i = Preserves-pure P tt
  add_points-Preserves (vec ∷ vecs) i =
      Preserves-bind P _ _ (cmd_expect_ack-Preserves floats P stable 0x3d _ 1200)
        λ u. add_points-Preserves vecs (i + 1)

  pub move_path-Preserves :
      (is_near : List Double → List Double → Bool) (poses : List (Result (List Double)))
      (speed : Double) (awaited : Bool)
      → Preserves P (move_path floats is_near poses speed awaited)
  unfolding move_path
  move_path-Preserves is_near poses speed awaited =
      search
        (
          preserves_rules, enter_cart-Preserves, seq_now-Preserves, cmd_expect_ack-Preserves,
          add_points-Preserves, request_and_wait-Preserves,
        )
        depth 18
