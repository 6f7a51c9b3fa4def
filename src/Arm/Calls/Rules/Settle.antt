-- ===== src/Arm/Calls/Rules/Settle.antt =====
-- The wait for the end of a Cartesian motion preserves a stable predicate.
use litearm_cpp.Base.{ℕ, zero, suc, List, Option, none, some, Bool}
use litearm_cpp.Errors.{Result}
use litearm_cpp.Action.Preserves.{Preserves, preserves_rules}
use litearm_cpp.Floats.{Floats}
use litearm_cpp.Arm.{Arm, Act}
use litearm_cpp.Arm.Stable.{Stable, now_s-Preserves, require-Preserves}
use litearm_cpp.Arm.Pose.{is_over}
use litearm_cpp.Arm.Settle.{
  Arrived, Watch, seq_now, await_next, ended_or_on, settle_round, settle_loop, wait_settled,
  tcp_reached, settle,
}
use litearm_cpp.Arm.Calls.Rules.Reading.{pump_until-Preserves, get_tcp-Preserves}

module _ (floats : Floats) (P : Arm floats → Type 0) (stable : Stable floats P) where
  open floats use {Double}
  open stable use {linked}

  pub seq_now-Preserves : Preserves P (seq_now floats)
  unfolding seq_now
  seq_now-Preserves = search (preserves_rules, require-Preserves) depth 12

  pub is_over-Preserves : (end : ℕ) → Preserves P (is_over floats end)
  unfolding is_over
  is_over-Preserves end = search (preserves_rules, now_s-Preserves) depth 12

  await_next-Preserves : (end : ℕ) → Preserves P (await_next floats end)
  unfolding await_next
  await_next-Preserves end =
      search (preserves_rules, require-Preserves, now_s-Preserves, pump_until-Preserves) depth 14

  ended_or_on-Preserves :
      (ended : Option (Result (Arrived floats))) (rest : Act floats (Arrived floats))
      → Preserves P rest
      → Preserves P (ended_or_on floats ended rest)
  ended_or_on-Preserves none rest h = h
  ended_or_on-Preserves (some r) rest h = search preserves_rules

  settle_round-Preserves :
      (end : ℕ) (w : Watch floats) (rest : Watch floats → Act floats (Arrived floats))
      → ((w : Watch floats) → Preserves P (rest w))
      → Preserves P (settle_round floats end w rest)
  unfolding settle_round
  settle_round-Preserves end w rest h =
      search (preserves_rules, await_next-Preserves, ended_or_on-Preserves, h) depth 14

  settle_loop-Preserves :
      (end rounds : ℕ) (w : Watch floats) → Preserves P (settle_loop floats end rounds w)
  unfolding settle_loop
  settle_loop-Preserves end zero w = search preserves_rules
  settle_loop-Preserves end (suc rounds) w =
      let rest = settle_loop-Preserves end rounds in
      search (preserves_rules, is_over-Preserves, settle_round-Preserves) depth 14

  wait_settled-Preserves : (seq0 : Option ℕ) → Preserves P (wait_settled floats seq0)
  unfolding wait_settled
  wait_settled-Preserves seq0 =
      search (preserves_rules, now_s-Preserves, settle_loop-Preserves) depth 14

  tcp_reached-Preserves : (is_near : List Double → Bool) → Preserves P (tcp_reached floats is_near)
  unfolding tcp_reached
  tcp_reached-Preserves is_near = search (preserves_rules, get_tcp-Preserves) depth 14

  pub settle-Preserves :
      (is_near : List Double → Bool) (seq0 : Option ℕ) → Preserves P (settle floats is_near seq0)
  unfolding settle
  settle-Preserves is_near seq0 =
      search (preserves_rules, wait_settled-Preserves, tcp_reached-Preserves) depth 14
