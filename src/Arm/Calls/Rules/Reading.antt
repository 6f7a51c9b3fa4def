-- ===== src/Arm/Calls/Rules/Reading.antt =====
-- Reading the state and the stops preserve a stable predicate.
use litearm_cpp.Base.{refl, ℕ, List, [], Bool, false}
use litearm_cpp.Action.Preserves.{Preserves, Preserves-bind, preserves_rules}
use litearm_cpp.Floats.{Floats}
use litearm_cpp.Arm.{Arm, member, cmd_expect_ack, write_cmd}
use litearm_cpp.Arm.Stable.{
  Stable, now_s-Preserves, require-Preserves, a_expect-Preserves, raise_front-Preserves,
  pump-Preserves, until_lost-Preserves, answer-Preserves,
}
use litearm_cpp.Arm.Status.{
  pump_until, read_status, await_status, get_status_now, get_state, get_tcp, wait_until_link_lost,
}
use litearm_cpp.Arm.Safety.{disable, emergency_stop}
use litearm_cpp.Arm.Connect.{get_joint_param}
use litearm_cpp.Arm.Status

module _ (floats : Floats) (P : Arm floats → Type 0) (stable : Stable floats P) where
  open floats use {Double}
  open stable use {linked, queried, commanded, stopped}

  pub cmd_expect_ack-Preserves :
      (cmd : ℕ) (payload : List ℕ) (timeout : ℕ)
      → Preserves P (cmd_expect_ack floats cmd payload timeout)
  unfolding cmd_expect_ack
  cmd_expect_ack-Preserves cmd payload timeout =
      search (preserves_rules, require-Preserves, a_expect-Preserves, commanded) depth 12

  pub disable-Preserves : Preserves P (disable floats)
  unfolding disable
  disable-Preserves =
      Preserves-bind P (write_cmd floats 0x11 [] false) _ (stopped 0x11 (unfold member in refl))
        (λ done. search (preserves_rules, require-Preserves, answer-Preserves))

  pub emergency_stop-Preserves : Preserves P (emergency_stop floats)
  unfolding emergency_stop
  emergency_stop-Preserves =
      Preserves-bind P (write_cmd floats 0x12 [] false) _ (stopped 0x12 (unfold member in refl))
        (λ done. search (preserves_rules, require-Preserves, answer-Preserves))

  pub pump_until-Preserves :
      (timeout : ℕ) (done : Status.Queued floats → Bool)
      → Preserves P (pump_until floats timeout done)
  unfolding pump_until
  pump_until-Preserves timeout done =
      search (preserves_rules, require-Preserves, now_s-Preserves, pump-Preserves) depth 12

  pub read_status-Preserves : (timeout : ℕ) → Preserves P (read_status floats timeout)
  unfolding read_status
  read_status-Preserves timeout =
      search (preserves_rules, require-Preserves, pump_until-Preserves) depth 12

  pub get_state-Preserves :
      (refresh : Bool) (timeout : ℕ) → Preserves P (get_state floats refresh timeout)
  unfolding get_state
  get_state-Preserves refresh timeout =
      search (preserves_rules, require-Preserves, read_status-Preserves) depth 12

  pub await_status-Preserves : (timeout seq0 : ℕ) → Preserves P (await_status floats timeout seq0)
  unfolding await_status
  await_status-Preserves timeout seq0 =
      search (preserves_rules, pump_until-Preserves, raise_front-Preserves) depth 12

  pub get_status_now-Preserves : (timeout : ℕ) → Preserves P (get_status_now floats timeout)
  unfolding get_status_now
  get_status_now-Preserves timeout =
      let q = λ (payload : List ℕ). queried 0x40 payload (unfold member in refl) in
      search (preserves_rules, require-Preserves, q, await_status-Preserves) depth 12

  pub get_tcp-Preserves : (timeout : ℕ) → Preserves P (get_tcp floats timeout)
  unfolding get_tcp
  get_tcp-Preserves timeout =
      let q = λ (payload : List ℕ). queried 0x43 payload (unfold member in refl) in
      search (preserves_rules, require-Preserves, q, answer-Preserves) depth 12

  pub wait_until_link_lost-Preserves :
      (timeout : ℕ) → Preserves P (wait_until_link_lost floats timeout)
  unfolding wait_until_link_lost
  wait_until_link_lost-Preserves timeout =
      search (preserves_rules, require-Preserves, now_s-Preserves, until_lost-Preserves) depth 12

  pub get_joint_param-Preserves : (i : ℕ) → Preserves P (get_joint_param floats i)
  unfolding get_joint_param
  get_joint_param-Preserves i =
      let q = λ (payload : List ℕ). queried 0x24 payload (unfold member in refl) in
      search (preserves_rules, require-Preserves, q, answer-Preserves) depth 12
