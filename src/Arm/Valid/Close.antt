-- ===== src/Arm/Valid/Close.antt =====
-- Leaving zero gravity and closing keep the invariant; after closing the session is closed.
use litearm_cpp.Base.{
  ◌≡◌, refl, sym, arith, Option, Bool, true, false, not, ◌||◌, if◌then◌else◌, Bool-cases, inl, inr,
}
use litearm_cpp.Errors.{Failure, Result, ok, err}
use litearm_cpp.Action.{gets, modify, result, pure, then_do, rescue, catch_all, ◌>>=◌}
use litearm_cpp.Action.Preserves.{Preserves, Preserves-modify, preserves_rules}
use litearm_cpp.Floats.{Floats}
use litearm_cpp.Arm.{Arm, is_own}
use litearm_cpp.Arm.Hover.{is_linked, join, raise, leave, lose, zero_g_stop, zg_keepalive}
use litearm_cpp.Arm.Connect.{
  clear_session_state, abandon_session, shut_down, stop_quietly, close_own, close,
}
use litearm_cpp.Arm.Inert.{Inert, raw_write-Preserves, write_cmd-Preserves}
use litearm_cpp.Arm.Valid.{IsAt, IsAt-Inert}

module _ (floats : Floats) (dfu : Bool) where
  join-IsAt : (arm : Arm floats) → IsAt floats dfu arm → IsAt floats dfu (join floats arm)
  join-IsAt arm (v, d) = (
    record {
      linked = v.linked;
      stamped = v.stamped;
      cleared = v.cleared;
      gone = v.gone;
      bounded = v.bounded;
      threaded = λ e. cc;
      owned = λ e. cc;
      numbered = v.numbered;
      known = v.known;
    },
    d,
  )

  lose-IsAt :
      (e : Failure) (arm : Arm floats) → IsAt floats dfu arm → IsAt floats dfu (lose floats e arm)
  lose-IsAt e arm (v, d) = (
    record {
      linked = v.linked;
      stamped = v.stamped;
      cleared = v.cleared;
      gone = v.gone;
      bounded = v.bounded;
      threaded = λ e. cc;
      owned = λ e. cc;
      numbered = v.numbered;
      known = v.known;
    },
    d,
  )

  leave-IsAt : (was_session : Bool) → Preserves (IsAt floats dfu) (leave floats was_session)
  unfolding leave
  leave-IsAt was_session =
      search (preserves_rules, write_cmd-Preserves floats (IsAt floats dfu) (IsAt-Inert floats dfu))

  joined : Preserves (IsAt floats dfu) (modify (join floats))
  joined = Preserves-modify (IsAt floats dfu) (join floats) join-IsAt

  pub zero_g_stop-IsAt :
      (raise_on_lost : Bool) → Preserves (IsAt floats dfu) (zero_g_stop floats raise_on_lost)
  unfolding zero_g_stop
  zero_g_stop-IsAt raise_on_lost = search (preserves_rules, joined, leave-IsAt) depth 12

  lost : (e : Failure) → Preserves (IsAt floats dfu) (modify (lose floats e))
  lost e = Preserves-modify (IsAt floats dfu) (lose floats e) (lose-IsAt e)

  pub zg_keepalive-IsAt : Preserves (IsAt floats dfu) (zg_keepalive floats)
  unfolding zg_keepalive
  zg_keepalive-IsAt =
      search
        (
          preserves_rules,
          lost,
          raw_write-Preserves floats (IsAt floats dfu) (IsAt-Inert floats dfu),
        )
        depth 12

  -- Valid, with zero gravity left.
  abbrev pub IsIdle : Arm floats → Type 0
  IsIdle arm = IsAt floats dfu arm × (arm.zg_active ≡ false)

  IsIdle-Inert : Inert floats IsIdle
  IsIdle-Inert arm box later sent writes (h, idle) =
      (IsAt-Inert floats dfu arm box later sent writes h, idle)

  leave-IsIdle : (was_session : Bool) → Preserves IsIdle (leave floats was_session)
  unfolding leave
  leave-IsIdle was_session =
      search (preserves_rules, write_cmd-Preserves floats IsIdle IsIdle-Inert)

  left :
      (was_session : Bool) (r : Option Failure → Result (Unit {0}))
      → Preserves IsIdle (leave floats was_session >>= λ exit. result (r exit))
  left was_session r = search (preserves_rules, leave-IsIdle)

  zero_g_stop-IsIdle :
      (raise_on_lost : Bool) (arm : Arm floats)
      → IsAt floats dfu arm
      → IsIdle ((zero_g_stop floats raise_on_lost arm).1)
  unfolding zero_g_stop gets modify ◌>>=◌
  zero_g_stop-IsIdle raise_on_lost arm h =
      (left (arm.zg_thread || arm.zg_active)
          (λ exit. if raise_on_lost then raise floats arm.zg_error exit else ok tt)).holds
        (join floats arm) (join-IsAt arm h, refl)

  rescued :
      (r : Result (Unit {0})) (arm : Arm floats)
      → IsIdle arm
      → let out = rescue (λ e. pure tt) (r, arm) in (out.0 ≡ ok tt) × IsIdle (out.1)
  unfolding pure
  rescued (ok u) arm h = (refl, h)
  rescued (err e) arm h = (refl, h)

  stop_quietly-IsIdle :
      (arm : Arm floats)
      → IsAt floats dfu arm
      → ((stop_quietly floats arm).0 ≡ ok tt) × IsIdle ((stop_quietly floats arm).1)
  unfolding stop_quietly gets catch_all ◌>>=◌ pure
  stop_quietly-IsIdle arm h = elim (Bool-cases (arm.zg_thread || arm.zg_active)) [
    | inl e ↦
        let out = zero_g_stop floats false arm in
        rw e (rescued (out.0) (out.1) (zero_g_stop-IsIdle false arm h))
    | inr e ↦ rw e (refl, (h, ground (arith, e)))
  ]

  abbrev pub IsShut : Arm floats → Type 0
  IsShut arm = IsAt floats dfu arm × (arm.ack_open ≡ false)

  shut_down-IsShut : (arm : Arm floats) → IsIdle arm → IsShut (shut_down floats arm)
  unfolding clear_session_state
  shut_down-IsShut arm ((v, d), idle) =
      let closed : (if is_linked floats arm.tr then false else arm.ack_open) ≡ false =
        ground (arith, v.linked) in
      (
        (
          record {
            linked = sym closed;
            stamped = sym closed;
            cleared = λ e. (refl, refl, refl, refl);
            gone = λ e. closed;
            bounded = v.bounded;
            threaded = v.threaded;
            owned = λ e. ground (arith, e, idle);
            numbered = v.numbered;
            known = tt;
          },
          d,
        ),
        closed,
      )

  abandon-IsShut :
      (arm : Arm floats)
      → IsAt floats dfu arm
      → not (is_own floats arm.pid arm.current_pid) ≡ true
      → IsShut (abandon_session floats arm)
  abandon-IsShut arm (v, d) foreign = (
    (
      record {
        linked = refl;
        stamped = refl;
        cleared = λ e. (refl, refl, refl, refl);
        gone = λ e. refl;
        bounded = v.bounded;
        threaded = v.threaded;
        owned = λ e. ground (arith, v.owned e, foreign);
        numbered = v.numbered;
        known = tt;
      },
      d,
    ),
    refl,
  )

  IsShut-after :
      (r : Result (Unit {0})) (arm : Arm floats)
      → (r ≡ ok tt) × IsIdle arm
      → let out = then_do (λ (u : Unit {0}). modify (shut_down floats)) (r, arm) in
        (out.0 ≡ ok tt) × IsShut (out.1)
  unfolding modify
  IsShut-after (ok u) arm (e, h) = (refl, shut_down-IsShut arm h)
  IsShut-after (err f) arm (e, h) = cc

  -- Closing a valid session always succeeds, and leaves it valid and closed.
  pub close-IsShut :
      (arm : Arm floats)
      → IsAt floats dfu arm
      → ((close floats arm).0 ≡ ok tt) × IsShut ((close floats arm).1)
  unfolding close close_own gets ◌>>=◌ modify
  close-IsShut arm h = elim (Bool-cases (not (is_own floats arm.pid arm.current_pid))) [
    | inl e ↦ rw e (refl, abandon-IsShut arm h e)
    | inr e ↦
        let out = stop_quietly floats arm in
        rw e (IsShut-after (out.0) (out.1) (stop_quietly-IsIdle arm h))
  ]
