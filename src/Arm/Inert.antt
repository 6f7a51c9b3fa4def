-- ===== src/Arm/Inert.antt =====
-- A predicate that does not read the link (the queues, the readings to come, the frames written and
-- the writes to come) is stable.
use litearm_cpp.Base.{ℕ, List, [], Bool, true, false}
use litearm_cpp.Action.{modify}
use litearm_cpp.Action.Preserves.{
  Preserves, Preserves-if, Preserves-bind, Preserves-pure, preserves_rules,
}
use litearm_cpp.Floats.{Floats}
use litearm_cpp.Ack.Wait.{Moments}
use litearm_cpp.Cart.{cart_collector, cart_clears_upon, clear_pending}
use litearm_cpp.Arm.{
  Arm, SentFrame, Brought, member, reject_if_in_dfu, reject_if_wrong_process, drain, void_plans,
  write_frame, raw_write, write_query, write_cmd,
}
use litearm_cpp.Arm.Status.{Queued}
use litearm_cpp.Arm.Stable.{Linked, Stable, now_s-Preserves, require-Preserves, with_cart-Preserves}

module _ (floats : Floats) (P : Arm floats → Type 0) where
  -- What a write does beside the link is up to `write_frame`.
  module _ (linked : Linked floats P) where
    pub drain-Preserves : (cmd : ℕ) → Preserves P (modify (drain floats cmd))
    unfolding modify
    drain-Preserves cmd = record { holds = λ arm h. linked arm _ arm.later h }

    pub reject_if_in_dfu-Preserves : Preserves P (reject_if_in_dfu floats)
    unfolding reject_if_in_dfu
    reject_if_in_dfu-Preserves = record { holds = λ arm h. h }

    pub reject_if_wrong_process-Preserves : Preserves P (reject_if_wrong_process floats)
    unfolding reject_if_wrong_process
    reject_if_wrong_process-Preserves = record { holds = λ arm h. h }

    pub void_plans-Preserves : (cmd : ℕ) → Preserves P (void_plans floats cmd)
    unfolding void_plans
    void_plans-Preserves cmd =
        Preserves-if P (member cmd cart_clears_upon) _ _
          (Preserves-bind P _ _ (now_s-Preserves floats P linked)
            λ t. with_cart-Preserves floats P linked (clear_pending t))
          (Preserves-pure P tt)

    pub raw_write-Linked :
        (cmd : ℕ) (payload : List ℕ)
        → Preserves P (write_frame floats cmd payload)
        → Preserves P (raw_write floats cmd payload)
    unfolding raw_write
    raw_write-Linked cmd payload written =
        search
          (
            preserves_rules, reject_if_in_dfu-Preserves, reject_if_wrong_process-Preserves,
            void_plans-Preserves, drain-Preserves,
          )
          depth 12

    pub write_query-Linked :
        (cmd : ℕ) (payload : List ℕ)
        → Preserves P (write_frame floats cmd payload)
        → Preserves P (write_query floats cmd payload)
    unfolding write_query
    write_query-Linked cmd payload written =
        search (preserves_rules, require-Preserves floats P linked, raw_write-Linked)

  abbrev pub Inert : Type 0
  Inert =
      (arm : Arm floats) (box : Queued floats) (later : Moments floats cart_collector)
      (sent : List SentFrame) (writes : List (Brought floats))
      → P arm
      → P (record arm { box = box; later = later; sent = sent; writes = writes })

  module _ (inert : Inert) where
    linked : Linked floats P
    linked arm box later h = inert arm box later arm.sent arm.writes h

    write_frame-Preserves :
        (cmd : ℕ) (payload : List ℕ) → Preserves P (write_frame floats cmd payload)
    unfolding write_frame
    write_frame-Preserves cmd payload = record { holds = λ arm h. inert arm _ arm.later _ _ h }

    pub raw_write-Preserves :
        (cmd : ℕ) (payload : List ℕ) → Preserves P (raw_write floats cmd payload)
    raw_write-Preserves cmd payload =
        raw_write-Linked linked cmd payload (write_frame-Preserves cmd payload)

    pub write_query-Preserves :
        (cmd : ℕ) (payload : List ℕ) → Preserves P (write_query floats cmd payload)
    write_query-Preserves cmd payload =
        write_query-Linked linked cmd payload (write_frame-Preserves cmd payload)

    pub write_cmd-Preserves :
        (cmd : ℕ) (payload : List ℕ) (guarded : Bool)
        → Preserves P (write_cmd floats cmd payload guarded)
    unfolding write_cmd
    write_cmd-Preserves cmd payload guarded = search (preserves_rules, write_query-Preserves)

    pub inert-Stable : Stable floats P
    inert-Stable = record {
      linked = linked;
      queried = λ cmd payload known. write_query-Preserves cmd payload;
      commanded = λ cmd payload. write_cmd-Preserves cmd payload true;
      stopped = λ cmd known. write_cmd-Preserves cmd [] false;
    }
