-- ===== src/Ack/Refusal.antt =====
-- A refusal that stands before the acknowledgement: `err_waits_for_ack` of `Ack::expect`.
use litearm_cpp.Base.{
  ℕ, ◌+◌, ◌<◌, ◌≡◌, ap, subst, sym, ◌∙◌, inl, inr, List, [], ◌∷◌, Option, some, arith, Bool, true,
  false, Bool-cases, ◌==◌, leb, ltb, if◌then◌else◌,
}
use litearm_cpp.Errors.{ok, err}
use litearm_cpp.Errors.Reason.{raise_firmware_error}
use litearm_cpp.Floats.{Floats}
use litearm_cpp.Ack.{
  QueueKey, QueueEntry, Queue, echoed, wait_keys, set_queue, Collector, Event, reader_loop,
}
use litearm_cpp.Ack.Wait.{
  look, Moment, Session, guard_for_ack_wait, ExpectResult, ack_kind, Box, Moments, Outcome, arrive,
  found, round, wait_loop, wait, waited, expect, expect_once,
}

-- A session on which a wait is allowed.
abbrev pub open_session : Session
open_session = record { in_dfu = false; own_process = true; ack_open = true }

module _ (floats : Floats) (cart : Collector) where
  -- A reading before which nothing arrives.
  abbrev pub quiet : ℕ → Moment (Event floats cart)
  quiet now = record { now = now; arrived = [] }

  pub arrive-quiet : (box : Box floats cart) → arrive floats cart [] box ≡ box
  unfolding arrive reader_loop
  arrive-quiet box = elim (Bool-cases box.reader_error) [
    | inl e ↦ ground (arith, e)
    | inr e ↦ ground (arith, e)
  ]

  -- The wait at two quiet readings in time takes what one look finds.
  pub waited-found :
      (keys : List QueueKey) (end now start : ℕ) (moments : Moments floats cart)
      (box later : Box floats cart) (e : QueueEntry)
      → now < end
      → round floats cart keys box ≡ found e later
      → waited floats cart open_session keys end (quiet now ∷ quiet start ∷ moments) box
        ≡ record { result = ok (some e); box = later; later = moments }
  unfolding wait wait_loop guard_for_ack_wait
  waited-found keys end now start [] box later e h is =
      let early : leb end now ≡ false = ground (arith, h) in
      let calm = ap (arrive floats cart []) (arrive-quiet box) ∙ arrive-quiet box in
      simp (early, calm, is)
  waited-found keys end now start (m ∷ moments) box later e h is =
      let early : leb end now ≡ false = ground (arith, h) in
      let calm = ap (arrive floats cart []) (arrive-quiet box) ∙ arrive-quiet box in
      simp (early, calm, is)

  module _ (cmd : ℕ) (refusal ack : QueueEntry) (acks : Queue) (box : Box floats cart) where
    abbrev keys : List QueueKey
    keys = echoed 0x45 cmd ∷ echoed 0x46 cmd ∷ []

    -- What stands in the two queues: one refusal, and an acknowledgement that arrived after it.
    abbrev pub IsRefusedFirst : Type 0
    IsRefusedFirst =
        (box.queues (echoed 0x45 cmd) ≡ ack ∷ acks)
        × (box.queues (echoed 0x46 cmd) ≡ refusal ∷ [])
        × (refusal.seq < ack.seq)
        × (refusal.id ≡ 0x46)
        × (ack.id ≡ 0x45)

    abbrev after_refusal : Box floats cart
    after_refusal = record box { queues = set_queue (echoed 0x46 cmd) [] box.queues }

    abbrev after_ack : Box floats cart
    after_ack = record after_refusal {
      queues = set_queue (echoed 0x45 cmd) acks after_refusal.queues;
    }

    first_round : IsRefusedFirst → round floats cart keys box ≡ found refusal after_refusal
    unfolding round look
    first_round (acked, refused, order, r, a) =
        let earlier : ltb refusal.seq ack.seq ≡ true = ground (arith, order) in
        simp (acked, refused, earlier)

    second_round : IsRefusedFirst → round floats cart keys after_refusal ≡ found ack after_ack
    unfolding round look
    second_round (acked, refused, order, r, a) =
        let self : (cmd == cmd) ≡ true = ground arith in simp (acked, self)

    -- What the first wait brings, and what `expect` makes of it.
    abbrev first_out : Moments floats cart → Outcome floats cart (Option QueueEntry)
    first_out moments = record { result = ok (some refusal); box = after_refusal; later = moments }

    first_wait :
        (end t1 t2 : ℕ) (moments : Moments floats cart)
        → IsRefusedFirst
        → t1 < end
        → waited floats cart open_session keys end
            (quiet t1 ∷ quiet t2 ∷ moments)
            (arrive floats cart [] box)
          ≡ first_out moments
    first_wait end t1 t2 moments h early =
        ap
          (λ (b : Box floats cart).
            waited floats cart open_session keys end (quiet t1 ∷ quiet t2 ∷ moments) b)
          (arrive-quiet box)
        ∙ waited-found keys end t1 t2 moments box after_refusal refusal early (first_round h)

    raised_at_once :
        (end : ℕ) (moments : Moments floats cart)
        → IsRefusedFirst
        → (expect_once floats cart open_session keys 0x45 end true false
            (ok (some refusal))
            (first_out moments)).result
          ≡ err (raise_firmware_error refusal.payload)
    raised_at_once end moments (acked, refused, order, r, a) = simp r

    awaited :
        (end t3 t4 : ℕ) (moments : Moments floats cart)
        → IsRefusedFirst
        → (expect_once floats cart open_session keys 0x45 end true true
            (ok (some refusal))
            (first_out (quiet t3 ∷ quiet t4 ∷ moments))).result
          ≡ (if ltb t3 end
              then ok (record { kind = ack_kind; payload = ack.payload })
              else err (raise_firmware_error refusal.payload))
    awaited end t3 t4 moments h = elim (Bool-cases (ltb t3 end)) [
      | inl early ↦
          let second =
            waited-found keys end t3 t4 moments after_refusal after_ack ack (ground (arith, early))
              (second_round h) in
          let (acked, refused, order, r, a) = h in rw early (simp (r, second, a))
      | inr late ↦
          let over : leb end t3 ≡ true = ground (arith, late) in
          let (acked, refused, order, r, a) = h in rw late (simp (r, over))
    ]

    -- A refusal and a later acknowledgement stand in the two queues of a command before the call, nothing
    -- arrives at the first five readings of the clock, and the second reading is before the deadline.
    -- With `err_waits_for_ack`, the acknowledgement is returned when the fourth reading, the first after
    -- the refusal was seen, is before the deadline too, and the refusal is raised when it is not.
    -- Without the switch, the refusal is raised.
    pub expect_refusal :
        (timeout t0 t1 t2 t3 t4 : ℕ) (moments : Moments floats cart)
        → IsRefusedFirst
        → t1 < t0 + timeout
        → let run : Bool → Outcome floats cart ExpectResult = λ waits.
          expect floats cart open_session 0x45 timeout true
            (some cmd)
            waits
            (quiet t0 ∷ quiet t1 ∷ quiet t2 ∷ quiet t3 ∷ quiet t4 ∷ moments)
            box in
          ((run true).result ≡ (
            if ltb t3 (t0 + timeout)
            then ok (record { kind = ack_kind; payload = ack.payload })
            else err (raise_firmware_error refusal.payload)))
          × ((run false).result ≡ err (raise_firmware_error refusal.payload))
    unfolding expect wait_keys
    expect_refusal timeout t0 t1 t2 t3 t4 moments h early =
        let end = t0 + timeout in
        let later = quiet t3 ∷ quiet t4 ∷ moments in
        let first = first_wait end t1 t2 later h early in
        (
          subst
              (λ (out : Outcome floats cart (Option QueueEntry)).
                (expect_once floats cart open_session keys 0x45 end true true out.result out).result
                ≡ (if ltb t3 end
                    then ok (record { kind = ack_kind; payload = ack.payload })
                    else err (raise_firmware_error refusal.payload)))
              (sym first) (awaited end t3 t4 moments h),
          subst
              (λ (out : Outcome floats cart (Option QueueEntry)).
                (expect_once floats cart open_session keys 0x45 end true false out.result
                  out).result
                ≡ err (raise_firmware_error refusal.payload))
              (sym first) (raised_at_once end later h),
        )
