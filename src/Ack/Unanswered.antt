-- ===== src/Ack/Unanswered.antt =====
-- A refusal whose acknowledgement never comes: `err_waits_for_ack` of `Ack::expect`.
use litearm_cpp.Base.{
  ℕ, ◌+◌, ◌-◌, ◌<◌, ◌≡◌, refl, ap, subst, sym, ◌∙◌, inl, inr, List, [], ◌∷◌, Option, none, some,
  map, arith, Bool, true, false, Bool-cases, ◌==◌, leb,
}
use litearm_cpp.Errors.{ok, err}
use litearm_cpp.Errors.Reason.{raise_firmware_error}
use litearm_cpp.Floats.{Floats}
use litearm_cpp.Ack.{QueueKey, QueueEntry, echoed, wait_keys, set_queue, Collector}
use litearm_cpp.Ack.Wait.{
  look, nothing, guard_for_ack_wait, Box, Outcome, found, round, wait_loop, wait, waited, expect,
  expect_once,
}
use litearm_cpp.Ack.Refusal.{open_session, quiet, arrive-quiet, waited-found}

module _ (floats : Floats) (cart : Collector) where
  -- A wait that finds nothing gives up, however often the clock is read.
  given_up :
      (watched : List QueueKey) (end : ℕ) (times : List ℕ) (box : Box floats cart)
      → round floats cart watched box ≡ nothing
      → (wait_loop floats cart watched end (map (quiet floats cart) times) box).result ≡ ok none
  unfolding wait_loop
  given_up watched end [] box none_there = simp none_there
  given_up watched end (now ∷ times) box none_there =
      let rest = given_up watched end times box none_there in
      elim (Bool-cases (leb end now)) [
        | inl late ↦ simp (none_there, late)
        | inr early ↦ simp (none_there, early, arrive-quiet floats cart box, rest)
      ]

  waited_in_vain :
      (watched : List QueueKey) (end : ℕ) (times : List ℕ) (box : Box floats cart)
      → round floats cart watched box ≡ nothing
      → (waited floats cart open_session watched end (map (quiet floats cart) times) box).result
        ≡ ok none
  unfolding wait guard_for_ack_wait
  waited_in_vain watched end [] box none_there = refl
  waited_in_vain watched end (now ∷ []) box none_there =
      let vain = given_up watched 0 [] box none_there in
      elim (Bool-cases (leb end now)) [
        | inl late ↦ simp late
        | inr early ↦ simp (early, arrive-quiet floats cart box, vain)
      ]
  waited_in_vain watched end (now ∷ start ∷ times) box none_there =
      let vain = given_up watched (start + (end - now)) times box none_there in
      elim (Bool-cases (leb end now)) [
        | inl late ↦ simp late
        | inr early ↦ simp (early, arrive-quiet floats cart box, vain)
      ]

  alone_found :
      (cmd : ℕ) (refusal : QueueEntry) (box : Box floats cart)
      → box.queues (echoed 0x45 cmd) ≡ []
      → box.queues (echoed 0x46 cmd) ≡ refusal ∷ []
      → round floats cart (echoed 0x45 cmd ∷ echoed 0x46 cmd ∷ []) box
        ≡ found refusal (record box { queues = set_queue (echoed 0x46 cmd) [] box.queues })
  unfolding round look
  alone_found cmd refusal box acked refused = simp (acked, refused)

  alone_over :
      (cmd : ℕ) (refusal : QueueEntry) (box : Box floats cart)
      → box.queues (echoed 0x45 cmd) ≡ []
      → box.errors ≡ []
      → box.reader_error ≡ false
      → round floats cart
          (echoed 0x45 cmd ∷ echoed 0x46 cmd ∷ [])
          (record box { queues = set_queue (echoed 0x46 cmd) [] box.queues })
        ≡ nothing
  unfolding round look
  alone_over cmd refusal box acked calm alive =
      let self : (cmd == cmd) ≡ true = ground arith in simp (acked, self, calm, alive)

  -- A refusal stands alone in the queue of a command before the call, its queue of acknowledgements is
  -- empty, no failure is pending, nothing arrives at all, and the second reading of the clock is before
  -- the deadline: whatever it shows later and however often it is read, the refusal is raised, with
  -- `err_waits_for_ack` and without it.
  pub expect_unanswered :
      (cmd timeout t0 t1 t2 : ℕ) (times : List ℕ) (refusal : QueueEntry) (box : Box floats cart)
      (waits : Bool)
      → box.queues (echoed 0x45 cmd) ≡ []
      → box.queues (echoed 0x46 cmd) ≡ refusal ∷ []
      → refusal.id ≡ 0x46
      → box.errors ≡ []
      → box.reader_error ≡ false
      → t1 < t0 + timeout
      → (expect floats cart open_session 0x45 timeout true
          (some cmd)
          waits
          (quiet floats cart t0
            ∷ quiet floats cart t1
            ∷ quiet floats cart t2
            ∷ map (quiet floats cart) times)
          box).result
        ≡ err (raise_firmware_error refusal.payload)
  unfolding expect wait_keys
  expect_unanswered cmd timeout t0 t1 t2 times refusal box waits acked refused r calm alive early =
      let end = t0 + timeout in
      let watched = echoed 0x45 cmd ∷ echoed 0x46 cmd ∷ [] in
      let later : Box floats cart = record box {
        queues = set_queue (echoed 0x46 cmd) [] box.queues;
      } in
      let seen = alone_found cmd refusal box acked refused in
      let first =
        ap
          (λ (b : Box floats cart).
            waited floats cart open_session watched end
              (quiet floats cart t1 ∷ quiet floats cart t2 ∷ map (quiet floats cart) times) b)
          (arrive-quiet floats cart box)
        ∙ waited-found floats cart watched end t1 t2 (map (quiet floats cart) times) box later
            refusal early seen in
      let vain =
        waited_in_vain watched end times later (alone_over cmd refusal box acked calm alive) in
      subst
        (λ (out : Outcome floats cart (Option QueueEntry)).
          (expect_once floats cart open_session watched 0x45 end true waits out.result out).result
          ≡ err (raise_firmware_error refusal.payload))
        (sym first) (elim (Bool-cases waits) [ inl w ↦ simp (w, r, vain) | inr w ↦ simp (w, r) ])
