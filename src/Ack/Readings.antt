-- ===== src/Ack/Readings.antt =====
-- A wait for an answer uses up readings of the clock and adds none.
use litearm_cpp.Base.{
  ℕ, ◌≤◌, arith, List, [], ◌∷◌, Option, none, some, Bool, true, false, leb, if◌then◌else◌, length,
  ◌+◌, ◌-◌, ◌==◌,
}
use litearm_cpp.Errors.{Result, ok, err}
use litearm_cpp.Floats.{Floats}
use litearm_cpp.Ack.{QueueKey, QueueEntry, Collector, wait_keys}
use litearm_cpp.Ack.Wait.{
  Session, ticks, Moments, Box, Outcome, Round, found, failed, nothing, round, settle, gave_up,
  wait_loop, wait_guards, wait_after, wait, waited, done, expect_once, expect_on, expect, arrive,
  expect_again, refused, answered,
}

module _ (floats : Floats) (cart : Collector) where
  abbrev left : {R : Type 0} → Outcome floats cart R → ℕ
  left out = length out.later

  settle_shorter :
      (n : ℕ) (r : Round floats cart) (moments : Moments floats cart)
      (rest : Outcome floats cart (Option QueueEntry))
      → length moments ≤ n
      → left rest ≤ n
      → left (settle floats cart r moments rest) ≤ n
  settle_shorter n (found e box) moments rest h k = h
  settle_shorter n (failed e box) moments rest h k = h
  settle_shorter n nothing moments rest h k = k

  either :
      {R : Type 0} (n : ℕ) (c : Bool) (x y : Outcome floats cart R)
      → left x ≤ n
      → left y ≤ n
      → left (if c then x else y) ≤ n
  either n true x y h k = h
  either n false x y h k = k

  wait_loop_shorter :
      (keys : List QueueKey) (end : ℕ) (moments : Moments floats cart) (box : Box floats cart)
      → left (wait_loop floats cart keys end moments box) ≤ length moments
  unfolding wait_loop
  wait_loop_shorter keys end [] box =
      settle_shorter 0 (round floats cart keys box) [] (gave_up floats cart box []) (omega arith)
        (omega arith)
  wait_loop_shorter keys end (m ∷ moments) box =
      let next_box = arrive floats cart m.arrived box in
      let next = wait_loop floats cart keys end moments next_box in
      let le = wait_loop_shorter keys end moments next_box in
      settle_shorter (length (m ∷ moments)) (round floats cart keys box) (m ∷ moments)
        (if leb end m.now then gave_up floats cart box moments else next) (omega arith)
        (either (length (m ∷ moments)) (leb end m.now) (gave_up floats cart box moments) next
          (omega arith) (omega (arith, le)))

  wait_after_shorter :
      (r : Result ℕ) (keys : List QueueKey) (moments : Moments floats cart) (box : Box floats cart)
      → left (wait_after floats cart r keys moments box) ≤ length moments
  wait_after_shorter (err e) keys moments box = omega arith
  wait_after_shorter (ok timeout) keys [] box = wait_loop_shorter keys 0 [] box
  wait_after_shorter (ok timeout) keys (m ∷ moments) box =
      let le =
        wait_loop_shorter keys (m.now + timeout) moments (arrive floats cart m.arrived box) in
      omega (arith, le)

  waited_shorter :
      (session : Session) (keys : List QueueKey) (end : ℕ) (moments : Moments floats cart)
      (box : Box floats cart)
      → left (waited floats cart session keys end moments box) ≤ length moments
  unfolding wait
  waited_shorter session keys end [] box = omega arith
  waited_shorter session keys end (m ∷ moments) box =
      let next_box = arrive floats cart m.arrived box in
      let guards = wait_guards floats cart session (ticks (end - m.now)) in
      let le = wait_after_shorter guards keys moments next_box in
      either (length (m ∷ moments)) (leb end m.now) (gave_up floats cart box moments)
        (wait_after floats cart guards keys moments next_box) (omega arith) (omega (arith, le))

  expect_once_shorter :
      (session : Session) (keys : List QueueKey) (want end : ℕ) (raise_on_err err_waits : Bool)
      (r : Result (Option QueueEntry)) (out : Outcome floats cart (Option QueueEntry))
      → left (expect_once floats cart session keys want end raise_on_err err_waits r out) ≤ left out
  expect_once_shorter session keys want end raise err_waits (err e) out = omega arith
  expect_once_shorter session keys want end raise err_waits (ok none) out = omega arith
  expect_once_shorter session keys want end raise err_waits (ok (some e)) out =
      let again = waited floats cart session keys end out.later out.box in
      let le = waited_shorter session keys end out.later out.box in
      let second =
        done floats cart (expect_again floats cart want raise e.payload again.result) again in
      let refusal = done floats cart (refused floats cart raise e.payload) out in
      either (left out) (e.id == 0x46) (if err_waits then second else refusal)
        (done floats cart (answered floats cart want e.payload) out)
        (either (left out) err_waits second refusal le (omega arith)) (omega arith)

  expect_on_shorter :
      (keys : Result (List QueueKey)) (session : Session) (want timeout : ℕ)
      (raise_on_err err_waits : Bool) (moments : Moments floats cart) (box : Box floats cart)
      → left (expect_on floats cart keys session want timeout raise_on_err err_waits moments box)
        ≤ length moments
  expect_on_shorter (err e) session want timeout raise err_waits moments box = omega arith
  expect_on_shorter (ok keys) session want timeout raise err_waits [] box = omega arith
  expect_on_shorter (ok keys) session want timeout raise err_waits (m ∷ moments) box =
      let next_box = arrive floats cart m.arrived box in
      let end = m.now + timeout in
      let out = waited floats cart session keys end moments next_box in
      let le = waited_shorter session keys end moments next_box in
      let once = expect_once_shorter session keys want end raise err_waits out.result out in
      omega (arith, le, once)

  pub expect_shorter :
      (session : Session) (want timeout : ℕ) (raise_on_err : Bool) (echo_cmd : Option ℕ)
      (err_waits : Bool) (moments : Moments floats cart) (box : Box floats cart)
      → left (expect floats cart session want timeout raise_on_err echo_cmd err_waits moments box)
        ≤ length moments
  unfolding expect
  expect_shorter session want timeout raise echo_cmd err_waits moments box =
      expect_on_shorter (wait_keys want echo_cmd) session want timeout raise err_waits moments box
