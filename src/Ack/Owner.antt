-- ===== src/Ack/Owner.antt =====
-- An answer that `expect` returns is the answer to the command that was sent.
use litearm_cpp.Base.{
  ℕ, ◌+◌, ◌-◌, ◌≤◌, ◌≡◌, subst, sym, ◌∙◌, inl, inr, List, [], ◌∷◌, Option, none, some, arith, Bool,
  true, false, ◌==◌, leb, if◌then◌else◌, length, All,
}
use litearm_cpp.Errors.{Result, ok, err}
use litearm_cpp.Floats.{Floats}
use litearm_cpp.Ack.{
  QueueKey, QueueEntry, Queue, Queues, echoed, read_key, wait_keys, set_queue, Collector, queue_max,
}
use litearm_cpp.Ack.Deliver.{IsHome, IsFiled, set-IsFiled, arrive-IsFiled}
use litearm_cpp.Ack.Expect.{IsIn, round_cases}
use litearm_cpp.Ack.Wait.{
  ticks, Session, ExpectResult, Box, Moments, Outcome, arrive, round, wait_loop, wait, waited,
  expect, settle, gave_up, wait_guards, wait_after, answered, refused, expect_once, expect_again,
  done,
}

-- An entry of one of the keys.
abbrev IsOf : List QueueKey → QueueEntry → Type 0
IsOf keys e = (k : QueueKey) × IsIn k keys × IsHome k e

abbrev IsAnswer : List QueueKey → Result (Option QueueEntry) → Type 0
IsAnswer keys (ok (some e)) = IsOf keys e
IsAnswer keys r = Unit

rest-IsFiled :
    (key : QueueKey) (e : QueueEntry) (rest : Queue) (queues : Queues)
    → queues key ≡ e ∷ rest
    → IsFiled queues
    → IsFiled (set_queue key rest queues) × IsHome key e
rest-IsFiled key e rest queues front filed =
    let (homes, capped) =
      subst (λ (q : Queue). All (IsHome key) q × (length q ≤ queue_max)) front (filed key) in
    (set-IsFiled key rest queues (homes.1, omega (arith, capped)) filed, homes.0)

module _ (floats : Floats) (cart : Collector) (keys : List QueueKey) where
  abbrev IsGood : Outcome floats cart (Option QueueEntry) → Type 0
  IsGood out = IsFiled out.box.queues × IsAnswer keys out.result

  settle-IsGood :
      (box : Box floats cart) (moments : Moments floats cart)
      (rest : Outcome floats cart (Option QueueEntry))
      → IsFiled box.queues
      → IsGood rest
      → IsGood (settle floats cart (round floats cart keys box) moments rest)
  settle-IsGood box moments rest filed good = elim (round_cases floats cart keys box) [
    | inl (k, e, others, front, watched, least, is) ↦
        let (kept, home) = rest-IsFiled k e others box.queues front filed in
        rw is (kept, (k, watched, home))
    | inr (empty, inl is) ↦ rw is good
    | inr (empty, inr (e, later, is, same)) ↦ rw is (subst IsFiled (sym same) filed, tt)
  ]

  either-IsGood :
      (b : Bool) (x y : Outcome floats cart (Option QueueEntry))
      → IsGood x
      → IsGood y
      → IsGood (if b then x else y)
  either-IsGood true x y hx hy = hx
  either-IsGood false x y hx hy = hy

  wait_loop-IsGood :
      (end : ℕ) (moments : Moments floats cart) (box : Box floats cart)
      → IsFiled box.queues
      → IsGood (wait_loop floats cart keys end moments box)
  unfolding wait_loop
  wait_loop-IsGood end [] box filed =
      settle-IsGood box [] (gave_up floats cart box []) filed (filed, tt)
  wait_loop-IsGood end (m ∷ moments) box filed =
      let next = wait_loop floats cart keys end moments (arrive floats cart m.arrived box) in
      let later =
        wait_loop-IsGood end moments (arrive floats cart m.arrived box)
          (arrive-IsFiled floats cart m.arrived box filed) in
      settle-IsGood box (m ∷ moments)
        (if leb end m.now then gave_up floats cart box moments else next) filed
        (either-IsGood (leb end m.now) (gave_up floats cart box moments) next (filed, tt) later)

  wait_after-IsGood :
      (r : Result ℕ) (moments : Moments floats cart) (box : Box floats cart)
      → IsFiled box.queues
      → IsGood (wait_after floats cart r keys moments box)
  wait_after-IsGood (err e) moments box filed = (filed, tt)
  wait_after-IsGood (ok timeout) [] box filed = wait_loop-IsGood 0 [] box filed
  wait_after-IsGood (ok timeout) (m ∷ moments) box filed =
      wait_loop-IsGood (m.now + timeout) moments (arrive floats cart m.arrived box)
        (arrive-IsFiled floats cart m.arrived box filed)

  waited-IsGood :
      (session : Session) (end : ℕ) (moments : Moments floats cart) (box : Box floats cart)
      → IsFiled box.queues
      → IsGood (waited floats cart session keys end moments box)
  unfolding wait
  waited-IsGood session end [] box filed = (filed, tt)
  waited-IsGood session end (m ∷ moments) box filed =
      let later = arrive floats cart m.arrived box in
      let filed_later = arrive-IsFiled floats cart m.arrived box filed in
      let guards = wait_guards floats cart session (ticks (end - m.now)) in
      either-IsGood (leb end m.now) (gave_up floats cart box moments)
        (wait_after floats cart guards keys moments later) (filed, tt)
        (wait_after-IsGood guards moments later filed_later)

-- The payload repeats a command code first.
abbrev pub IsEcho : ℕ → List ℕ → Type 0
IsEcho cmd payload = (rest : List ℕ) × (payload ≡ cmd ∷ rest)

read_key-IsEcho :
    (c : ℕ) (payload : List ℕ) (id cmd : ℕ)
    → read_key c payload ≡ echoed id cmd
    → IsEcho cmd payload
unfolding read_key
read_key-IsEcho c [] id cmd h = ground (arith, h)
read_key-IsEcho c (first ∷ payload) id cmd h = (payload, ground (arith, h))

abbrev keys_of : ℕ → List QueueKey
keys_of cmd = echoed 0x45 cmd ∷ echoed 0x46 cmd ∷ []

key-IsEcho : (cmd : ℕ) (e : QueueEntry) → IsOf (keys_of cmd) e → IsEcho cmd e.payload
key-IsEcho cmd e (k, inl is, home) = read_key-IsEcho e.id e.payload 0x45 cmd (home ∙ is)
key-IsEcho cmd e (k, inr (inl is), home) = read_key-IsEcho e.id e.payload 0x46 cmd (home ∙ is)
key-IsEcho cmd e (k, inr (inr nowhere), home) = absurd nowhere

abbrev IsMine : ℕ → Result ExpectResult → Type 0
IsMine cmd (ok r) = IsEcho cmd r.payload
IsMine cmd (err e) = Unit

refused-IsMine :
    (floats : Floats) (cart : Collector) (cmd : ℕ) (raise : Bool) (payload : List ℕ)
    → IsEcho cmd payload
    → IsMine cmd (refused floats cart raise payload)
refused-IsMine floats cart cmd true payload mine = tt
refused-IsMine floats cart cmd false payload mine = mine

choose-IsMine :
    (cmd : ℕ) (b : Bool) (x y : Result ExpectResult)
    → IsMine cmd x
    → IsMine cmd y
    → IsMine cmd (if b then x else y)
choose-IsMine cmd true x y hx hy = hx
choose-IsMine cmd false x y hx hy = hy

module _ (floats : Floats) (cart : Collector) (cmd : ℕ) (raise : Bool) where
  again-IsMine :
      (seen : List ℕ) (r : Result (Option QueueEntry))
      → IsEcho cmd seen
      → IsAnswer (keys_of cmd) r
      → IsMine cmd (expect_again floats cart 0x45 raise seen r)
  again-IsMine seen (err e) mine good = tt
  again-IsMine seen (ok none) mine good = refused-IsMine floats cart cmd raise seen mine
  again-IsMine seen (ok (some e)) mine good =
      let echo = key-IsEcho cmd e good in
      choose-IsMine cmd (e.id == 0x46) (refused floats cart raise e.payload)
        (answered floats cart 0x45 e.payload) (refused-IsMine floats cart cmd raise e.payload echo)
        echo

  choose_done-IsMine :
      (b : Bool) (x y : Outcome floats cart ExpectResult)
      → IsMine cmd x.result
      → IsMine cmd y.result
      → IsMine cmd (if b then x else y).result
  choose_done-IsMine true x y hx hy = hx
  choose_done-IsMine false x y hx hy = hy

  once-IsMine :
      (session : Session) (end : ℕ) (waits : Bool) (r : Result (Option QueueEntry))
      (out : Outcome floats cart (Option QueueEntry))
      → IsFiled out.box.queues
      → IsAnswer (keys_of cmd) r
      → IsMine cmd (expect_once floats cart session (keys_of cmd) 0x45 end raise waits r out).result
  once-IsMine session end waits (err e) out filed good = tt
  once-IsMine session end waits (ok none) out filed good = tt
  once-IsMine session end waits (ok (some e)) out filed good =
      let echo = key-IsEcho cmd e good in
      let again = waited floats cart session (keys_of cmd) end out.later out.box in
      let once_more =
        done floats cart (expect_again floats cart 0x45 raise e.payload again.result) again in
      let at_once = done floats cart (refused floats cart raise e.payload) out in
      choose_done-IsMine (e.id == 0x46) (if waits then once_more else at_once)
        (done floats cart (answered floats cart 0x45 e.payload) out)
        (choose_done-IsMine waits once_more at_once
          (again-IsMine e.payload again.result echo
            (waited-IsGood floats cart (keys_of cmd) session end out.later out.box filed).1)
          (refused-IsMine floats cart cmd raise e.payload echo))
        echo

  -- Whatever arrives and whenever, an answer that `expect` returns for an acknowledged command
  -- repeats the code of that command, so that two commands never take each other's answers.
  pub expect_owner :
      (session : Session) (timeout : ℕ) (waits : Bool) (moments : Moments floats cart)
      (box : Box floats cart) (r : ExpectResult)
      → IsFiled box.queues
      → (expect floats cart session 0x45 timeout raise (some cmd) waits moments box).result ≡ ok r
      → IsEcho cmd r.payload
  unfolding expect wait_keys
  expect_owner session timeout waits [] box r filed h = ground (arith, h)
  expect_owner session timeout waits (m ∷ moments) box r filed h =
      let later = arrive floats cart m.arrived box in
      let out = waited floats cart session (keys_of cmd) (m.now + timeout) moments later in
      let (kept, good) =
        waited-IsGood floats cart (keys_of cmd) session (m.now + timeout) moments later
          (arrive-IsFiled floats cart m.arrived box filed) in
      subst (IsMine cmd) h (once-IsMine session (m.now + timeout) waits out.result out kept good)
