-- ===== src/Arm/Stable.antt =====
-- What a predicate on the session needs so that every member function of `Arm` but those that open,
-- close or change the session preserves it.
use litearm_cpp.Base.{
  ℕ, ◌≡◌, List, [], ◌∷◌, Option, none, some, Bool, true, false, leb, ◌||◌, if◌then◌else◌,
}
use litearm_cpp.Errors.{Result, ok, err, motion_timeout}
use litearm_cpp.Action.{modify}
use litearm_cpp.Action.Preserves.{Preserves, preserves_rules}
use litearm_cpp.Floats.{Floats}
use litearm_cpp.State.{RobotState}
use litearm_cpp.Ack.{QueueEntry}
use litearm_cpp.Ack.Wait.{Moments}
use litearm_cpp.Cart.{CartPending, cart_collector}
use litearm_cpp.Arm.{
  Arm, member, hear, reading, now_s, reject_if_in_dfu, reject_if_wrong_process, require,
  write_query, write_cmd, a_expect, answer, with_cart,
}
use litearm_cpp.Arm.Status.{
  Queued, pump_look, pump_settle, pump_loop, pump, raise_front, lost_loop, until_lost,
}
use litearm_cpp.Cart.Wait.{settled, timed_out, link_down, is_settled}
use litearm_cpp.Arm.Cartesian.{link_dead, token_loop, await_reply}
use litearm_cpp.Arm.Move.{Progress, arrive_look, ended_or, arrive_loop, await_arrival}

-- The commands that the calls write through `write_query`, and those that `write_cmd` writes unguarded.
abbrev pub queries : List ℕ
queries = 0x40 ∷ 0x43 ∷ 0x24 ∷ 0x2b ∷ 0x2c ∷ 0x42 ∷ 0x2f ∷ []

abbrev pub stops : List ℕ
stops = 0x11 ∷ 0x12 ∷ []

module _ (floats : Floats) (P : Arm floats → Type 0) where
  open floats use {Double}

  -- The predicate does not read the queues and the readings to come.
  abbrev pub Linked : Type 0
  Linked =
      (arm : Arm floats) (box : Queued floats) (later : Moments floats cart_collector)
      → P arm
      → P (record arm { box = box; later = later })

  pub record Stable : Type 0 where
    pub linked : Linked
    pub queried :
        (cmd : ℕ) (payload : List ℕ)
        → member cmd queries ≡ true
        → Preserves P (write_query floats cmd payload)
    pub commanded : (cmd : ℕ) (payload : List ℕ) → Preserves P (write_cmd floats cmd payload true)
    pub stopped : (cmd : ℕ) → member cmd stops ≡ true → Preserves P (write_cmd floats cmd [] false)

  module _ (linked : Linked) where
    reading-linked :
        (moments : Moments floats cart_collector) (arm : Arm floats)
        → P arm
        → P ((reading floats moments arm).1)
    reading-linked [] arm h = h
    reading-linked (m ∷ moments) arm h = linked arm _ moments h

    pub now_s-Preserves : Preserves P (now_s floats)
    unfolding now_s
    now_s-Preserves = record { holds = λ arm h. reading-linked arm.later arm h }

    pub require-Preserves : Preserves P (require floats)
    unfolding require reject_if_in_dfu reject_if_wrong_process
    require-Preserves = search preserves_rules

    pub a_expect-Preserves :
        (want timeout : ℕ) (raise_on_err : Bool) (echo_cmd : Option ℕ) (err_waits : Bool)
        → Preserves P (a_expect floats want timeout raise_on_err echo_cmd err_waits)
    unfolding a_expect
    a_expect-Preserves want timeout raise_on_err echo_cmd err_waits = record {
      holds = λ arm h. linked arm _ _ h;
    }

    pub with_cart-Preserves :
        (f : CartPending → CartPending) → Preserves P (modify (with_cart floats f))
    unfolding modify
    with_cart-Preserves f = record { holds = λ arm h. linked arm _ _ h }

    pub raise_front-Preserves : (queue : List QueueEntry) → Preserves P (raise_front floats queue)
    unfolding raise_front
    raise_front-Preserves [] = record { holds = λ arm h. h }
    raise_front-Preserves (e ∷ queue) = record { holds = λ arm h. linked arm _ _ h }

    pump_settled :
        (look : Option (Result Bool × Queued floats)) (arm : Arm floats)
        (rest : Result Bool × Arm floats)
        → P arm
        → P (rest.1)
        → P ((pump_settle floats look arm rest).1)
    pump_settled none arm rest h k = k
    pump_settled (some (r, box)) arm rest h k = linked arm box arm.later h

    either :
        {A : Type 0} (c : Bool) (x y : A × Arm floats)
        → P (x.1)
        → P (y.1)
        → P ((if c then x else y).1)
    either true x y h k = h
    either false x y h k = k

    pump_loop-linked :
        (done : Queued floats → Bool) (end : ℕ) (moments : Moments floats cart_collector)
        (arm : Arm floats)
        → P arm
        → P ((pump_loop floats done end moments arm).1)
    unfolding pump_loop
    pump_loop-linked done end [] arm h =
        pump_settled (pump_look floats done arm.box) arm (ok false, arm) h h
    pump_loop-linked done end (m ∷ moments) arm h =
        let next = hear floats m.arrived (record arm { later = moments }) in
        let heard : P next = linked arm _ moments h in
        let rest = pump_loop floats done end moments next in
        pump_settled (pump_look floats done arm.box) arm
          (if leb end m.now then (ok false, next) else rest) h
          (either (leb end m.now) (ok false, next) rest heard
            (pump_loop-linked done end moments next heard))

    pub pump-Preserves :
        (done : Queued floats → Bool) (end : ℕ) → Preserves P (pump floats done end)
    unfolding pump
    pump-Preserves done end = record { holds = λ arm h. pump_loop-linked done end arm.later arm h }

    lost_loop-linked :
        (end : ℕ) (moments : Moments floats cart_collector) (arm : Arm floats)
        → P arm
        → P ((lost_loop floats end moments arm).1)
    unfolding lost_loop
    lost_loop-linked end [] arm h = h
    lost_loop-linked end (m ∷ moments) arm h =
        let next = hear floats m.arrived (record arm { later = moments }) in
        let heard : P next = linked arm _ moments h in
        let rest = lost_loop floats end moments next in
        either arm.box.reader_error (ok true, arm)
          (if leb end m.now then (ok false, next) else rest) h
          (either (leb end m.now) (ok false, next) rest heard
            (lost_loop-linked end moments next heard))

    pub until_lost-Preserves : (end : ℕ) → Preserves P (until_lost floats end)
    unfolding until_lost
    until_lost-Preserves end = record { holds = λ arm h. lost_loop-linked end arm.later arm h }

    arrived :
        (ended : Option (Result (RobotState Double))) (arm : Arm floats)
        (rest : Result (RobotState Double) × Arm floats)
        → P arm
        → P (rest.1)
        → P ((ended_or floats ended arm rest).1)
    arrived none arm rest h k = k
    arrived (some r) arm rest h k = h

    arrive_loop-linked :
        (target : List Double) (budget hard_end : ℕ) (p : Progress floats)
        (moments : Moments floats cart_collector) (arm : Arm floats)
        → P arm
        → P ((arrive_loop floats target budget hard_end p moments arm).1)
    unfolding arrive_loop
    arrive_loop-linked target budget hard_end p [] arm h =
        arrived (arrive_look floats arm.tol target budget 0 arm.box p).0 arm
          (err motion_timeout, arm) h h
    arrive_loop-linked target budget hard_end p (m ∷ moments) arm h =
        let (ended, q) = arrive_look floats arm.tol target budget m.now arm.box p in
        let next = hear floats m.arrived (record arm { later = moments }) in
        let heard : P next = linked arm _ moments h in
        let rest = arrive_loop floats target budget hard_end q moments next in
        arrived ended arm
          (if leb hard_end m.now || leb q.end m.now then (err motion_timeout, next) else rest) h
          (either (leb hard_end m.now || leb q.end m.now) (err motion_timeout, next) rest heard
            (arrive_loop-linked target budget hard_end q moments next heard))

    pub await_arrival-Preserves :
        (target : List Double) (budget hard_end : ℕ) (p : Progress floats)
        → Preserves P (await_arrival floats target budget hard_end p)
    unfolding await_arrival
    await_arrival-Preserves target budget hard_end p = record {
      holds = λ arm h. arrive_loop-linked target budget hard_end p arm.later arm h;
    }

    token_loop-linked :
        (id end : ℕ) (moments : Moments floats cart_collector) (arm : Arm floats)
        → P arm
        → P ((token_loop floats id end moments arm).1)
    unfolding token_loop
    token_loop-linked id end [] arm h = h
    token_loop-linked id end (m ∷ moments) arm h =
        let next = hear floats m.arrived (record arm { later = moments }) in
        let heard : P next = linked arm _ moments h in
        let rest = token_loop floats id end moments next in
        let late = leb end m.now in
        let dead = link_dead floats next in
        let down = if dead then (link_down m.now, next) else rest in
        either (is_settled (arm.box.collector.tokens id)) (settled, arm)
          (if late then (timed_out m.now, arm) else down) h
          (either late (timed_out m.now, arm) down h
            (either dead (link_down m.now, next) rest heard
              (token_loop-linked id end moments next heard)))

    pub await_reply-Preserves : (id end : ℕ) → Preserves P (await_reply floats id end)
    unfolding await_reply
    await_reply-Preserves id end = record {
      holds = λ arm h.
          linked ((token_loop floats id end arm.later arm).1) _ _
            (token_loop-linked id end arm.later arm h);
    }

    pub answer-Preserves :
        (want timeout : ℕ) (echo_cmd : Option ℕ) → Preserves P (answer floats want timeout echo_cmd)
    unfolding answer
    answer-Preserves want timeout echo_cmd = search (preserves_rules, a_expect-Preserves)
