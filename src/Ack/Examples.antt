-- ===== src/Ack/Examples.antt =====
-- The queues at concrete frames.
use litearm_cpp.Base.{
  map, ◌++◌, ◌≡◌, refl, ◌⊎◌, inl, List, [], ◌∷◌, none, some, arith, All, true, false, if◌then◌else◌,
  ltb,
}
use litearm_cpp.Errors.{Failure, ok, err}
use litearm_cpp.Errors.Reason.{raise_firmware_error}
use litearm_cpp.Floats.{pattern_floats}
use litearm_cpp.Ack.{
  QueueKey, QueueEntry, Queue, echoed, read_key, wait_keys, set_queue, drain_for, Collector, Event,
  frame, push, enqueue, deliver, reader_loop, note_recv,
}
use litearm_cpp.Ack.Deliver.{IsFiled, operations-IsFiled}
use litearm_cpp.Ack.Drain.{drain_for_lem}
use litearm_cpp.Ack.Expect.{IsIn, IsLeast, round_cases}
use litearm_cpp.Ack.Owner.{IsEcho, expect_owner}
use litearm_cpp.Ack.Refusal.{open_session, quiet, expect_refusal}
use litearm_cpp.Ack.Unanswered.{expect_unanswered}
use litearm_cpp.Ack.History.{newest, entries_for, reader_loop-newest}
use litearm_cpp.Ack.Wait.{Box, found, failed, nothing, round, arrive, expect, ack_kind}

-- A collector that keeps nothing.
abbrev idle : Collector
idle = record { State = Unit {0}; on_reply = λ payload now s. (s, none) }

abbrev empty_box : Box pattern_floats idle
empty_box = record {
  queues = λ k. [];
  next_seq = 0;
  dropped = 0;
  state = none;
  status_seq = 0;
  bad_status_frames = 0;
  recv = λ c. none;
  errors = [];
  reader_error = false;
  collector = tt;
}

empty_box-IsFiled : IsFiled empty_box.queues
empty_box-IsFiled key = (tt, omega arith)

-- A refusal of `MOVE_L` by another's command, then its acknowledgement.
abbrev refusal : QueueEntry
refusal = record { id = 0x46; payload = 0x3a ∷ 0x05 ∷ []; seq = 0 }

abbrev ack : QueueEntry
ack = record { id = 0x45; payload = 0x3a ∷ []; seq = 1 }

abbrev two_frames : List (Event pattern_floats idle)
two_frames = frame 0x46 (0x3a ∷ 0x05 ∷ []) 10 ∷ frame 0x45 (0x3a ∷ []) 11 ∷ []

abbrev two_box : Box pattern_floats idle
two_box = arrive pattern_floats idle two_frames empty_box

operations-IsFiled_example : IsFiled two_box.queues × IsFiled (drain_for 0x3a empty_box).queues
operations-IsFiled_example =
    operations-IsFiled pattern_floats idle two_frames 0x3a empty_box empty_box-IsFiled

two_box-IsFiled : IsFiled two_box.queues
two_box-IsFiled = operations-IsFiled_example.0

ack_queued : two_box.queues (echoed 0x45 0x3a) ≡ ack ∷ []
unfolding arrive reader_loop deliver enqueue push read_key note_recv
ack_queued = refl

refusal_queued : two_box.queues (echoed 0x46 0x3a) ≡ refusal ∷ []
unfolding arrive reader_loop deliver enqueue push read_key note_recv
refusal_queued = refl

drain_for_lem_example :
    All (λ k. (drain_for 0x3a two_box).queues k ≡ []) (echoed 0x45 0x3a ∷ echoed 0x46 0x3a ∷ [])
unfolding wait_keys
drain_for_lem_example =
    drain_for_lem 0x3a 0x45 (echoed 0x45 0x3a ∷ echoed 0x46 0x3a ∷ []) two_box (inl refl) refl

expect_refusal_example :
    ((expect pattern_floats idle open_session 0x45 100 true
        (some 0x3a)
        true
        (quiet pattern_floats idle 20
          ∷ quiet pattern_floats idle 21
          ∷ quiet pattern_floats idle 22
          ∷ quiet pattern_floats idle 23
          ∷ quiet pattern_floats idle 24
          ∷ [])
        two_box).result
      ≡ (if ltb 23 120
          then ok (record { kind = ack_kind; payload = 0x3a ∷ [] })
          else err (raise_firmware_error (0x3a ∷ 0x05 ∷ []))))
    × ((expect pattern_floats idle open_session 0x45 100 true
          (some 0x3a)
          false
          (quiet pattern_floats idle 20
            ∷ quiet pattern_floats idle 21
            ∷ quiet pattern_floats idle 22
            ∷ quiet pattern_floats idle 23
            ∷ quiet pattern_floats idle 24
            ∷ [])
          two_box).result
        ≡ err (raise_firmware_error (0x3a ∷ 0x05 ∷ [])))
expect_refusal_example =
    expect_refusal pattern_floats idle 0x3a refusal ack [] two_box 100 20 21 22 23 24 []
      (ack_queued, refusal_queued, omega arith, refl, refl) (omega arith)

-- The refusal alone.
abbrev refused_box : Box pattern_floats idle
refused_box = record two_box { queues = set_queue (echoed 0x45 0x3a) [] two_box.queues }

expect_unanswered_example :
    (expect pattern_floats idle open_session 0x45 100 true
      (some 0x3a)
      true
      (quiet pattern_floats idle 20
        ∷ quiet pattern_floats idle 21
        ∷ quiet pattern_floats idle 22
        ∷ map (quiet pattern_floats idle) (40 ∷ 80 ∷ 130 ∷ []))
      refused_box).result
    ≡ err (raise_firmware_error (0x3a ∷ 0x05 ∷ []))
unfolding arrive reader_loop deliver enqueue push read_key note_recv
expect_unanswered_example =
    expect_unanswered pattern_floats idle 0x3a 100 20 21 22 (40 ∷ 80 ∷ 130 ∷ []) refusal refused_box
      true refl refl refl refl refl (omega arith)

expect_owner_example : IsEcho 0x3a (0x3a ∷ [])
expect_owner_example =
    expect_owner pattern_floats idle 0x3a true open_session 100 true
      (quiet pattern_floats idle 20
        ∷ quiet pattern_floats idle 21
        ∷ quiet pattern_floats idle 22
        ∷ quiet pattern_floats idle 23
        ∷ quiet pattern_floats idle 24
        ∷ [])
      two_box (record { kind = ack_kind; payload = 0x3a ∷ [] }) two_box-IsFiled
      expect_refusal_example.0

round_cases_example :
    ((k : QueueKey) × (e : QueueEntry) × (rest : Queue) × (two_box.queues k ≡ e ∷ rest)
      × IsIn k (echoed 0x45 0x3a ∷ [])
      × IsLeast two_box.queues e.seq (echoed 0x45 0x3a ∷ [])
      × (round pattern_floats idle (echoed 0x45 0x3a ∷ []) two_box
          ≡ found e (record two_box { queues = set_queue k rest two_box.queues })))
    ⊎ (All (λ k. two_box.queues k ≡ []) (echoed 0x45 0x3a ∷ [])
        × ((round pattern_floats idle (echoed 0x45 0x3a ∷ []) two_box ≡ nothing)
            ⊎ ((e : Failure) × (later : Box pattern_floats idle) × (round pattern_floats idle
                    (echoed 0x45 0x3a ∷ [])
                    two_box
                  ≡ failed e later)
                × (later.queues ≡ two_box.queues))))
round_cases_example = round_cases pattern_floats idle (echoed 0x45 0x3a ∷ []) two_box

reader_loop-newest_example :
    (reader_loop pattern_floats idle two_frames empty_box).queues (echoed 0x45 0x3a)
    ≡ newest ([] ++ entries_for pattern_floats idle (echoed 0x45 0x3a) two_frames 0)
reader_loop-newest_example =
    reader_loop-newest pattern_floats idle (echoed 0x45 0x3a) two_frames empty_box (omega arith)
