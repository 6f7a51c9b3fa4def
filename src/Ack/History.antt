-- ===== src/Ack/History.antt =====
-- What the queues hold, from the frames that were received.
use litearm_cpp.Base.{
  ℕ, ◌+◌, ◌-◌, ◌≤◌, ◌≡◌, refl, ap, ap₂, subst, sym, ◌∙◌, inl, inr, List, [], ◌∷◌, ◌++◌, Option,
  none, some, arith, Bool, true, false, Bool-cases, not, ◌==◌, ◌&&◌, leb, if◌then◌else◌, length,
  length-append, length-drop, drop, drop-drop, drop-append_left, append_assoc, append-nil, if-true,
  if-false,
}
use litearm_cpp.Ack.Keys.{same_key→≡}
use litearm_cpp.Errors.{Failure, Result, ok, err}
use litearm_cpp.Floats.{Floats}
use litearm_cpp.State.{RobotState, decode_state}
use litearm_cpp.Ack.{
  QueueKey, QueueEntry, Queue, same_key, read_key, push, enqueue, note_recv, die, u64, queue_max,
  Inbox, Collector, Event, frame, broken, caught, kept_error, on_status, deliver, reader_loop,
}

-- The newest 64 entries.
abbrev pub newest : Queue → Queue
newest queue = drop (length queue - queue_max) queue

newest_short : (queue : Queue) → length queue ≤ queue_max → newest queue ≡ queue
newest_short queue h =
    let none_over : length queue - queue_max ≡ 0 = omega (arith, h) in rw none_over refl

length-newest : (queue : Queue) → length (newest queue) ≤ queue_max
length-newest queue = omega (arith, length-drop (length queue - queue_max) queue)

newest-newest : (xs ys : Queue) → newest (newest xs ++ ys) ≡ newest (xs ++ ys)
newest-newest xs ys =
    let d = length xs - queue_max in
    let all = xs ++ ys in
    let moved : newest xs ++ ys ≡ drop d all = sym (drop-append_left d xs ys (omega arith)) in
    let count : d + (length (drop d all) - queue_max) ≡ length all - queue_max =
      omega (arith, length-drop d all, length-append xs ys) in
    ap newest moved
    ∙ drop-drop d (length (drop d all) - queue_max) all
    ∙ ap (λ (n : ℕ). drop n all) count

push-newest :
    (e : QueueEntry) (queue : Queue)
    → length queue ≤ queue_max
    → push e queue ≡ newest (queue ++ e ∷ [])
unfolding push
push-newest e queue h = elim (Bool-cases (leb queue_max (length queue))) [
  | inl full ↦
      let one : length (queue ++ e ∷ []) - queue_max ≡ 1 =
        ground (arith, full, h, length-append queue (e ∷ [])) in
      if-true (leb queue_max (length queue)) (drop 1 queue ++ e ∷ []) (queue ++ e ∷ []) full
      ∙ sym (drop-append_left 1 queue (e ∷ []) (ground (arith, full)))
      ∙ sym (ap (λ (n : ℕ). drop n (queue ++ e ∷ [])) one)
  | inr room ↦
      if-false (leb queue_max (length queue)) (drop 1 queue ++ e ∷ []) (queue ++ e ∷ []) room
      ∙ sym (newest_short (queue ++ e ∷ []) (ground (arith, room, length-append queue (e ∷ []))))
]

-- A status frame and a plan's reply go to no queue.
abbrev pub is_queued : ℕ → Bool
is_queued c = not (c == 0x40) && not (c == 0x4e)

-- The entry of a frame, where its key is the one that is asked for.
abbrev pub entry_for : QueueKey → ℕ → List ℕ → ℕ → Queue
entry_for key c payload seq =
    if same_key (read_key c payload) key
    then (record { id = c; payload = payload; seq = seq }) ∷ []
    else []

module _ (floats : Floats) (cart : Collector) where
  open floats use {Double}
  open cart use {State, on_reply}

  -- The entries of a key that the received frames make, numbered from `seq`; a failure ends them.
  pub entries_for : QueueKey → List (Event floats cart) → ℕ → Queue
  entries_for key [] seq = []
  entries_for key (frame c payload now ∷ events) seq =
      let skipped = entries_for key events seq in
      let rest = entries_for key events (u64 (seq + 1)) in
      if is_queued c then entry_for key c payload seq ++ rest else skipped
  entries_for key (broken ∷ events) seq = []

  enqueue-queue :
      (c : ℕ) (payload : List ℕ) (box : Inbox Double State) (key : QueueKey)
      → length (box.queues key) ≤ queue_max
      → (enqueue c payload box).queues key
        ≡ newest (box.queues key ++ entry_for key c payload box.next_seq)
  unfolding enqueue
  enqueue-queue c payload box key h = elim (Bool-cases (same_key (read_key c payload) key)) [
    | inl same ↦
        let home = read_key c payload in
        let e : QueueEntry = record { id = c; payload = payload; seq = box.next_seq } in
        if-true (same_key home key) (push e (box.queues home)) (box.queues key) same
        ∙ ap (λ (k : QueueKey). push e (box.queues k)) (same_key→≡ home key same)
        ∙ push-newest e (box.queues key) h
        ∙ ap (λ (t : Queue). newest (box.queues key ++ t))
            (sym (if-true (same_key home key) (e ∷ []) [] same))
    | inr other ↦
        rw other (sym (ap newest (append-nil (box.queues key)) ∙ newest_short (box.queues key) h))
  ]

  -- What a delivery changes of the numbering and of a queue.
  abbrev IsKept : QueueKey → Inbox Double State → Inbox Double State → Type 0
  IsKept key box later = (later.queues key ≡ box.queues key) × (later.next_seq ≡ box.next_seq)

  caught-IsKept :
      (key : QueueKey) (r : Result (RobotState Double)) (box : Inbox Double State)
      → IsKept key box (caught floats cart r box)
  caught-IsKept key (ok s) box = (refl, refl)
  caught-IsKept key (err e) box = (refl, refl)

  kept_error-IsKept :
      (key : QueueKey) (r : State × Option Failure) (box : Inbox Double State)
      → IsKept key box (kept_error floats cart r box)
  kept_error-IsKept key (s, none) box = (refl, refl)
  kept_error-IsKept key (s, some e) box = (refl, refl)

  deliver-skipped :
      (c : ℕ) (payload : List ℕ) (now : ℕ) (box : Inbox Double State) (key : QueueKey)
      → is_queued c ≡ false
      → IsKept key box (deliver floats cart c payload now box)
  unfolding deliver on_status
  deliver-skipped c payload now box key skipped =
      let seen = record box { recv = note_recv c now box.recv } in
      let st = on_status floats cart payload seen in
      let replied = kept_error floats cart (on_reply payload now seen.collector) seen in
      let other = if c == 0x4e then replied else enqueue c payload seen in
      let counted = record st { status_seq = u64 (st.status_seq + 1) } in
      elim (Bool-cases (c == 0x40)) [
        | inl status ↦
            subst (IsKept key box) (sym (if-true (c == 0x40) counted other status))
              (caught-IsKept key (decode_state floats payload) seen)
        | inr answer ↦
            let plan : (c == 0x4e) ≡ true = ground (arith, skipped, answer) in
            subst (IsKept key box)
              (sym (
                if-false (c == 0x40) counted other answer
                ∙ if-true (c == 0x4e) replied (enqueue c payload seen) plan))
              (kept_error-IsKept key (on_reply payload now seen.collector) seen)
      ]

  deliver-queued :
      (c : ℕ) (payload : List ℕ) (now : ℕ) (box : Inbox Double State)
      → is_queued c ≡ true
      → deliver floats cart c payload now box
        ≡ enqueue c payload (record box { recv = note_recv c now box.recv })
  unfolding deliver
  deliver-queued c payload now box queued =
      let seen = record box { recv = note_recv c now box.recv } in
      let st = on_status floats cart payload seen in
      let replied = kept_error floats cart (on_reply payload now seen.collector) seen in
      if-false (c == 0x40) (record st { status_seq = u64 (st.status_seq + 1) })
        (if c == 0x4e then replied else enqueue c payload seen) (ground (arith, queued))
      ∙ if-false (c == 0x4e) replied (enqueue c payload seen) (ground (arith, queued))

  enqueue-seq :
      (c : ℕ) (payload : List ℕ) (box : Inbox Double State)
      → (enqueue c payload box).next_seq ≡ u64 (box.next_seq + 1)
  unfolding enqueue
  enqueue-seq c payload box = refl

  -- After any frames, the queue of a key holds the newest 64 of its entries: those that it held, and
  -- those that the frames made for that key, in the order of arrival.
  pub reader_loop-newest :
      (key : QueueKey) (events : List (Event floats cart)) (box : Inbox Double State)
      → length (box.queues key) ≤ queue_max
      → (reader_loop floats cart events box).queues key
        ≡ newest (box.queues key ++ entries_for key events box.next_seq)
  unfolding reader_loop die entries_for
  reader_loop-newest key [] box h =
      sym (ap newest (append-nil (box.queues key)) ∙ newest_short (box.queues key) h)
  reader_loop-newest key (broken ∷ events) box h =
      sym (ap newest (append-nil (box.queues key)) ∙ newest_short (box.queues key) h)
  reader_loop-newest key (frame c payload now ∷ events) box h = elim (Bool-cases (is_queued c)) [
    | inr skipped ↦
        let later = deliver floats cart c payload now box in
        let kept = deliver-skipped c payload now box key skipped in
        let queue = box.queues key in
        let made =
          entry_for key c payload box.next_seq ++ entries_for key events (u64 (box.next_seq + 1)) in
        reader_loop-newest key events later
          (subst (λ (q : Queue). length q ≤ queue_max) (sym kept.0) h)
        ∙ ap₂ (λ (q : Queue) (n : ℕ). newest (q ++ entries_for key events n)) kept.0 kept.1
        ∙ ap (λ (t : Queue). newest (queue ++ t))
            (sym (if-false (is_queued c) made (entries_for key events box.next_seq) skipped))
    | inl queued ↦
        let next = enqueue c payload (record box { recv = note_recv c now box.recv }) in
        let queue = box.queues key in
        let entry = entry_for key c payload box.next_seq in
        let rest = entries_for key events (u64 (box.next_seq + 1)) in
        let grown =
          enqueue-queue c payload (record box { recv = note_recv c now box.recv }) key h in
        let numbered = enqueue-seq c payload (record box { recv = note_recv c now box.recv }) in
        ap (λ (b : Inbox Double State). (reader_loop floats cart events b).queues key)
          (deliver-queued c payload now box queued)
        ∙ reader_loop-newest key events next (
            subst (λ (q : Queue). length q ≤ queue_max) (sym grown)
              (length-newest (queue ++ entry)))
        ∙ ap₂ (λ (q : Queue) (n : ℕ). newest (q ++ entries_for key events n)) grown numbered
        ∙ newest-newest (queue ++ entry) rest
        ∙ ap newest (append_assoc queue entry rest)
        ∙ ap (λ (t : Queue). newest (queue ++ t))
            (sym
              (if-true (is_queued c) (entry ++ rest) (entries_for key events box.next_seq) queued))
  ]
