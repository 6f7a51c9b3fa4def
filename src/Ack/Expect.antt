-- ===== src/Ack/Expect.antt =====
-- Which entry a wait takes, and to which command it belongs.
use litearm_cpp.Base.{
  ℕ, ◌≤◌, ◌≡◌, refl, subst, sym, ◌⊎◌, inl, inr, List, [], ◌∷◌, none, some, arith, Bool-cases,
  Option-cases, ltb, All,
}
use litearm_cpp.Errors.{Failure, transport}
use litearm_cpp.Floats.{Floats}
use litearm_cpp.Ack.{QueueKey, QueueEntry, Queue, Queues, set_queue, Collector}
use litearm_cpp.Ack.Wait.{look, Box, found, failed, nothing, round, Best, with_front, take_best}

abbrev pub IsIn : QueueKey → List QueueKey → Type 0
IsIn key [] = ⊥
IsIn key (k ∷ keys) = (key ≡ k) ⊎ IsIn key keys

abbrev pub IsFront : Queues → QueueKey → QueueEntry → Type 0
IsFront queues key e = (rest : Queue) × (queues key ≡ e ∷ rest)

-- The best entry so far is a queue's front entry, or it is the one of before.
with_front-cases :
    (queue : Queue) (key k : QueueKey) (e : QueueEntry) (best : Best)
    → with_front key queue best ≡ some (k, e)
    → (best ≡ some (k, e)) ⊎ ((key ≡ k) × ((rest : Queue) × (queue ≡ e ∷ rest)))
with_front-cases [] key k e best h = inl h
with_front-cases (f ∷ queue) key k e none h = inr (ground (arith, h), (queue, ground (arith, h)))
with_front-cases (f ∷ queue) key k e (some (b_key, b)) h = elim (Bool-cases (ltb f.seq b.seq)) [
  | inl less ↦ inr (ground (arith, h, less), (queue, ground (arith, h, less)))
  | inr more ↦ inl (ground (arith, h, more))
]

-- It is not later than a queue's front entry, nor than the one of before.
with_front-least :
    (queue : Queue) (key : QueueKey) (best : Best)
    → ((e : QueueEntry) (rest : Queue)
        → queue ≡ e ∷ rest
        → (b : QueueKey × QueueEntry) × (with_front key queue best ≡ some b) × (b.1.seq ≤ e.seq))
      × ((old : QueueKey × QueueEntry)
          → best ≡ some old
          → (b : QueueKey × QueueEntry) × (with_front key queue best ≡ some b)
            × (b.1.seq ≤ old.1.seq))
with_front-least [] key best = (λ e rest h. ground arith, λ old h. (old, h, omega arith))
with_front-least (f ∷ queue) key none =
    (λ e rest h. ((key, f), refl, ground (arith, h)), λ old h. ground (arith, h))
with_front-least (f ∷ queue) key (some (b_key, b)) = elim (Bool-cases (ltb f.seq b.seq)) [
  | inl less ↦ (
    λ e rest h. ((key, f), ground (arith, less), ground (arith, h)),
    λ old h. ((key, f), ground (arith, less), ground (arith, h, less)),
  )
  | inr more ↦ (
    λ e rest h. ((b_key, b), ground (arith, more), ground (arith, h, more)),
    λ old h. ((b_key, b), ground (arith, more), ground (arith, h)),
  )
]

look-IsFront :
    (queues : Queues) (keys : List QueueKey) (k : QueueKey) (e : QueueEntry) (best : Best)
    → look keys queues best ≡ some (k, e)
    → (best ≡ some (k, e)) ⊎ (IsIn k keys × IsFront queues k e)
unfolding look
look-IsFront queues [] k e best h = inl h
look-IsFront queues (key ∷ keys) k e best h =
    elim (look-IsFront queues keys k e (with_front key (queues key) best) h) [
      | inl earlier ↦ elim (with_front-cases (queues key) key k e best earlier) [
        | inl before ↦ inl before
        | inr (same, front) ↦
            inr (inl (sym same), subst (λ (q : QueueKey). IsFront queues q e) same front)
      ]
      | inr (later, front) ↦ inr (inr later, front)
    ]

-- The entry that is found is not later than the best one before, and than no queue's front entry.
abbrev pub IsLeast : Queues → ℕ → List QueueKey → Type 0
IsLeast queues seq [] = Unit
IsLeast queues seq (key ∷ keys) =
    ((e : QueueEntry) (rest : Queue) → queues key ≡ e ∷ rest → seq ≤ e.seq)
    × IsLeast queues seq keys

look-IsLeast :
    (queues : Queues) (keys : List QueueKey) (k : QueueKey) (e : QueueEntry) (best : Best)
    → look keys queues best ≡ some (k, e)
    → IsLeast queues e.seq keys × ((b : QueueKey × QueueEntry) → best ≡ some b → e.seq ≤ b.1.seq)
unfolding look
look-IsLeast queues [] k e best h = (tt, λ b same. ground (arith, h, same))
look-IsLeast queues (key ∷ keys) k e best h =
    let (others, bound) = look-IsLeast queues keys k e (with_front key (queues key) best) h in
    let (front, old) = with_front-least (queues key) key best in
    (
      (
        λ f rest is. let (b, same, low) = front f rest is in omega (arith, bound b same, low),
        others,
      ),
      λ b is. let (c, same, low) = old b is in omega (arith, bound c same, low),
    )

with_front-none :
    (queue : Queue) (key : QueueKey) (best : Best)
    → with_front key queue best ≡ none
    → (best ≡ none) × (queue ≡ [])
with_front-none [] key best h = (h, refl)
with_front-none (f ∷ queue) key best h = ground (arith, h)

look-none :
    (queues : Queues) (keys : List QueueKey) (best : Best)
    → look keys queues best ≡ none
    → (best ≡ none) × All (λ key. queues key ≡ []) keys
unfolding look
look-none queues [] best h = (h, tt)
look-none queues (key ∷ keys) best h =
    let (empty, others) = look-none queues keys (with_front key (queues key) best) h in
    let (none_before, none_here) = with_front-none (queues key) key best empty in
    (none_before, (none_here, others))

no_entry : (k : QueueKey) (e : QueueEntry) (best : Best) → best ≡ none → ¬ (best ≡ some (k, e))
no_entry k e best n h = ground (arith, h, n)

module _ (floats : Floats) (cart : Collector) where
  untaken :
      (box : Box floats cart) (errors : List Failure)
      → box.errors ≡ errors
      → (take_best floats cart none box ≡ nothing)
        ⊎ ((e : Failure) × (later : Box floats cart) × (take_best floats cart none box
              ≡ failed e later)
            × (later.queues ≡ box.queues))
  untaken box (e ∷ errors) h = inr (e, record box { errors = errors }, rw h refl, refl)
  untaken box [] h = elim (Bool-cases box.reader_error) [
    | inl dead ↦ inr (transport, box, ground (arith, h, dead), refl)
    | inr alive ↦ inl (ground (arith, h, alive))
  ]

  -- A look of `wait` takes the front entry of one of the queues that it watches, and no front entry
  -- of those queues arrived earlier; nothing else changes. It takes nothing only when all those
  -- queues are empty.
  pub round_cases :
      (keys : List QueueKey) (box : Box floats cart)
      → ((k : QueueKey) × (e : QueueEntry) × (rest : Queue) × (box.queues k ≡ e ∷ rest)
          × IsIn k keys
          × IsLeast box.queues e.seq keys
          × (round floats cart keys box
              ≡ found e (record box { queues = set_queue k rest box.queues })))
        ⊎ (All (λ k. box.queues k ≡ []) keys
            × ((round floats cart keys box ≡ nothing)
                ⊎ ((e : Failure) × (later : Box floats cart) × (round floats cart keys box
                      ≡ failed e later)
                    × (later.queues ≡ box.queues))))
  unfolding round
  round_cases keys box = elim (Option-cases (look keys box.queues none)) [
    | inl empty ↦
        inr ((look-none box.queues keys none empty).1, rw empty (untaken box box.errors refl))
    | inr ((k, e), some_entry) ↦ elim (look-IsFront box.queues keys k e none some_entry) [
      | inl before ↦ absurd (no_entry k e none refl before)
      | inr (watched, (rest, front)) ↦ inl (
        k,
        e,
        rest,
        front,
        watched,
        (look-IsLeast box.queues keys k e none some_entry).0,
        rw (some_entry, front) refl,
      )
    ]
  ]
