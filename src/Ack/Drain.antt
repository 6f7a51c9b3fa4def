-- ===== src/Ack/Drain.antt =====
-- What `drain_for` clears.
use litearm_cpp.Base.{
  ℕ, ◌≡◌, refl, sym, ◌∙◌, ◌⊎◌, inl, inr, List, [], ◌∷◌, some, arith, false, Bool-cases,
  Option-cases, All,
}
use litearm_cpp.Errors.{ok}
use litearm_cpp.Protocol.Tables.{rsp_of, find_answer}
use litearm_cpp.Ack.{
  QueueKey, Queue, Queues, same_key, plain, echoed, is_echoed, wait_keys, set_queue, drain_for,
  Inbox,
}
use litearm_cpp.Ack.Keys.{same_key_refl, same_key→≡}

abbrev IsEmptyAt : Queues → QueueKey → Type 0
IsEmptyAt queues key = queues key ≡ []

set-empty :
    (key k : QueueKey) (queues : Queues)
    → (key ≡ k) ⊎ IsEmptyAt queues k
    → IsEmptyAt (set_queue key [] queues) k
set-empty key k queues (inl same) = rw (same, same_key_refl k) refl
set-empty key k queues (inr empty) = elim (Bool-cases (same_key key k)) [
  | inl e ↦ rw e refl
  | inr e ↦ rw e empty
]

set-other :
    (key k : QueueKey) (queue : Queue) (queues : Queues)
    → same_key key k ≡ false
    → set_queue key queue queues k ≡ queues k
set-other key k queue queues e = rw e refl

-- The keys of a command: those of its acknowledgement, of its refusal, and of its own answer.
abbrev pub IsKeyOf : ℕ → QueueKey → Type 0
IsKeyOf cmd key =
    (key ≡ echoed 0x45 cmd)
    ⊎ (key ≡ echoed 0x46 cmd)
    ⊎ ((rsp : ℕ) × (rsp_of cmd ≡ some rsp) × (key ≡ plain rsp))

apart : (a b : QueueKey) → ¬ (a ≡ b) → same_key a b ≡ false
apart a b h = elim (Bool-cases (same_key a b)) [ inl e ↦ absurd (h (same_key→≡ a b e)) | inr e ↦ e ]

-- No command has an acknowledgement or a refusal as its own answer.
answer_apart : (cmd want : ℕ) → rsp_of cmd ≡ some want → is_echoed want ≡ false
unfolding rsp_of find_answer
answer_apart cmd want h = ground (arith, h)

module _ {D S : Type 0} where
  drained :
      (cmd : ℕ) (box : Inbox D S) (key : QueueKey)
      → IsKeyOf cmd key
      → IsEmptyAt (drain_for cmd box).queues key
  unfolding drain_for
  drained cmd box key h =
      let ack = echoed 0x45 cmd in
      let refusal = echoed 0x46 cmd in
      let first = set_queue ack [] box.queues in
      let second = set_queue refusal [] first in
      let cleared : (key ≡ ack) ⊎ (key ≡ refusal) → IsEmptyAt second key = λ is. elim is [
        | inl e ↦ set-empty refusal key first (inr (set-empty ack key box.queues (inl (sym e))))
        | inr e ↦ set-empty refusal key first (inl (sym e))
      ] in
      elim (Option-cases (rsp_of cmd)) [
        | inl none_of ↦ elim h [
          | inl e ↦ rw none_of (cleared (inl e))
          | inr (inl e) ↦ rw none_of (cleared (inr e))
          | inr (inr (rsp, is, e)) ↦ ground (arith, is, none_of)
        ]
        | inr (answer, is_answer) ↦ rw is_answer (
            set-empty (plain answer) key second (elim h [
              | inl e ↦ inr (cleared (inl e))
              | inr (inl e) ↦ inr (cleared (inr e))
              | inr (inr (rsp, is, e)) ↦ inl (ground (arith, is, e, is_answer))
            ]))
      ]

  -- After `drain_for`, every queue that a wait for an acknowledgement, a refusal or the answer of the
  -- command would look at is empty, so that no stale frame passes for a fresh answer.
  pub drain_for_lem :
      (cmd want : ℕ) (keys : List QueueKey) (box : Inbox D S)
      → (want ≡ 0x45) ⊎ (want ≡ 0x46) ⊎ (rsp_of cmd ≡ some want)
      → wait_keys want (some cmd) ≡ ok keys
      → All (λ k. (drain_for cmd box).queues k ≡ []) keys
  unfolding wait_keys
  drain_for_lem cmd want keys box h e =
      let ack = drained cmd box (echoed 0x45 cmd) (inl refl) in
      let refusal = drained cmd box (echoed 0x46 cmd) (inr (inl refl)) in
      elim h [
        | inl is ↦
            let both : keys ≡ echoed 0x45 cmd ∷ echoed 0x46 cmd ∷ [] = ground (arith, is, e) in
            rw both (ack, (refusal, tt))
        | inr (inl is) ↦
            let one : keys ≡ echoed 0x46 cmd ∷ [] = ground (arith, is, e) in rw one (refusal, tt)
        | inr (inr is) ↦
            let apart = answer_apart cmd want is in
            let both : keys ≡ plain want ∷ echoed 0x46 cmd ∷ [] = ground (arith, e, apart) in
            rw both (drained cmd box (plain want) (inr (inr (want, is, refl))), (refusal, tt))
      ]

  -- `drain_for` leaves the queues of other commands as they are.
  pub drain_for_other :
      (cmd : ℕ) (key : QueueKey) (box : Inbox D S)
      → ¬ IsKeyOf cmd key
      → (drain_for cmd box).queues key ≡ box.queues key
  unfolding drain_for
  drain_for_other cmd key box other =
      let ack = echoed 0x45 cmd in
      let refusal = echoed 0x46 cmd in
      let first = set_queue ack [] box.queues in
      let second = set_queue refusal [] first in
      let kept : second key ≡ box.queues key =
        set-other refusal key [] first (apart refusal key λ e. other (inr (inl (sym e))))
        ∙ set-other ack key [] box.queues (apart ack key λ e. other (inl (sym e))) in
      elim (Option-cases (rsp_of cmd)) [
        | inl none_of ↦ rw none_of kept
        | inr (rsp, is) ↦ rw is (
            set-other (plain rsp) key [] second
              (apart (plain rsp) key λ e. other (inr (inr (rsp, is, sym e))))
            ∙ kept)
      ]
