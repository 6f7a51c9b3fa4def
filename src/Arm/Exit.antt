-- ===== src/Arm/Exit.antt =====
-- What the exit of a frame does to the queues and to the requests in flight.
use litearm_cpp.Base.{
  ℕ, ◌≡◌, refl, sym, ap, subst, ◌∙◌, arith, List, [], ◌∷◌, ◌++◌, some, Bool, true, false,
  if◌then◌else◌, Bool-cases, Option-cases, inl, inr, ◌⊎◌, All,
}
use litearm_cpp.Errors.{Result, ok, err}
use litearm_cpp.Action.{Action, modify, pure, gets, throw_if, then_do, ◌>>=◌, ◌>>◌}
use litearm_cpp.Action.Preserves.{Preserves, Preserves-bind, Preserves-pure}
use litearm_cpp.Action.Yields.{Ends}
use litearm_cpp.Floats.{Floats}
use litearm_cpp.Protocol.Tables.{rsp_of}
use litearm_cpp.Ack.{QueueKey, echoed, drain_for, wait_keys}
use litearm_cpp.Ack.Drain.{drain_for_lem}
use litearm_cpp.Ack.Wait.{Moments, Box, arrive}
use litearm_cpp.Cart.{CartPending, cart_collector, cart_clears_upon, clear_pending, clear_queue}
use litearm_cpp.Arm.{
  Arm, Act, SentFrame, member, is_own, now_s, reading, void_plans, drain, first_write, write_frame,
  reject_if_in_dfu, reject_if_wrong_process, raw_write, require, write_query, write_cmd, answer,
}
use litearm_cpp.Arm.Guards.{admitted, require_lem}
use litearm_cpp.Arm.Safety.{disable, emergency_stop}
use litearm_cpp.Arm.Stable.{Linked, require-Preserves, answer-Preserves}

clear_queue-empty :
    (ids : List ℕ) (now : ℕ) (p : CartPending) → p.q ≡ ids → (clear_queue ids now p).q ≡ []
clear_queue-empty [] now p h = h
clear_queue-empty (id ∷ ids) now p h = refl

clear_pending-empty : (now : ℕ) (p : CartPending) → (clear_pending now p).q ≡ []
unfolding clear_pending
clear_pending-empty now p = clear_queue-empty p.q now p refl

continued :
    {S B : Type 0} (f : Unit {0} → Action S B) (r : Result (Unit {0})) (s : S)
    → r ≡ ok tt
    → then_do f (r, s) ≡ f tt s
continued f (ok u) s e = refl
continued f (err h) s e = cc

module _ (floats : Floats) where
  -- What a clock reading leaves alone.
  abbrev IsBeside : Arm floats → Arm floats → Type 0
  IsBeside arm later =
      (later.sent ≡ arm.sent) × (later.writes ≡ arm.writes) × (later.ack_open ≡ arm.ack_open)

  reading-IsBeside :
      (moments : Moments floats cart_collector) (arm : Arm floats)
      → IsBeside arm ((reading floats moments arm).1)
  reading-IsBeside [] arm = (refl, refl, refl)
  reading-IsBeside (m ∷ moments) arm = (refl, refl, refl)

  drained_q :
      (cmd : ℕ) (mid : Arm floats)
      → mid.box.collector.q ≡ []
      → (drain floats cmd mid).box.collector.q ≡ []
  unfolding drain_for
  drained_q cmd mid h = elim (Bool-cases mid.ack_open) [
    | inl a ↦ elim (Option-cases (rsp_of cmd)) [
      | inl n ↦ simp (a, n) h
      | inr (rsp, n) ↦ simp (a, n) h
    ]
    | inr a ↦ simp a h
  ]

  void_plans-ok : (cmd : ℕ) (arm : Arm floats) → (void_plans floats cmd arm).0 ≡ ok tt
  unfolding void_plans now_s modify pure ◌>>=◌
  void_plans-ok cmd arm = elim (Bool-cases (member cmd cart_clears_upon)) [
    | inl e ↦ rw e refl
    | inr e ↦ rw e refl
  ]

  void_plans-IsBeside : (cmd : ℕ) (arm : Arm floats) → IsBeside arm ((void_plans floats cmd arm).1)
  unfolding void_plans now_s modify pure ◌>>=◌
  void_plans-IsBeside cmd arm = elim (Bool-cases (member cmd cart_clears_upon)) [
    | inl e ↦ rw e (reading-IsBeside arm.later arm)
    | inr e ↦ rw e (refl, refl, refl)
  ]

  void_plans-empty :
      (cmd : ℕ) (arm : Arm floats)
      → member cmd cart_clears_upon ≡ true
      → (void_plans floats cmd arm).1.box.collector.q ≡ []
  unfolding void_plans now_s modify pure ◌>>=◌
  void_plans-empty cmd arm e = rw e (clear_pending-empty _ _)

  raw_write-frame :
      (cmd : ℕ) (payload : List ℕ) (arm : Arm floats)
      → arm.dfu_entered ≡ false
      → is_own floats arm.pid arm.current_pid ≡ true
      → raw_write floats cmd payload arm
        ≡ write_frame floats cmd payload (drain floats cmd ((void_plans floats cmd arm).1))
  unfolding raw_write reject_if_in_dfu reject_if_wrong_process modify ◌>>=◌
  raw_write-frame cmd payload arm d o =
      let (r, s) = void_plans floats cmd arm in
      simp (d, o)
        (continued (λ (u : Unit {0}). modify (drain floats cmd) >> write_frame floats cmd payload) r
          s (void_plans-ok cmd arm))

  -- The queues as they were when the frame went out: those that a wait for an answer to the command
  -- looks at were empty, and what has arrived since stands in them.
  pub record IsFresh (cmd : ℕ) (keys : List QueueKey) (arm later : Arm floats) : Type 0 where
    pub box : Box floats cart_collector
    pub empty : All (λ key. box.queues key ≡ []) keys
    pub voided : (member cmd cart_clears_upon ≡ false) ⊎ (box.collector.q ≡ [])
    pub since : later.box ≡ arrive floats cart_collector (first_write floats arm.writes).answers box

  written-IsFresh :
      (cmd : ℕ) (payload : List ℕ) (want : ℕ) (keys : List QueueKey) (arm mid : Arm floats)
      → IsBeside arm mid
      → mid.ack_open ≡ true
      → (want ≡ 0x45) ⊎ (want ≡ 0x46) ⊎ (rsp_of cmd ≡ some want)
      → wait_keys want (some cmd) ≡ ok keys
      → (member cmd cart_clears_upon ≡ true → mid.box.collector.q ≡ [])
      → let later = (write_frame floats cmd payload (drain floats cmd mid)).1 in
        (later.sent ≡ arm.sent ++ record { cmd = cmd; payload = payload } ∷ [])
        × IsFresh cmd keys arm later
  unfolding write_frame
  written-IsFresh cmd payload want keys arm mid (s, w, o) a known e empty = (
    ap (λ (frames : List SentFrame). frames ++ record { cmd = cmd; payload = payload } ∷ []) s,
    record {
      box = (drain floats cmd mid).box;
      empty =
          subst
            (λ (now : Bool).
              All (λ key. (if now then drain_for cmd mid.box else mid.box).queues key ≡ []) keys)
            (sym a) (drain_for_lem cmd want keys mid.box known e);
      voided = elim (Bool-cases (member cmd cart_clears_upon)) [
        | inl c ↦ inr (drained_q cmd mid (empty c))
        | inr c ↦ inl c
      ];
      since = simp (a, w) refl;
    },
  )

  -- In a session that is open in this process, a command's frame goes out whatever it is, and when it
  -- does, the queues that a wait for its acknowledgement, its refusal or its answer looks at are empty;
  -- a command that voids the firmware's plans has no request in flight then. What arrives after the
  -- frame went out is delivered to these queues and not taken off again.
  pub raw_write-IsFresh :
      (cmd : ℕ) (payload : List ℕ) (want : ℕ) (keys : List QueueKey) (arm : Arm floats)
      → arm.dfu_entered ≡ false
      → is_own floats arm.pid arm.current_pid ≡ true
      → arm.ack_open ≡ true
      → (want ≡ 0x45) ⊎ (want ≡ 0x46) ⊎ (rsp_of cmd ≡ some want)
      → wait_keys want (some cmd) ≡ ok keys
      → let later = (raw_write floats cmd payload arm).1 in
        (later.sent ≡ arm.sent ++ record { cmd = cmd; payload = payload } ∷ [])
        × IsFresh cmd keys arm later
  raw_write-IsFresh cmd payload want keys arm d o open_now known e =
      let beside = void_plans-IsBeside cmd arm in
      subst
        (λ (out : Result (Unit {0}) × Arm floats).
          (out.1.sent ≡ arm.sent ++ record { cmd = cmd; payload = payload } ∷ [])
          × IsFresh cmd keys arm out.1)
        (sym (raw_write-frame cmd payload arm d o))
        (written-IsFresh cmd payload want keys arm ((void_plans floats cmd arm).1) beside
          (beside.2 ∙ open_now) known e (void_plans-empty cmd arm))

module _ (floats : Floats) (frames : List SentFrame) where
  abbrev HasSent : Arm floats → Type 0
  HasSent later = later.sent ≡ frames

  from_ends :
      {R : Type 0} (r : Result R) (later : Arm floats)
      → Ends HasSent HasSent r later
      → HasSent later
  from_ends (ok u) later h = h
  from_ends (err e) later h = h

  to_ends :
      {R : Type 0} (r : Result R) (later : Arm floats)
      → HasSent later
      → Ends HasSent HasSent r later
  to_ends (ok u) later h = h
  to_ends (err e) later h = h

  -- Waiting for the answer writes nothing.
  acknowledged :
      (cmd : ℕ) → Preserves HasSent (do require floats; answer floats 0x45 1200 (some cmd); pure tt)
  acknowledged cmd =
      let linked : Linked floats HasSent = λ arm box later h. h in
      Preserves-bind HasSent _ _ (require-Preserves floats HasSent linked) λ u.
        Preserves-bind HasSent _ _ (answer-Preserves floats HasSent linked 0x45 1200 (some cmd))
          λ payload. Preserves-pure HasSent tt

  stop_written :
      (cmd : ℕ) (arm : Arm floats) (m : Act floats (Unit {0}))
      → HasSent ((write_cmd floats cmd [] false arm).1)
      → Preserves HasSent m
      → HasSent ((write_cmd floats cmd [] false >> m) arm).1
  unfolding ◌>>=◌
  stop_written cmd arm m sent kept =
      let (r, later) = write_cmd floats cmd [] false arm in from_ends _ _ (carried r later sent)
    where
      carried :
          (r : Result (Unit {0})) (later : Arm floats)
          → HasSent later
          → let out = then_do (λ (u : Unit {0}). m) (r, later) in
            Ends HasSent HasSent (out.0) (out.1)
      carried (ok u) later h = to_ends ((m later).0) ((m later).1) (kept.holds later h)
      carried (err e) later h = h

module _ (floats : Floats) where
  unguarded :
      (cmd : ℕ) (arm : Arm floats)
      → admitted floats arm ≡ ok tt
      → write_cmd floats cmd [] false arm ≡ raw_write floats cmd [] arm
  unfolding write_cmd write_query gets throw_if ◌>>=◌
  unguarded cmd arm a = simp (require_lem floats arm, a)

  written :
      (cmd : ℕ) (arm : Arm floats)
      → arm.dfu_entered ≡ false
      → is_own floats arm.pid arm.current_pid ≡ true
      → arm.ack_open ≡ true
      → (write_cmd floats cmd [] false arm).1.sent
        ≡ arm.sent ++ record { cmd = cmd; payload = [] } ∷ []
  written cmd arm d o a =
      ap (λ (out : Result (Unit {0}) × Arm floats). out.1.sent)
        (unguarded cmd arm (ground (arith, d, o, a)))
      ∙ (raw_write-IsFresh floats cmd [] 0x45 (echoed 0x45 cmd ∷ echoed 0x46 cmd ∷ []) arm d o a
          (inl refl) (unfold wait_keys in refl)).0

  -- A disable and an emergency stop are written whenever the session is open in this process, also
  -- while zero gravity is active; each writes its one frame and no other.
  pub stops-written :
      (arm : Arm floats)
      → arm.dfu_entered ≡ false
      → is_own floats arm.pid arm.current_pid ≡ true
      → arm.ack_open ≡ true
      → ((disable floats arm).1.sent ≡ arm.sent ++ record { cmd = 0x11; payload = [] } ∷ [])
        × ((emergency_stop floats arm).1.sent
            ≡ arm.sent ++ record { cmd = 0x12; payload = [] } ∷ [])
  unfolding disable emergency_stop
  stops-written arm d o a = (
    stop_written floats _ 0x11 arm _ (written 0x11 arm d o a) (acknowledged floats _ 0x11),
    stop_written floats _ 0x12 arm _ (written 0x12 arm d o a) (acknowledged floats _ 0x12),
  )
