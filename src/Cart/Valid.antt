-- ===== src/Cart/Valid.antt =====
-- The collector's invariant, whatever order the threads take the parts of their calls in.
use litearm_cpp.Base.{
  ℕ, ◌≡◌, refl, ap, subst, inl, inr, List, [], ◌∷◌, if-true, ◌∙◌, arith, true, ◌==◌, All,
  All-append,
}
use litearm_cpp.Cart.{CartToken, CartPending, at_token, resolve, fail, fail_all, claim_resolved}
use litearm_cpp.Cart.Accounts.{open_elsewhere}
use litearm_cpp.Cart.Shared.{
  Due, resolves, fails, token_of, close_token, close_first, turn_first, Shared, Part, registering,
  claiming, replying, clearing, dropping, unclaiming, owing, closing, turning, part, parts, IsDue,
  IsClosing, IsTaken, IsValid,
}
use litearm_cpp.Cart.Steps.{
  closed_still, register-IsValid, unclaim_locked-IsValid, unclaim-IsValid, drop_and_absorb-IsValid,
}
use litearm_cpp.Cart.Taking.{
  results_due, claim_first-IsValid, IsDue-right, IsDue-left, lock_queue-IsValid, lock_reply-IsValid,
}

results_closed :
    (d : Due) (f : CartToken → CartToken) (p : CartPending) (due : List Due) (ids : List ℕ)
    → ((t : CartToken) → (f t).done ≡ true)
    → All (IsClosing p (d ∷ due)) ids
    → All (IsClosing (record p { tokens = at_token (token_of d) f p.tokens }) due) ids
results_closed d f p due [] closes all = tt
results_closed d f p due (i ∷ ids) closes ((known, inl done), all) =
    let (here, rest) = closed_still (token_of d) f p (i ∷ []) closes ((known, done), tt) in
    ((known, inl here.1), results_closed d f p due ids closes all)
results_closed d f p due (i ∷ ids) closes ((known, inr (inl is)), all) =
    let now_done : (at_token (token_of d) f p.tokens i).done ≡ true =
      ap (λ (t : CartToken). t.done)
        (if-true (i == token_of d) (f (p.tokens i)) (p.tokens i) (ground (arith, is)))
      ∙ closes (p.tokens i) in
    ((known, inl now_done), results_closed d f p due ids closes all)
results_closed d f p due (i ∷ ids) closes ((known, inr (inr is_due)), all) =
    ((known, inr is_due), results_closed d f p due ids closes all)

close_at-IsValid :
    (d : Due) (f : CartToken → CartToken) (p : CartPending) (due : List Due) (handed : List ℕ)
    → ((t : CartToken) → (f t).done ≡ true)
    → IsValid p (d ∷ due) handed
    → IsValid (record p { tokens = at_token (token_of d) f p.tokens }) due handed
close_at-IsValid d f p due handed closes v =
    let ((less, apart), taken) = v.taken in
    record {
      known = v.known;
      ordered = v.ordered;
      waiting = open_elsewhere (token_of d) f p.tokens p.q apart v.waiting;
      taken = taken;
      results = results_closed d f p due p.unclaimed closes v.results;
      closed = closed_still (token_of d) f p handed closes v.closed;
      capped = v.capped;
    }

close_token-IsValid :
    (d : Due) (p : CartPending) (due : List Due) (handed : List ℕ)
    → IsValid p (d ∷ due) handed
    → IsValid (close_token d p) due handed
unfolding fail_all
close_token-IsValid (resolves id payload) p due handed v =
    close_at-IsValid (resolves id payload) (resolve payload) p due handed (λ t. refl) v
close_token-IsValid (fails id) p due handed v =
    close_at-IsValid (fails id) fail p due handed (λ t. refl) v

turned : (i : ℕ) (due : List Due) → IsDue i due → IsDue i (turn_first due)
turned i [] h = elim h [ ]
turned i (d ∷ due) (inl h) = IsDue-right i due (d ∷ []) (inl h)
turned i (d ∷ due) (inr h) = IsDue-left i due (d ∷ []) h

turned_all :
    (p : CartPending) (due : List Due) → All (IsTaken p) due → All (IsTaken p) (turn_first due)
turned_all p [] all = tt
turned_all p (d ∷ due) (h, all) = All-append (IsTaken p) due (d ∷ []) all (h, tt)

turn-IsValid :
    (p : CartPending) (due : List Due) (handed : List ℕ)
    → IsValid p due handed
    → IsValid p (turn_first due) handed
turn-IsValid p due handed v = record {
  known = v.known;
  ordered = v.ordered;
  waiting = v.waiting;
  taken = turned_all p due v.taken;
  results = results_due p due (turn_first due) p.unclaimed (λ i h. turned i due h) v.results;
  closed = v.closed;
  capped = v.capped;
}

abbrev IsSound : Shared → Type 0
IsSound s = IsValid s.pending s.due s.handed

close_first-IsValid :
    (due : List Due) (s : Shared) → s.due ≡ due → IsSound s → IsSound (close_first due s)
close_first-IsValid [] s is v = v
close_first-IsValid (d ∷ due) s is v =
    close_token-IsValid d s.pending due s.handed
      (subst (λ (ds : List Due). IsValid s.pending ds s.handed) is v)

part-IsValid : (x : Part) (s : Shared) → IsSound s → IsSound (part x s)
unfolding part claim_resolved
part-IsValid registering s v = register-IsValid s.due s.handed s.pending v
part-IsValid claiming s v = claim_first-IsValid s.pending.unclaimed s.pending s.due s.handed refl v
part-IsValid (replying payload now) s v = lock_reply-IsValid payload s.due s.handed now s.pending v
part-IsValid (clearing now) s v = lock_queue-IsValid s.pending.q now s.pending s.due s.handed refl v
part-IsValid (dropping id) s v = unclaim_locked-IsValid s.due s.handed id s.pending v
part-IsValid (unclaiming id) s v = unclaim-IsValid s.due s.handed id s.pending v
part-IsValid (owing id timed_out now) s v =
    drop_and_absorb-IsValid s.due s.handed id timed_out now s.pending v
part-IsValid closing s v = close_first-IsValid s.due s refl v
part-IsValid turning s v = turn-IsValid s.pending s.due s.handed v

-- However the threads' calls on the collector are interleaved between their locked parts and what they
-- do to the tokens after the lock: from a valid collector, the requests in the queue are open and stand
-- in the order in which they were made, the results that wait to be claimed are closed or about to be
-- closed by a call that took them, and at most eight, and every token that was claimed is closed.
pub parts-IsValid :
    (xs : List Part) (s : Shared)
    → IsValid s.pending s.due s.handed
    → let later = parts xs s in IsValid later.pending later.due later.handed
unfolding parts
parts-IsValid [] s v = v
parts-IsValid (x ∷ xs) s v = parts-IsValid xs (part x s) (part-IsValid x s v)
