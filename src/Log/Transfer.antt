-- ===== src/Log/Transfer.antt =====
-- What is read back from a device that serves its log, over a link that loses answers.
use litearm_cpp.Base.{
  ℕ, zero, suc, ◌+◌, ◌-◌, ◌^◌, ◌≤◌, ◌<◌, ◌≡◌, refl, ap, subst, sym, ◌∙◌, inl, inr, List, [], ◌∷◌,
  ◌++◌, Option, none, some, arith, Bool, true, false, Bool-cases, ◌==◌, ◌||◌, leb, ltb,
  if◌then◌else◌, length, take, drop, length-append, length-take, take-append-drop, append-nil,
  append_assoc, drop-append, take-append, drop-drop, drop_past, if-true, if-false, ltb-cases,
}
use litearm_cpp.Errors.{Failure, Result, ok, err, transport, motion_timeout}
use litearm_cpp.Protocol.Frame.{byte_at}
use litearm_cpp.Protocol.Scalar.{pack_u32le, read_u32le}
use litearm_cpp.Protocol.Scalar.RoundTrip.{read-pack_u32, at_offset, length-pack_u32le}
use litearm_cpp.Log.{
  Link, LogReader, LogChunk, parse_chunk, Answer, accepted, attempted, attempts, read_chunk, Chunks,
  with_chunk, add_chunk, follow, iter_from, iter_chunks, concat, joined_chunks, read_all,
}

-- What the firmware answers at an offset of its log: the length of the log, the next offset or zero
-- at the end, and up to 245 bytes.
abbrev pub chunk_at : List ℕ → ℕ → List ℕ
chunk_at blob off = take 245 (drop off blob)

abbrev pub next_at : List ℕ → ℕ → ℕ
next_at blob off = if leb (length blob) (off + 245) then 0 else off + 245

abbrev pub served : List ℕ → ℕ → List ℕ
served blob off =
    pack_u32le (length blob)
    ++ pack_u32le (next_at blob off)
    ++ length (chunk_at blob off) ∷ chunk_at blob off

-- A link that loses the answers to some queries.
abbrev pub lossy : (ℕ → Bool) → List ℕ → Link
lossy lost blob n off = if lost n then err motion_timeout else ok (served blob off)

length-chunk_at : (blob : List ℕ) (off : ℕ) → length (chunk_at blob off) ≤ 245
length-chunk_at blob off = omega (arith, length-take 245 (drop off blob))

parse_of :
    (p : List ℕ) (n t x : ℕ) (c : List ℕ)
    → length p ≡ 9 + n
    → byte_at p 8 ≡ n
    → n ≤ 245
    → read_u32le p 0 ≡ t
    → read_u32le p 4 ≡ x
    → take n (drop 9 p) ≡ c
    → parse_chunk p ≡ ok (record { total = t; next = x; bytes = c })
unfolding parse_chunk
parse_of p n t x c size count few et ex ec =
    let long : ltb (length p) 9 ≡ false = ground (arith, size) in
    let full : (ltb 245 n || ltb (length p) (9 + n)) ≡ false = ground (arith, size, few) in
    rw (long, count, full, et, ex, ec) refl

served_chunk :
    (blob : List ℕ) (off : ℕ)
    → length blob < 2 ^ 32
    → parse_chunk (served blob off)
      ≡ ok (record { total = length blob; next = next_at blob off; bytes = chunk_at blob off })
unfolding parse_chunk
served_chunk blob off h =
    let total = pack_u32le (length blob) in
    let next = pack_u32le (next_at blob off) in
    let c = chunk_at blob off in
    let n = length c in
    let p = total ++ next ++ n ∷ c in
    let head : length (total ++ next) ≡ 8 = omega (
      arith,
      length-append total next,
      length-pack_u32le (length blob),
      length-pack_u32le (next_at blob off),
    ) in
    let size : length p ≡ 9 + n = omega (arith, length-append (total ++ next) (n ∷ c), head) in
    let grouped : total ++ next ++ (n ∷ []) ++ c ≡ p = append_assoc (total ++ next) (n ∷ []) c in
    let front : length (total ++ next ++ n ∷ []) ≡ 9 =
      omega (arith, length-append (total ++ next) (n ∷ []), head) in
    let fits : next_at blob off < 2 ^ 32 = ground (arith, h) in
    let first : [] ++ total ++ (next ++ n ∷ c) ≡ p = simp append_assoc in
    let count : byte_at p 8 ≡ n =
      subst (λ (b : List ℕ). byte_at b 8 ≡ n) grouped
        (at_offset (total ++ next) (n ∷ []) c 8 0 8 head refl) in
    let body : drop 9 p ≡ c =
      ap (drop 9) (sym grouped) ∙ drop-append 9 (total ++ next ++ n ∷ []) c front in
    let whole : take n c ≡ c = ap (take n) (sym (append-nil c)) ∙ take-append n c [] refl in
    parse_of p n (length blob) (next_at blob off) c size count (length-chunk_at blob off)
      (subst (λ (b : List ℕ). read_u32le b 0 ≡ length blob) first
        (read-pack_u32 [] (next ++ n ∷ c) 0 (length blob) refl h))
      (read-pack_u32 total (n ∷ c) 4 (next_at blob off) (length-pack_u32le (length blob)) fits)
      (ap (take n) body ∙ whole)

IsServed : List ℕ → ℕ → Answer → Type 0
IsServed blob off answer = (answer.0 ≡ ok (chunk_at blob off)) × (answer.1.next ≡ next_at blob off)

served_next :
    (blob : List ℕ) (off : ℕ) (answer : Answer)
    → IsServed blob off answer
    → answer.1.next ≡ next_at blob off
unfolding IsServed
served_next blob off answer (bytes, next) = next

attempts-IsServed :
    (lost : ℕ → Bool) (blob : List ℕ) (left off k : ℕ) (last : Option Failure) (reader : LogReader)
    → length blob < 2 ^ 32
    → k < left
    → lost (reader.asked + k) ≡ false
    → IsServed blob off (attempts (lossy lost blob) left off last reader)
unfolding attempts IsServed
attempts-IsServed lost blob zero off k last reader h few heard = absurd (omega (arith, few))
attempts-IsServed lost blob (suc left) off k last reader h few heard =
    let link = lossy lost blob in
    let asked = record reader { asked = reader.asked + 1 } in
    let again = attempts link left off (some motion_timeout) asked in
    elim (Bool-cases (lost reader.asked)) [
      | inl gone ↦
          let later : 1 ≤ k = ground (arith, gone, heard) in
          let shift : reader.asked + 1 + (k - 1) ≡ reader.asked + k = omega (arith, later) in
          let rest =
            attempts-IsServed lost blob left off (k - 1) (some motion_timeout) asked h
              (omega (arith, few, later)) (ap lost shift ∙ heard) in
          subst (λ (r : Result (List ℕ)). IsServed blob off (attempted r asked again))
            (sym (if-true (lost reader.asked) (err motion_timeout) (ok (served blob off)) gone))
            rest
      | inr came ↦
          subst (λ (r : Result (List ℕ)). IsServed blob off (attempted r asked again))
            (sym (if-false (lost reader.asked) (err motion_timeout) (ok (served blob off)) came))
            (subst (λ (r : Result LogChunk). IsServed blob off (accepted r asked))
              (sym (served_chunk blob off h)) (refl, refl))
    ]

chunk_rest : (blob : List ℕ) (off : ℕ) → chunk_at blob off ++ drop (off + 245) blob ≡ drop off blob
chunk_rest blob off =
    ap (λ (b : List ℕ). chunk_at blob off ++ b) (sym (drop-drop off 245 blob))
    ∙ take-append-drop 245 (drop off blob)

chunk_last : (blob : List ℕ) (off : ℕ) → length blob ≤ off + 245 → chunk_at blob off ≡ drop off blob
chunk_last blob off h =
    sym (append-nil (chunk_at blob off))
    ∙ ap (λ (b : List ℕ). chunk_at blob off ++ b) (sym (drop_past (off + 245) blob h))
    ∙ chunk_rest blob off

concat-with_chunk :
    (bytes : List ℕ) (chunks : List (List ℕ))
    → concat (with_chunk bytes chunks) ≡ bytes ++ concat chunks
concat-with_chunk [] chunks = refl
concat-with_chunk (b ∷ bytes) chunks = refl

joined-add_chunk :
    (bytes rest : List ℕ) (chunks : Chunks)
    → joined_chunks chunks ≡ some (ok rest)
    → joined_chunks (add_chunk bytes chunks) ≡ some (ok (bytes ++ rest))
joined-add_chunk bytes rest none h = ground (arith, h)
joined-add_chunk bytes rest (some (ok chunks, reader)) h =
    let same : concat chunks ≡ rest = ground (arith, h) in
    ap (λ (b : List ℕ). some (ok b))
      (concat-with_chunk bytes chunks ∙ ap (λ (b : List ℕ). bytes ++ b) same)
joined-add_chunk bytes rest (some (err e, reader)) h = ground (arith, h)

-- What one round does, by whether the log goes on after the chunk.
follow_last :
    (blob : List ℕ) (off : ℕ) (answer : Answer) (rest : Chunks)
    → IsServed blob off answer
    → length blob ≤ off + 245
    → joined_chunks (follow off answer rest) ≡ some (ok (drop off blob))
unfolding IsServed
follow_last blob off answer rest (bytes, next) h =
    let c = chunk_at blob off in
    let reader = answer.1 in
    let zero_next : next_at blob off ≡ 0 =
      if-true (leb (length blob) (off + 245)) 0 (off + 245) (ground (arith, h)) in
    let over : (reader.next == 0) ≡ true = ground (arith, next, zero_next) in
    let other = if leb reader.next off then some (err transport, reader) else add_chunk c rest in
    subst
      (λ (r : Result (List ℕ)).
        joined_chunks (follow off (r, reader) rest) ≡ some (ok (drop off blob)))
      (sym bytes)
      (ap joined_chunks
          (if-true (reader.next == 0) (some (ok (with_chunk c []), reader)) other over)
        ∙ ap (λ (b : List ℕ). some (ok b))
            (concat-with_chunk c [] ∙ append-nil c ∙ chunk_last blob off h))

follow_more :
    (blob : List ℕ) (off : ℕ) (answer : Answer) (rest : Chunks)
    → IsServed blob off answer
    → off + 245 < length blob
    → joined_chunks rest ≡ some (ok (drop (off + 245) blob))
    → joined_chunks (follow off answer rest) ≡ some (ok (drop off blob))
unfolding IsServed
follow_more blob off answer rest (bytes, next) h more =
    let c = chunk_at blob off in
    let reader = answer.1 in
    let is_next : next_at blob off ≡ off + 245 =
      if-false (leb (length blob) (off + 245)) 0 (off + 245) (ground (arith, h)) in
    let goes_on : (reader.next == 0) ≡ false = ground (arith, next, is_next) in
    let further : leb reader.next off ≡ false = ground (arith, next, is_next) in
    let other = if leb reader.next off then some (err transport, reader) else add_chunk c rest in
    subst
      (λ (r : Result (List ℕ)).
        joined_chunks (follow off (r, reader) rest) ≡ some (ok (drop off blob)))
      (sym bytes)
      (ap joined_chunks (
          if-false (reader.next == 0) (some (ok (with_chunk c []), reader)) other goes_on
          ∙ if-false (leb reader.next off) (some (err transport, reader)) (add_chunk c rest)
              further)
        ∙ joined-add_chunk c (drop (off + 245) blob) rest more
        ∙ ap (λ (b : List ℕ). some (ok b)) (chunk_rest blob off))

-- Among any `rounds` queries in a row, one is answered.
abbrev pub IsHeard : ℕ → (ℕ → Bool) → Type 0
IsHeard rounds lost = (n : ℕ) → (k : ℕ) × (k < rounds) × (lost (n + k) ≡ false)

iter_from-served :
    (lost : ℕ → Bool) (blob : List ℕ) (rounds fuel off : ℕ) (reader : LogReader)
    → IsHeard rounds lost
    → length blob < 2 ^ 32
    → off < 2 ^ 32
    → 2 ^ 32 ≤ fuel + off
    → joined_chunks (iter_from (lossy lost blob) rounds fuel off reader) ≡ some (ok (drop off blob))
unfolding iter_from read_chunk
iter_from-served lost blob rounds zero off reader heard size below enough =
    absurd (omega (arith, below, enough))
iter_from-served lost blob rounds (suc fuel) off reader heard size below enough =
    let link = lossy lost blob in
    let answer = read_chunk link rounds off reader in
    let rest = iter_from link rounds fuel answer.1.next answer.1 in
    let (k, few, came) = heard reader.asked in
    let got = attempts-IsServed lost blob rounds off k none reader size few came in
    elim (ltb-cases (off + 245) (length blob)) [
      | inr last ↦ follow_last blob off answer rest got last
      | inl more ↦
          let next : answer.1.next ≡ off + 245 =
            served_next blob off answer got
            ∙ if-false (leb (length blob) (off + 245)) 0 (off + 245) (ground (arith, more)) in
          follow_more blob off answer rest got more (
            subst
              (λ (o : ℕ).
                joined_chunks (iter_from link rounds fuel o answer.1)
                ≡ some (ok (drop (off + 245) blob)))
              (sym next)
              (iter_from-served lost blob rounds fuel (off + 245) answer.1 heard size
                (omega (arith, more, size)) (omega (arith, enough))))
    ]

-- From a device that serves its log in chunks, `read_all` returns the log byte for byte, as long as
-- the link answers one of the attempts that each chunk has.
pub read_all-served :
    (lost : ℕ → Bool) (blob : List ℕ) (rounds : ℕ) (reader : LogReader)
    → IsHeard rounds lost
    → length blob < 2 ^ 32
    → read_all (lossy lost blob) rounds reader ≡ some (ok blob)
unfolding read_all iter_chunks
read_all-served lost blob rounds reader heard size =
    iter_from-served lost blob rounds (2 ^ 32) 0 reader heard size (omega arith) (omega arith)
