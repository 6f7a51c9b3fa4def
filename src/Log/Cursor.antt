-- ===== src/Log/Cursor.antt =====
-- The cursor of `iter_chunks` advances, so that the loop ends whatever the device answers.
use litearm_cpp.Base.{
  ℕ, zero, suc, ◌+◌, ◌^◌, ◌≤◌, ◌<◌, ◌≡◌, refl, subst, sym, inl, inr, List, [], Option, none, some,
  arith, Bool, true, false, Bool-cases, ◌==◌, ◌||◌, leb, ltb, if◌then◌else◌, length, take, drop,
}
use litearm_cpp.Errors.{Failure, Result, ok, err, transport, motion_timeout}
use litearm_cpp.Protocol.Frame.{IsBytes, byte_at}
use litearm_cpp.Protocol.Scalar.{read_u32le}
use litearm_cpp.Protocol.Scalar.RoundTrip.{read_u32le-lt}
use litearm_cpp.Log.{
  Link, LogReader, LogChunk, parse_chunk, Answer, accepted, attempted, attempts, is_timeout,
  read_chunk, Chunks, with_chunk, add_chunk, follow, iter_from, iter_chunks, log_hdr,
  log_read_chunk,
}

-- The link brings bytes.
abbrev pub IsByteLink : Link → Type 0
IsByteLink link = (n off : ℕ) (p : List ℕ) → link n off ≡ ok p → IsBytes p

abbrev IsU32 : Answer → Type 0
IsU32 (ok bytes, reader) = reader.next < 2 ^ 32
IsU32 (err e, reader) = Unit

IsU32-if : (b : Bool) (x y : Answer) → IsU32 x → IsU32 y → IsU32 (if b then x else y)
IsU32-if true x y hx hy = hx
IsU32-if false x y hx hy = hy

accepted_if :
    (b : Bool) (r : Result LogChunk) (reader : LogReader)
    → IsU32 (accepted r reader)
    → IsU32 (accepted (if b then err transport else r) reader)
accepted_if true r reader h = tt
accepted_if false r reader h = h

accepted-IsU32 :
    (p : List ℕ) (reader : LogReader) → IsBytes p → IsU32 (accepted (parse_chunk p) reader)
unfolding parse_chunk
accepted-IsU32 p reader bytes =
    let n = byte_at p 8 in
    let chunk : Result LogChunk =
      ok (record {
        total = read_u32le p 0;
        next = read_u32le p 4;
        bytes = take n (drop log_hdr p);
      }) in
    accepted_if (ltb (length p) log_hdr)
      (if ltb log_read_chunk n || ltb (length p) (log_hdr + n) then err transport else chunk) reader
      (accepted_if (ltb log_read_chunk n || ltb (length p) (log_hdr + n)) chunk reader
        (read_u32le-lt p 4 bytes))

attempted-IsU32 :
    (r : Result (List ℕ)) (reader : LogReader) (again : Answer)
    → ((p : List ℕ) → r ≡ ok p → IsBytes p)
    → IsU32 again
    → IsU32 (attempted r reader again)
attempted-IsU32 (ok p) reader again bytes h = accepted-IsU32 p reader (bytes p refl)
attempted-IsU32 (err e) reader again bytes h = IsU32-if (is_timeout e) again (err e, reader) h tt

attempts-IsU32 :
    (link : Link) (left off : ℕ) (last : Option Failure) (reader : LogReader)
    → IsByteLink link
    → IsU32 (attempts link left off last reader)
unfolding attempts
attempts-IsU32 link zero off none reader bytes = tt
attempts-IsU32 link zero off (some e) reader bytes = tt
attempts-IsU32 link (suc left) off last reader bytes =
    let asked = record reader { asked = reader.asked + 1 } in
    attempted-IsU32 (link reader.asked off) asked
      (attempts link left off (some motion_timeout) asked) (bytes reader.asked off)
      (attempts-IsU32 link left off (some motion_timeout) asked bytes)

abbrev pub IsDone : Chunks → Type 0
IsDone chunks = (r : Result (List (List ℕ)) × LogReader) × (chunks ≡ some r)

add_chunk-IsDone : (bytes : List ℕ) (rest : Chunks) → IsDone rest → IsDone (add_chunk bytes rest)
add_chunk-IsDone bytes none (r, h) = absurd (ground (arith, h))
add_chunk-IsDone bytes (some (ok chunks, reader)) h = ((ok (with_chunk bytes chunks), reader), refl)
add_chunk-IsDone bytes (some (err e, reader)) h = ((err e, reader), refl)

IsDone-if : (b : Bool) (x y : Chunks) → IsDone x → IsDone y → IsDone (if b then x else y)
IsDone-if true x y hx hy = hx
IsDone-if false x y hx hy = hy

-- The rest is needed only when the next offset lies further on.
follow-IsDone :
    (off : ℕ) (answer : Answer) (rest : Chunks)
    → IsU32 answer
    → (off < answer.1.next → answer.1.next < 2 ^ 32 → IsDone rest)
    → IsDone (follow off answer rest)
follow-IsDone off (err e, reader) rest h go = ((err e, reader), refl)
follow-IsDone off (ok bytes, reader) rest h go = elim (Bool-cases (leb reader.next off)) [
  | inl stuck ↦
      IsDone-if (reader.next == 0) (some (ok (with_chunk bytes []), reader))
        (if leb reader.next off then some (err transport, reader) else add_chunk bytes rest)
        ((ok (with_chunk bytes []), reader), refl)
        (subst
          (λ (b : Bool). IsDone (if b then some (err transport, reader) else add_chunk bytes rest))
          (sym stuck) ((err transport, reader), refl))
  | inr further ↦
      let more = add_chunk-IsDone bytes rest (go (ground (arith, further)) h) in
      IsDone-if (reader.next == 0) (some (ok (with_chunk bytes []), reader))
        (if leb reader.next off then some (err transport, reader) else add_chunk bytes rest)
        ((ok (with_chunk bytes []), reader), refl)
        (subst
          (λ (b : Bool). IsDone (if b then some (err transport, reader) else add_chunk bytes rest))
          (sym further) more)
]

iter_from-IsDone :
    (link : Link) (rounds fuel off : ℕ) (reader : LogReader)
    → IsByteLink link
    → off < 2 ^ 32
    → 2 ^ 32 ≤ fuel + off
    → IsDone (iter_from link rounds fuel off reader)
unfolding iter_from read_chunk
iter_from-IsDone link rounds zero off reader bytes below enough =
    absurd (omega (arith, below, enough))
iter_from-IsDone link rounds (suc fuel) off reader bytes below enough =
    let answer = read_chunk link rounds off reader in
    follow-IsDone off answer (iter_from link rounds fuel answer.1.next answer.1)
      (attempts-IsU32 link rounds off none reader bytes)
      (λ further fits.
        iter_from-IsDone link rounds fuel answer.1.next answer.1 bytes fits
          (omega (arith, further, enough)))

-- Whatever bytes the device answers, and however often it does not answer, `iter_chunks` ends: it
-- returns the chunks or throws.
pub iter_chunks-IsDone :
    (link : Link) (rounds : ℕ) (reader : LogReader)
    → IsByteLink link
    → IsDone (iter_chunks link rounds reader)
unfolding iter_chunks
iter_chunks-IsDone link rounds reader bytes =
    iter_from-IsDone link rounds (2 ^ 32) 0 reader bytes (omega arith) (omega arith)
