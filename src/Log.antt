-- ===== src/Log.antt =====
-- Reading the control-tick log back: `LogReader` and `parse_samples` of `include/litearm/log.hpp` and
-- `src/log.cpp`. What the queries bring is a parameter: the link gives for the number of a query and
-- its offset what `expect` gives, a payload or an exception.
pub mod Cursor
pub mod Transfer
pub mod Samples
mod Examples
use litearm_cpp.Base.{
  ℕ, zero, suc, ◌+◌, ◌-◌, ◌*◌, ◌/◌, ◌%◌, ◌^◌, List, [], ◌∷◌, ◌++◌, Option, none, some, Bool, true,
  false, not, ◌==◌, ◌||◌, leb, ltb, if◌then◌else◌, length, take, drop,
}
use litearm_cpp.Errors.{Failure, Result, ok, err, transport, motion_timeout, invalid_command}
use litearm_cpp.Floats.{Floats}
use litearm_cpp.Protocol.Frame.{byte_at}
use litearm_cpp.Protocol.Scalar.{read_u32le, unpack_f32s}

abbrev pub log_hdr : ℕ
log_hdr = 9

abbrev pub log_read_chunk : ℕ
log_read_chunk = 245

abbrev pub Link : Type 0
Link = ℕ → ℕ → Result (List ℕ)

-- The fields of `LogReader`, and how many queries were sent.
pub record LogReader : Type 0 where
  pub total_bytes : ℕ
  pub next : ℕ
  pub asked : ℕ

abbrev pub new_reader : LogReader
new_reader = record { total_bytes = 0; next = 0; asked = 0 }

-- A reply that passes the checks: the recorded amount, the next offset and the bytes.
pub record LogChunk : Type 0 where
  pub total : ℕ
  pub next : ℕ
  pub bytes : List ℕ

unfoldable pub parse_chunk : List ℕ → Result LogChunk
parse_chunk p =
    if ltb (length p) log_hdr
    then err transport
    else (let n = byte_at p 8 in
        if ltb log_read_chunk n || ltb (length p) (log_hdr + n)
        then err transport
        else ok (record {
          total = read_u32le p 0;
          next = read_u32le p 4;
          bytes = take n (drop log_hdr p);
        }))

abbrev pub Answer : Type 0
Answer = Result (List ℕ) × LogReader

-- Past the loop: the last time-out again, or the exception for no attempt at all.
abbrev pub exhausted : Option Failure → LogReader → Answer
exhausted (some e) reader = (err e, reader)
exhausted none reader = (err transport, reader)

abbrev pub accepted : Result LogChunk → LogReader → Answer
accepted (err e) reader = (err e, reader)
accepted (ok c) reader = (ok c.bytes, record reader { total_bytes = c.total; next = c.next })

abbrev pub is_timeout : Failure → Bool
is_timeout motion_timeout = true
is_timeout e = false

-- One attempt: what the link brought, and the attempts that follow a time-out.
abbrev pub attempted : Result (List ℕ) → LogReader → Answer → Answer
attempted (ok p) reader again = accepted (parse_chunk p) reader
attempted (err e) reader again = if is_timeout e then again else (err e, reader)

-- `for (int i = 0; i <= retries_; ++i)`, with the attempts left: `retries + 1` at first.
unfoldable pub attempts : Link → ℕ → ℕ → Option Failure → LogReader → Answer
attempts link zero offset last reader = exhausted last reader
attempts link (suc left) offset last reader =
    let asked = record reader { asked = reader.asked + 1 } in
    attempted (link reader.asked offset) asked
      (attempts link left offset (some motion_timeout) asked)

unfoldable pub read_chunk : Link → ℕ → ℕ → LogReader → Answer
read_chunk link rounds offset reader = attempts link rounds offset none reader

pub total : Link → ℕ → LogReader → Result ℕ × LogReader
total link rounds reader =
    let answer = read_chunk link rounds 0 reader in
    (elim answer.0 [ ok bytes ↦ ok answer.1.total_bytes | err e ↦ err e ], answer.1)

-- The chunks that were read, and the reader; `none` when the fuel ends.
abbrev pub Chunks : Type 0
Chunks = Option (Result (List (List ℕ)) × LogReader)

abbrev pub with_chunk : List ℕ → List (List ℕ) → List (List ℕ)
with_chunk [] chunks = chunks
with_chunk (b ∷ bytes) chunks = (b ∷ bytes) ∷ chunks

abbrev pub add_chunk : List ℕ → Chunks → Chunks
add_chunk bytes none = none
add_chunk bytes (some (ok chunks, reader)) = some (ok (with_chunk bytes chunks), reader)
add_chunk bytes (some (err e, reader)) = some (err e, reader)

-- What the loop does with an answer at an offset, where `rest` goes on at the next offset.
abbrev pub follow : ℕ → Answer → Chunks → Chunks
follow off (err e, reader) rest = some (err e, reader)
follow off (ok bytes, reader) rest =
    if reader.next == 0
    then some (ok (with_chunk bytes []), reader)
    else if leb reader.next off
    then some (err transport, reader)
    else add_chunk bytes rest

-- The loop of `iter_chunks` from an offset.
unfoldable pub iter_from : Link → ℕ → ℕ → ℕ → LogReader → Chunks
iter_from link rounds zero off reader = none
iter_from link rounds (suc fuel) off reader =
    let answer = read_chunk link rounds off reader in
    follow off answer (iter_from link rounds fuel answer.1.next answer.1)

-- The offsets are 32-bit numbers that grow, so that the fuel is enough.
unfoldable pub iter_chunks : Link → ℕ → LogReader → Chunks
iter_chunks link rounds reader = iter_from link rounds (2 ^ 32) 0 reader

abbrev pub concat : List (List ℕ) → List ℕ
concat [] = []
concat (c ∷ chunks) = c ++ concat chunks

abbrev pub joined_chunks : Chunks → Option (Result (List ℕ))
joined_chunks none = none
joined_chunks (some (ok chunks, reader)) = some (ok (concat chunks))
joined_chunks (some (err e, reader)) = some (err e)

unfoldable pub read_all : Link → ℕ → LogReader → Option (Result (List ℕ))
read_all link rounds reader = joined_chunks (iter_chunks link rounds reader)

-- `sample_size`, at a number of joints that is not negative.
pub sample_size : ℕ → ℕ
sample_size n_joints = 4 + 12 * n_joints

pub record LogSample (D : Type 0) : Type 0 where
  pub tick : ℕ
  pub q_ref : List D
  pub dq : List D
  pub tau : List D

module _ (floats : Floats) where
  open floats use {Double}

  unfoldable pub sample_at : List ℕ → ℕ → ℕ → LogSample Double
  sample_at blob n_joints off = record {
    tick = read_u32le blob off;
    q_ref = unpack_f32s floats blob (off + 4) n_joints;
    dq = unpack_f32s floats blob (off + 4 + 4 * n_joints) n_joints;
    tau = unpack_f32s floats blob (off + 4 + 8 * n_joints) n_joints;
  }

  -- The loop, with the rounds left: one for each whole sample from `off` on.
  unfoldable pub samples_from : List ℕ → ℕ → ℕ → ℕ → List (LogSample Double)
  samples_from blob n_joints zero off = []
  samples_from blob n_joints (suc left) off =
      sample_at blob n_joints off ∷ samples_from blob n_joints left (off + (4 + 12 * n_joints))

  unfoldable pub parse_samples : List ℕ → ℕ → Result (List (LogSample Double))
  parse_samples blob n_joints =
      let size = 4 + 12 * n_joints in
      if not (length blob % size == 0)
      then err transport
      else ok (samples_from blob n_joints (length blob / size) 0)
