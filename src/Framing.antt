-- ===== src/Framing.antt =====
-- The framer, `FrameReader` of `include/litearm/framing.hpp` and `src/framing.cpp`.
-- A time is a count of nanoseconds of the steady clock, and the sentinel -1 of `partial_since_` is
-- `none`.
pub mod Invariant
pub mod Skips
pub mod Segments
pub mod Sync
pub mod Window
mod Examples
use litearm_cpp.Base.{
  ℕ, ◌+◌, ◌-◌, Bool, true, false, not, List, [], ◌∷◌, ◌++◌, Option, none, some, ltb, leb, ◌==◌,
  length, if◌then◌else◌, take, drop,
}
use litearm_cpp.Protocol.Frame.{Frame, byte_at, sof, unpack_frame}

abbrev pub partial_max : ℕ
partial_max = 250_000_000

abbrev pub noise_max : ℕ
noise_max = 2048

pub record FrameReader : Type 0 where
  pub buf : List ℕ
  pub noise : List ℕ
  pub partial_since : Option ℕ

abbrev pub reset : FrameReader
reset = record { buf = []; noise = []; partial_since = none }

pub buffered : FrameReader → ℕ
buffered r = length r.buf

-- `while (noise_.size() > kNoiseMax) noise_.pop_front();`
pub trim : List ℕ → List ℕ
trim [] = []
trim (b ∷ rest) = if ltb noise_max (length (b ∷ rest)) then trim rest else b ∷ rest

pub note : List ℕ → ℕ → List ℕ
note noise b = trim (noise ++ b ∷ [])

-- The number of bytes of the frame that the buffer announces: SOF, CMD, LEN, payload and CRC.
abbrev pub announced : List ℕ → ℕ
announced buf = 3 + byte_at buf 2 + 2

-- The frame that is taken, if any, and the reader that is left. Each round of the loop takes the
-- first byte off the buffer or ends it, so the loop is a recursion on the buffer.
abbrev pub Assembly : Type 0
Assembly = Option Frame × FrameReader

abbrev pub stop : List ℕ → List ℕ → Option ℕ → Assembly
stop buf noise since = (none, record { buf = buf; noise = noise; partial_since = since })

pub assemble : List ℕ → List ℕ → Option ℕ → Assembly
assemble [] noise since = stop [] noise since
assemble (b ∷ rest) noise since = elim (b == sof) [
  | false ↦ assemble rest (note noise b) since
  | true ↦ elim (ltb (length (b ∷ rest)) 3) [
    | true ↦ stop (b ∷ rest) noise since
    | false ↦ elim (ltb (length (b ∷ rest)) (announced (b ∷ rest))) [
      | true ↦ stop (b ∷ rest) noise since
      | false ↦ elim (unpack_frame (take (announced (b ∷ rest)) (b ∷ rest))) [
        | some f ↦ (
          some f,
          record {
            buf = drop (announced (b ∷ rest)) (b ∷ rest);
            noise = noise;
            partial_since = none;
          },
        )
        | none ↦ assemble rest noise since
      ]
    ]
  ]
]

pub try_assemble : FrameReader → Assembly
try_assemble r = assemble r.buf r.noise r.partial_since

-- The bytes are appended and one frame is taken; `feed(nullptr, 0)` is `feed r []`.
pub feed : FrameReader → List ℕ → Assembly
unfolding try_assemble
feed r bytes = try_assemble (record r { buf = r.buf ++ bytes })

-- The loop of `tick`: the buffer and the start of the window, and whether a byte was dropped.
abbrev pub Swept : Type 0
Swept = record { buf : List ℕ; since : Option ℕ; changed : Bool }

pub sweep : ℕ → List ℕ → Option ℕ → Bool → Swept
sweep now [] since changed = record { buf = []; since = since; changed = changed }
sweep now (b ∷ rest) since changed = elim (b == sof) [
  | false ↦ record { buf = b ∷ rest; since = since; changed = changed }
  | true ↦ elim since [
    | none ↦ record { buf = b ∷ rest; since = some now; changed = changed }
    | some start ↦ elim (leb (now - start) partial_max) [
      | true ↦ record { buf = b ∷ rest; since = some start; changed = changed }
      | false ↦ sweep now rest none true
    ]
  ]
]

-- `buf_.empty() || buf_[0] != proto::SOF`
pub no_partial : List ℕ → Bool
no_partial [] = true
no_partial (b ∷ rest) = not (b == sof)

pub tick : FrameReader → ℕ → FrameReader × Bool
unfolding sweep no_partial
tick r now =
    let s = sweep now r.buf r.partial_since false in
    (
      record {
        buf = s.buf;
        noise = r.noise;
        partial_since = if no_partial s.buf then none else s.since;
      },
      s.changed,
    )
