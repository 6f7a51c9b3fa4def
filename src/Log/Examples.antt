-- ===== src/Log/Examples.antt =====
-- A short log that is read back over a link that loses every other answer.
use litearm_cpp.Base.{refl, map, ℕ, ◌-◌, ◌%◌, ◌≡◌, List, [], ◌∷◌, some, arith, Bool, ◌==◌}
use litearm_cpp.Errors.{ok}
use litearm_cpp.Floats.{pattern_floats}
use litearm_cpp.Log.Samples.{samples_bytes, rounded_sample, parse-samples_bytes}
use litearm_cpp.Log.{LogSample, parse_samples, Link, new_reader, iter_chunks, read_all}
use litearm_cpp.Log.Cursor.{IsByteLink, IsDone, iter_chunks-IsDone}
use litearm_cpp.Log.Transfer.{lossy, IsHeard, read_all-served}

abbrev even_lost : ℕ → Bool
even_lost n = n % 2 == 0

even_lost-IsHeard : IsHeard 2 even_lost
even_lost-IsHeard n = (1 - n % 2, omega arith, ground arith)

abbrev short_log : List ℕ
short_log = 1 ∷ 2 ∷ 3 ∷ []

read_all-served_example : read_all (lossy even_lost short_log) 2 new_reader ≡ some (ok short_log)
read_all-served_example =
    read_all-served even_lost short_log 2 new_reader even_lost-IsHeard (omega arith)

-- A device that always sends the same offset back.
abbrev stuck_link : Link
stuck_link n off = ok (0 ∷ 0 ∷ 0 ∷ 0 ∷ 7 ∷ 0 ∷ 0 ∷ 0 ∷ 1 ∷ 9 ∷ [])

stuck_link-IsByteLink : IsByteLink stuck_link
stuck_link-IsByteLink n off p h = ground (arith, h)

iter_chunks-IsDone_example : IsDone (iter_chunks stuck_link 4 new_reader)
iter_chunks-IsDone_example = iter_chunks-IsDone stuck_link 4 new_reader stuck_link-IsByteLink

-- One sample of the seven joints.
abbrev sevens : List ℕ
sevens = 0x3f800000 ∷ 0 ∷ 0 ∷ 0 ∷ 0 ∷ 0 ∷ 0xc0200000 ∷ []

abbrev sample : LogSample ℕ
sample = record { tick = 300; q_ref = sevens; dq = sevens; tau = sevens }

parse-samples_bytes_example :
    parse_samples pattern_floats (samples_bytes pattern_floats (sample ∷ sample ∷ [])) 7
    ≡ ok (map (rounded_sample pattern_floats) (sample ∷ sample ∷ []))
parse-samples_bytes_example =
    parse-samples_bytes pattern_floats (sample ∷ sample ∷ [])
      ((omega arith, refl, refl, refl), ((omega arith, refl, refl, refl), tt))
