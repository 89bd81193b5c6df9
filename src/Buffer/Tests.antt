-- ===== src/Buffer/Tests.antt =====
-- Runs of the Buffer model at fixed inputs.
use old_tools.Common.{
  ℕ, ◌≡◌, refl, ◌||◌, ◌==◌, ltb, if◌then◌else◌, none, some, List, [], ◌∷◌, ◌++◌, length, take, drop,
  arith,
}
use old_tools.Common.Run.{done, fault}
use old_tools.Buffer.{Buffer, no_buffer}
use old_tools.Buffer.Holds.{Holds}
use old_tools.Buffer.Transfer.{append_bytes, prepend_bytes, take_string, take_vector}
use old_tools.Buffer.Transfer.Append.{append_bytes-Holds, append_bytes-no_buffer}
use old_tools.Buffer.Transfer.Prepend.{prepend_bytes-Holds}
use old_tools.Buffer.Transfer.Overrun.{prepend_bytes_full}
use old_tools.Buffer.Transfer.Retrieve.{take_string-Holds}

abbrev zeros_of : ℕ → ℕ
zeros_of i = 0

-- Six places, of which the second and the third hold two bytes
abbrev sample : Buffer
sample = record { cells = some (0 ∷ 7 ∷ 8 ∷ 0 ∷ 0 ∷ 0 ∷ []); left = 1; right = 3; capacity = 6 }

abbrev held : List ℕ
held = 7 ∷ 8 ∷ []

sample-Holds : Holds sample held
sample-Holds = record {
  before = 0 ∷ [];
  after = 0 ∷ 0 ∷ 0 ∷ [];
  memory = refl;
  before_left = refl;
  up_to_right = refl;
  up_to_capacity = refl;
}

abbrev new_bytes : List ℕ
new_bytes = 1 ∷ 2 ∷ 3 ∷ 4 ∷ 5 ∷ []

append_bytes-Holds_example :
    (b' : Buffer) × (append_bytes 5 zeros_of sample new_bytes ≡ done (some b'))
    × Holds b' (held ++ new_bytes)
append_bytes-Holds_example =
    append_bytes-Holds 5 zeros_of sample held new_bytes sample-Holds (omega arith) (omega arith)
      (omega arith)

append_bytes-no_buffer_example : append_bytes 100 zeros_of no_buffer held ≡ done none
append_bytes-no_buffer_example = append_bytes-no_buffer 100 zeros_of held (omega arith)

prepend_bytes-Holds_example :
    (b' : Buffer) × (prepend_bytes 5 zeros_of sample (1 ∷ 2 ∷ 3 ∷ []) ≡ done (some b'))
    × Holds b' ((1 ∷ 2 ∷ 3 ∷ []) ++ held)
prepend_bytes-Holds_example =
    prepend_bytes-Holds 5 zeros_of sample held (1 ∷ 2 ∷ 3 ∷ []) sample-Holds (omega arith)
      (omega arith)

prepend_bytes_full_example : prepend_bytes 5 zeros_of sample new_bytes ≡ fault
prepend_bytes_full_example =
    prepend_bytes_full 5 zeros_of sample held new_bytes sample-Holds (omega arith) (omega arith)

take_string-Holds_example :
    (n : ℕ) × (n ≡ (if (1 == 0) || ltb (length held) 1 then length held else 1))
    × (b' : Buffer) × (take_string 2 sample 1 ≡ done (some (take n held, b')))
    × Holds b' (drop n held)
take_string-Holds_example = take_string-Holds 0 sample held 1 sample-Holds (omega arith)

-- All bytes are returned, but only `len` of them are retrieved.
take_vector_keeps :
    take_vector 2 sample 1
    ≡ done (some (held, record { cells = sample.cells; left = 2; right = 3; capacity = 6 }))
unfolding take_vector
take_vector_keeps = refl
