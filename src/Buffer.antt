-- ===== src/Buffer.antt =====
-- The byte buffer of the network library in C++ (liby_cpp/Buffer.cpp and Buffer.h): its fields and
-- its operations. `off_t` does not overflow; a difference that may be negative is written out.
-- `fresh` is what memory from `new char[n]` holds at each of its places.
pub mod Holds
pub mod Space
pub mod Transfer
mod Tests
use old_tools.Common.{
  ℕ, zero, suc, ◌+◌, ◌-◌, ◌*◌, ◌≤◌, ◌<◌, Bool, true, false, ◌&&◌, ◌||◌, Option, none, some, List,
  [], ◌∷◌, ◌++◌, ◌==◌, ltb, leb, if◌then◌else◌, length, take, drop,
}
use old_tools.Common.Run.{Run, done, exited, fault, ◌>>=◌, ◌>>?◌}

-- `buffer_`, none where it is null, `leftIndex_`, `rightIndex_` and `capacity_`
pub record Buffer : Type 0 where
  pub cells : Option (List ℕ)
  pub left : ℕ
  pub right : ℕ
  pub capacity : ℕ

-- Buffer()
unfoldable pub no_buffer : Buffer
no_buffer = record { cells = none; left = 0; right = 0; capacity = 0 }

-- `new char[n]`, from its place `i` on
unfoldable pub new_cells : (ℕ → ℕ) → ℕ → ℕ → List ℕ
new_cells fresh i zero = []
new_cells fresh i (suc n) = fresh i ∷ new_cells fresh (i + 1) n

-- What memcpy and memmove read and write
unfoldable pub read_at : List ℕ → ℕ → ℕ → Run (List ℕ)
read_at cells i n = if leb (i + n) (length cells) then done (take n (drop i cells)) else fault

unfoldable pub write_at : List ℕ → ℕ → List ℕ → Run (List ℕ)
write_at cells i bytes =
    if leb (i + length bytes) (length cells)
    then done (take i cells ++ (bytes ++ drop (i + length bytes) cells))
    else fault

-- The cells of a buffer that is not null
unfoldable pub cells_of : Buffer → Run (List ℕ)
cells_of b = elim b.cells [ none ↦ fault | some cells ↦ done cells ]

-- A failed assertion aborts.
unfoldable pub assert : Bool → Run (Unit {0})
assert c = if c then done tt else exited 134

-- `assert(buffer_ && rightIndex_ >= leftIndex_)`, of data() and wdata()
unfoldable pub assert_data : Buffer → Run (List ℕ)
assert_data b = elim b.cells [
  | none ↦ exited 134
  | some cells ↦ if leb b.left b.right then done cells else exited 134
]

-- size()
unfoldable pub size : Buffer → Run ℕ
unfolding assert
size b = assert (leb b.left b.right) >>= λ u. done (b.right - b.left)

-- capacity()
unfoldable pub capacity_of : Buffer → Run ℕ
unfolding assert
capacity_of b = assert (ltb 0 b.capacity && leb b.left b.right) >>= λ u. done b.capacity

-- availbleSize()
unfoldable pub available : Buffer → Run ℕ
unfolding assert_data
available b = assert_data b >>= λ cells. done (b.capacity - b.right)

-- empty()
unfoldable pub is_empty : Buffer → Bool
is_empty b = b.left == b.right

-- Buffer(off_t)
unfoldable pub with_capacity : (ℕ → ℕ) → ℕ → Buffer
unfolding new_cells
with_capacity fresh n = record {
  cells = some (new_cells fresh 0 n);
  left = 0;
  right = 0;
  capacity = n;
}

-- Buffer(const char *, off_t), setBuffer, and the constructors from vectors; that from a string
-- adds its NUL.
unfoldable pub of_bytes : List ℕ → Buffer
of_bytes bytes = record {
  cells = some bytes;
  left = 0;
  right = length bytes;
  capacity = length bytes;
}

-- Buffer(const std::string &)
unfoldable pub of_string : List ℕ → Buffer
unfolding of_bytes
of_string bytes = of_bytes (bytes ++ (0 ∷ []))

-- `[data(), data() + size())`
unfoldable pub data_of : Buffer → Run (List ℕ)
unfolding assert_data read_at
data_of b = assert_data b >>= λ cells. read_at cells b.left (b.right - b.left)

-- deepCopy, for `that` another object: the memory of `*this` is given back first.
unfoldable pub deep_copy : Buffer → Run Buffer
unfolding size data_of
deep_copy that = do
  n ← size that
  bytes ← data_of that
  done (record { cells = some bytes; left = 0; right = n; capacity = n })

-- The buffer with other cells and indices
abbrev pub moved : Buffer → List ℕ → ℕ → ℕ → Buffer
moved b cells left right = record {
  cells = some cells;
  left = left;
  right = right;
  capacity = b.capacity;
}

abbrev pub reindexed : Buffer → ℕ → ℕ → Buffer
reindexed b left right = record {
  cells = b.cells;
  left = left;
  right = right;
  capacity = b.capacity;
}

-- append(off_t)
unfoldable pub advance_right : Buffer → ℕ → Run Buffer
unfolding assert
advance_right b n =
    assert (leb (b.right + n) b.capacity) >>= λ u. done (reindexed b b.left (b.right + n))

-- safeAppend
unfoldable pub safe_append : Buffer → List ℕ → Run Buffer
unfolding cells_of write_at
safe_append b bytes = do
  cells ← cells_of b
  cells' ← write_at cells b.right bytes
  done (moved b cells' b.left (b.right + length bytes))

-- memmove of the bytes between the indices `from` and `from + n` to `to`
unfoldable pub move_cells : Buffer → ℕ → ℕ → ℕ → Run (List ℕ)
unfolding cells_of read_at write_at
move_cells b to from n = do
  cells ← cells_of b
  bytes ← read_at cells from n
  write_at cells to bytes
