-- ===== src/Buffer/Space.antt =====
-- How a Buffer makes room: forward, backward, reserve, resize, shrink and shrink_to_fit
-- (liby_cpp/Buffer.cpp).
pub mod Room
use old_tools.Common.{
  ℕ, zero, suc, ◌+◌, ◌-◌, ◌*◌, Bool, true, false, Option, none, some, List, [], ◌∷◌, ◌==◌, ltb, leb,
  if◌then◌else◌,
}
use old_tools.Common.Run.{Run, done, fault, ◌>>=◌, ◌>>?◌}
use old_tools.Buffer.{
  Buffer, new_cells, read_at, write_at, cells_of, size, move_cells, moved, reindexed,
}

-- forward
unfoldable pub forward : Buffer → ℕ → Run Buffer
unfolding size move_cells
forward b zero =
    if b.left == 0
    then done b
    else (size b >>= λ n.
        move_cells b 0 b.left n >>= λ cells. done (moved b cells 0 (b.right - b.left)))
forward b (suc offset) =
    if leb b.right (suc offset)
    then done (reindexed b 0 0)
    else (if leb (suc offset) b.left
        then (move_cells b (b.left - suc offset) b.left (b.right - b.left) >>= λ cells.
            done (moved b cells (b.left - suc offset) (b.right - suc offset)))
        else (move_cells b 0 (b.right - suc offset) (b.right - suc offset) >>= λ cells.
            done (moved b cells 0 (b.right - suc offset))))

-- backward; `leftIndex_` is at most `rightIndex_`, and that at most `capacity_`.
unfoldable pub backward : Buffer → ℕ → Run Buffer
unfolding move_cells
backward b zero =
    if b.right == b.capacity
    then done b
    else (move_cells b (b.left + b.capacity - b.right) b.left (b.capacity - b.right) >>= λ cells.
        done (moved b cells (b.left + (b.capacity - b.right)) b.capacity))
backward b (suc offset) =
    if leb (b.capacity - b.left) (suc offset)
    then done (reindexed b b.capacity b.capacity)
    else (if leb (suc offset) (b.capacity - b.right)
        then (move_cells b (b.left + suc offset) b.left (b.right - b.left) >>= λ cells.
            done (moved b cells (b.left + suc offset) (b.right + suc offset)))
        else (move_cells b (b.left + suc offset) b.left (b.capacity - b.left - suc offset)
            >>= λ cells.
                done (moved b cells (b.left + (b.capacity - b.left - suc offset)) b.capacity)))

-- The cells of `new char[n]` with those of the buffer between its indices at the same places
unfoldable pub copied : (ℕ → ℕ) → Buffer → ℕ → Run (List ℕ)
unfolding new_cells size cells_of read_at write_at
copied fresh b n = do
  len ← size b
  cells ← cells_of b
  bytes ← read_at cells b.left len
  write_at (new_cells fresh 0 n) b.left bytes

-- resize
unfoldable pub resize_buffer : (ℕ → ℕ) → Buffer → ℕ → Run Buffer
unfolding copied
resize_buffer fresh b n =
    if ltb n b.capacity
    then done b
    else (copied fresh b n >>= λ cells.
        done (record { cells = some cells; left = b.left; right = b.right; capacity = n }))

-- The loop `while (newSize < minSize)` with at most `fuel` rounds
unfoldable pub double_until : ℕ → ℕ → ℕ → Option ℕ
double_until zero new_size min_size = none
double_until (suc fuel) new_size min_size =
    let rest = double_until fuel (new_size * 2) min_size in
    if ltb new_size min_size then rest else some new_size

-- reserve, where `none` is a loop that goes on
unfoldable pub reserve : ℕ → (ℕ → ℕ) → Buffer → ℕ → Run (Option Buffer)
unfolding double_until resize_buffer
reserve fuel fresh b min_size =
    if ltb min_size b.capacity
    then done (some b)
    else (done (double_until fuel (b.capacity * 2) min_size) >>? λ n.
        (resize_buffer fresh b n >>= λ b'. done (some b')))

-- shrink
unfoldable pub shrink : (ℕ → ℕ) → Buffer → ℕ → Run Buffer
unfolding new_cells cells_of read_at write_at
shrink fresh b len =
    if ltb len b.capacity
    then (cells_of b >>= λ cells. read_at cells 0 len >>= λ bytes.
        write_at (new_cells fresh 0 len) 0 bytes >>= λ cells'.
        done (record { cells = some cells'; left = 0; right = 0; capacity = len }))
    else done b

-- shrink_to_fit
unfoldable pub shrink_to_fit : (ℕ → ℕ) → Buffer → ℕ → Run Buffer
unfolding size shrink copied
shrink_to_fit fresh b len = do
  n ← size b
  if ltb len n
      then shrink fresh b n
      else (if ltb (len + b.left) b.capacity
          then (copied fresh b (len + b.left) >>= λ cells. done (record {
            cells = some cells;
            left = b.left;
            right = b.right;
            capacity = len + b.left;
          }))
          else done b)
