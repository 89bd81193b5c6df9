-- ===== src/BinaryHeap.antt =====
-- The binary heap of the network library in C++ (liby_cpp/BinaryHeap.h), of elements of any type
-- with their `operator<` and their default. The element at place 0 of the vector is not used.
pub mod Cells
pub mod Child
pub mod Down
pub mod Fall
pub mod Order
pub mod Runs
pub mod Up
mod Tests
use old_tools.Common.{
  ℕ, zero, suc, ◌+◌, ◌-◌, ◌*◌, ◌/◌, Bool, true, false, ◌&&◌, Option, none, some, List, [], ◌∷◌,
  ◌++◌, ◌==◌, ltb, leb, not, if◌then◌else◌, length, get_elem?,
}
use old_tools.Common.Run.{Run, done, exited, fault, ◌>>=◌}

-- `heap` and `size_`
pub record Heap (A : Type 0) : Type 0 where
  pub cells : List A
  pub size : ℕ

module _ {A : Type 0} where
  -- `heap[i]`
  unfoldable pub cell_at : List A → ℕ → Run A
  cell_at cells i = elim (get_elem? cells i) [ none ↦ fault | some x ↦ done x ]

  -- `heap[i] = x`
  unfoldable pub set_cell : List A → ℕ → A → Run (List A)
  set_cell [] i x = fault
  set_cell (y ∷ cells) zero x = done (x ∷ cells)
  set_cell (y ∷ cells) (suc i) x = set_cell cells i x >>= λ rest. done (y ∷ rest)

  unfoldable pub copies : A → ℕ → List A
  copies x zero = []
  copies x (suc n) = x ∷ copies x n

module _ {A : Type 0} (lt : A → A → Bool) (default : A) where
  -- BinaryHeap(size_type)
  unfoldable pub new_heap : ℕ → Heap A
  unfolding copies
  new_heap capacity = record { cells = copies default capacity; size = 0 }

  -- find_min
  unfoldable pub find_min : Heap A → Run A
  unfolding cell_at
  find_min h = cell_at h.cells 1

  -- The loop of insert and the store behind it; a hole is at least halved by a round.
  unfoldable pub sift_up : ℕ → List A → ℕ → A → Run (List A)
  unfolding cell_at set_cell
  sift_up zero cells hole x = fault
  sift_up (suc fuel) cells hole x =
      if leb hole 1
      then set_cell cells hole x
      else (cell_at cells (hole / 2) >>= λ parent.
          if lt x parent
          then (set_cell cells hole parent >>= λ cells'. sift_up fuel cells' (hole / 2) x)
          else set_cell cells hole x)

  -- `heap.resize(heap.size() * 2)` where only place 0 is behind the elements; of an empty vector
  -- `heap.size() - 1` is the greatest number of 64 bits.
  unfoldable pub grown : Heap A → List A
  unfolding copies
  grown h =
      if (h.size + 1) == length h.cells then h.cells ++ copies default (length h.cells) else h.cells

  -- insert
  unfoldable pub insert_element : A → Heap A → Run (Heap A)
  unfolding grown sift_up
  insert_element x h = sift_up (suc (h.size + 1)) (grown h) (h.size + 1) x >>= λ cells.
      done (record { cells = cells; size = h.size + 1 })

  -- `child`, the least of the two
  unfoldable pub least_child : List A → ℕ → ℕ → Run ℕ
  unfolding cell_at
  least_child cells size hole =
      if hole * 2 == size
      then done (hole * 2)
      else (cell_at cells (hole * 2 + 1) >>= λ right. cell_at cells (hole * 2) >>= λ left.
          done (if lt right left then hole * 2 + 1 else hole * 2))

  -- The loop of percolate_down and the store behind it, with `size` less the hole as its fuel
  unfoldable pub sift_down : ℕ → List A → ℕ → ℕ → A → Run (List A)
  unfolding cell_at set_cell least_child
  sift_down zero cells size hole tmp = fault
  sift_down (suc fuel) cells size hole tmp =
      if leb (hole * 2) size
      then (least_child cells size hole >>= λ child. cell_at cells child >>= λ x.
          if lt x tmp
          then (set_cell cells hole x >>= λ cells'. sift_down fuel cells' size child tmp)
          else set_cell cells hole tmp)
      else set_cell cells hole tmp

  -- percolate_down
  unfoldable pub percolate_down : List A → ℕ → ℕ → Run (List A)
  unfolding cell_at sift_down
  percolate_down cells size hole =
      cell_at cells hole >>= λ tmp. sift_down (suc size) cells size hole tmp

  -- `heap[i] = heap[size_--]; percolate_down(i);`
  unfoldable pub remove_at : ℕ → Heap A → Run (List A)
  unfolding cell_at set_cell percolate_down
  remove_at i h = cell_at h.cells h.size >>= λ x.
      set_cell h.cells i x >>= λ cells. percolate_down cells (h.size - 1) i

  -- `heap[size_ + 1] = T();`
  unfoldable pub clear_last : ℕ → List A → Run (Heap A)
  unfolding set_cell
  clear_last size cells =
      set_cell cells size default >>= λ cells'. done (record { cells = cells'; size = size - 1 })

  -- delete_min(), where `throw` without an exception ends the program
  unfoldable pub delete_min : Heap A → Run (Heap A)
  unfolding remove_at clear_last
  delete_min h = if h.size == 0 then exited 134 else (remove_at 1 h >>= clear_last h.size)

  -- delete_min(reference_type), which leaves the last element where it was
  unfoldable pub take_min : Heap A → Run (A × Heap A)
  unfolding cell_at set_cell remove_at
  take_min h =
      if h.size == 0
      then exited 134
      else (cell_at h.cells 1 >>= λ x. set_cell h.cells 1 default >>= λ cells.
          remove_at 1 (record { cells = cells; size = h.size }) >>= λ cells'.
          done (x, record { cells = cells'; size = h.size - 1 }))

  -- The loop of erase_if from `i` on, with `n` elements left
  unfoldable pub first_that : (A → Bool) → List A → ℕ → ℕ → Run (Option ℕ)
  unfolding cell_at
  first_that f cells zero i = done none
  first_that f cells (suc n) i =
      cell_at cells i >>= λ x. if f x then done (some i) else first_that f cells n (i + 1)

  -- What erase_if does with the place that it found
  unfoldable pub erase_at : Heap A → Option ℕ → Run (Heap A)
  unfolding remove_at clear_last
  erase_at h none = done h
  erase_at h (some i) = remove_at i h >>= clear_last h.size

  -- erase_if
  unfoldable pub erase_if : (A → Bool) → Heap A → Run (Heap A)
  unfolding first_that erase_at
  erase_if f h = if h.size == 0 then done h else (first_that f h.cells h.size 1 >>= erase_at h)

  -- clear
  unfoldable pub clear_heap : Heap A → Heap A
  clear_heap h = record { cells = []; size = 0 }

  -- build from `i` down
  unfoldable pub build_from : ℕ → List A → ℕ → Run (List A)
  unfolding percolate_down
  build_from zero cells size = done cells
  build_from (suc i) cells size =
      percolate_down cells size (suc i) >>= λ cells'. build_from i cells' size

  -- BinaryHeap(const std::vector<T> &)
  unfoldable pub heap_of : List A → Run (Heap A)
  unfolding copies build_from
  heap_of items =
      build_from (length items / 2) (default ∷ (items ++ copies default 9)) (length items)
      >>= λ cells. done (record { cells = cells; size = length items })
