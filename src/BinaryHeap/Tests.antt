-- ===== src/BinaryHeap/Tests.antt =====
-- Runs of the binary heap at fixed inputs.
use old_tools.Common.{ℕ, zero, suc, ◌+◌, ◌/◌, ◌≡◌, ◌≤◌, ◌<◌, ◌==◌, refl, ltb, [], ◌∷◌, arith}
use old_tools.Common.Run.{done, ◌>>=◌}
use old_tools.BinaryHeap.{Heap, heap_of, find_min, insert_element, delete_min, erase_if}
use old_tools.BinaryHeap.Cells.{at, total}
use old_tools.BinaryHeap.Order.{IsHeap}
use old_tools.BinaryHeap.Up.{insert_element-IsHeap}
use old_tools.BinaryHeap.Down.{delete_min-IsHeap}

abbrev self : ℕ → ℕ
self n = n

abbrev sample : Heap ℕ
sample = record { cells = 0 ∷ 3 ∷ 5 ∷ 4 ∷ []; size = 3 }

sample-IsHeap : IsHeap self 0 sample
unfolding at
sample-IsHeap = record { ordered = ordered; room = omega arith }
  where
    ordered :
        (i : ℕ) → 2 ≤ i → i ≤ 3 → self (at 0 sample.cells (i / 2)) ≤ self (at 0 sample.cells i)
    ordered zero two le = absurd (omega arith)
    ordered (suc zero) two le = absurd (omega arith)
    ordered (suc (suc zero)) two le = omega arith
    ordered (suc (suc (suc zero))) two le = omega arith
    ordered (suc (suc (suc (suc i)))) two le = absurd (omega arith)

insert_element-IsHeap_example :
    (h' : Heap ℕ) × (insert_element ltb 0 1 sample ≡ done h')
    × IsHeap self 0 h'
    × (h'.size ≡ 3 + 1)
    × ((f : ℕ → ℕ) → total 0 f h'.cells h'.size ≡ total 0 f sample.cells 3 + f 1)
insert_element-IsHeap_example =
    insert_element-IsHeap ltb self (λ a b. refl) 0 1 sample sample-IsHeap

delete_min-IsHeap_example :
    (least : ℕ) × (h' : Heap ℕ) × (find_min ltb 0 sample ≡ done least)
    × (delete_min ltb 0 sample ≡ done h')
    × IsHeap self 0 h'
    × (h'.size + 1 ≡ 3)
    × ((i : ℕ) → 0 < i → i ≤ 3 → self least ≤ self (at 0 sample.cells i))
    × ((f : ℕ → ℕ) → total 0 f h'.cells h'.size + f least ≡ total 0 f sample.cells 3)
delete_min-IsHeap_example =
    delete_min-IsHeap ltb self (λ a b. refl) 0 sample sample-IsHeap (omega arith)

-- The last element takes the place of the erased one, below a greater one.
erase_breaks_order :
    (heap_of ltb 0 (1 ∷ 10 ∷ 2 ∷ 11 ∷ 12 ∷ 3 ∷ 4 ∷ []) >>= erase_if ltb 0 (λ n. n == 11))
    ≡ done (record {
      cells = 0 ∷ 1 ∷ 10 ∷ 2 ∷ 4 ∷ 12 ∷ 3 ∷ 0 ∷ 0 ∷ 0 ∷ 0 ∷ 0 ∷ 0 ∷ 0 ∷ 0 ∷ 0 ∷ 0 ∷ [];
      size = 6;
    })
unfolding heap_of erase_if
erase_breaks_order = refl
