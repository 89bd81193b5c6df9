-- ===== src/BinaryHeap/Down.antt =====
-- delete_min keeps the order of the heap, and takes out the least element (liby_cpp/BinaryHeap.h).
use old_tools.Common.{
  ℕ, zero, suc, ◌+◌, ◌-◌, ◌*◌, ◌/◌, ◌≤◌, ◌<◌, ◌≡◌, inl, inr, refl, ap, ◌∙◌, Bool, List, ne→==_false,
  ltb, leb, leb→le, leb→lt, ltb→lt, ltb_false→le, if◌then◌else◌, length, Bool-cases, arith,
}
use old_tools.Common.Run.{Run, done, ◌>>=◌, >>=-done}
use old_tools.BinaryHeap.{
  Heap, cell_at, set_cell, least_child, sift_down, percolate_down, remove_at, clear_last,
  delete_min, find_min,
}
use old_tools.BinaryHeap.Cells.{
  at, cell_at-at, set_cell-Stored, key_there, total, total-agree, total-Stored, whole_total,
}
use old_tools.BinaryHeap.Order.{Ordered, IsHeap}
use old_tools.BinaryHeap.Child.{least_child-LeastOfTwo}
use old_tools.BinaryHeap.Fall.{DownTo, rests, first_least, goes_down}

module _ {A : Type 0} (lt : A → A → Bool) (key : A → ℕ)
    (by_key : (a b : A) → lt a b ≡ ltb (key a) (key b)) (d : A) where
  record AfterDown (cells : List A) (n hole : ℕ) (tmp : A) (fuel : ℕ) : Type 0 where
    result : List A
    run : sift_down lt d fuel cells n hole tmp ≡ done result
    as_long : length result ≡ length cells
    ordered : Ordered key d result n
    same :
        (f : A → ℕ)
        → hole ≤ n
        → total d f result n + f (at d cells hole) ≡ total d f cells n + f tmp

  sift_down-AfterDown :
      (fuel : ℕ) (cells : List A) (n hole : ℕ) (tmp : A)
      → 0 < fuel
      → n < hole + fuel
      → 0 < hole
      → n < length cells
      → hole < length cells
      → DownTo key d cells n hole tmp
      → AfterDown cells n hole tmp fuel
  unfolding sift_down
  sift_down-AfterDown zero cells n hole tmp some_left enough p long there u = absurd (omega arith)
  sift_down-AfterDown (suc fuel) cells n hole tmp some_left enough p long there u =
      let s = set_cell-Stored d cells hole tmp there in
      elim (Bool-cases (leb (hole * 2) n)) [
        | inl e ↦
            let c =
              least_child-LeastOfTwo lt key by_key d cells n hole long p (leb→le (hole * 2) n e) in
            let x = at d cells c.child in
            let next : List A → Run (List A) = λ r. sift_down lt d fuel r n c.child tmp in
            let read = cell_at-at d cells c.child (omega (arith, c.bounded)) in
            elim (Bool-cases (ltb (key x) (key tmp))) [
              | inl f ↦
                  let less = ltb→lt (key x) (key tmp) f in
                  let t = set_cell-Stored d cells hole x there in
                  let down =
                    sift_down-AfterDown fuel t.stored n c.child tmp
                      (omega (arith, c.is_child, c.bounded)) (omega (arith, c.is_child))
                      (omega (arith, c.is_child)) (omega (arith, t.as_long))
                      (omega (arith, t.as_long, c.bounded))
                      (goes_down lt key by_key d cells n hole tmp c t p u less) in
                  record {
                    result = down.result;
                    run = rw (e) (
                        >>=-done (least_child lt d cells n hole)
                          (λ k. cell_at cells k >>= λ y.
                            if lt y tmp
                            then (set_cell cells hole y >>= λ r. sift_down lt d fuel r n k tmp)
                            else set_cell cells hole tmp)
                          c.run
                          (>>=-done (cell_at cells c.child)
                            (λ y.
                              if lt y tmp
                              then (set_cell cells hole y >>= next)
                              else set_cell cells hole tmp)
                            read
                            (rw (by_key x tmp, f)
                              (>>=-done (set_cell cells hole x) next t.run down.run))));
                    as_long = down.as_long ∙ t.as_long;
                    ordered = down.ordered;
                    same = λ g le. omega (
                      arith,
                      down.same g c.bounded,
                      total-Stored d g cells hole x n t p (omega (arith, c.is_child, c.bounded)),
                      ap g (t.elsewhere c.child (λ e'. (omega (arith, c.is_child)))),
                    );
                  }
              | inr f ↦
                  let least = ltb_false→le (key x) (key tmp) f in
                  record {
                    result = s.stored;
                    run = rw (e) (
                        >>=-done (least_child lt d cells n hole)
                          (λ k. cell_at cells k >>= λ y.
                            if lt y tmp
                            then (set_cell cells hole y >>= λ r. sift_down lt d fuel r n k tmp)
                            else set_cell cells hole tmp)
                          c.run
                          (>>=-done (cell_at cells c.child)
                            (λ y.
                              if lt y tmp
                              then (set_cell cells hole y >>= next)
                              else set_cell cells hole tmp)
                            read (rw (by_key x tmp, f) s.run)));
                    as_long = s.as_long;
                    ordered =
                        rests key d cells n hole tmp s u
                          (λ i q child. omega (arith, least, c.least i q child));
                    same = λ g le. total-Stored d g cells hole tmp n s p le;
                  }
            ]
        | inr e ↦
            let none_below = leb→lt (hole * 2) n e in
            record {
              result = s.stored;
              run = rw (e) s.run;
              as_long = s.as_long;
              ordered = rests key d cells n hole tmp s u (λ i q child. absurd (omega arith));
              same = λ g le. total-Stored d g cells hole tmp n s p le;
            }
      ]

  -- What remove_at leaves of a heap when it takes out the first element
  record AfterRemove (h : Heap A) : Type 0 where
    result : List A
    run : remove_at lt d 1 h ≡ done result
    as_long : length result ≡ length h.cells
    ordered : Ordered key d result (h.size - 1)
    same :
        (f : A → ℕ) (final : List A)
        → ((j : ℕ) → 0 < j → j ≤ h.size - 1 → at d final j ≡ at d result j)
        → total d f final (h.size - 1) + f (at d h.cells 1) ≡ total d f h.cells h.size

  remove_at-AfterRemove : (h : Heap A) → IsHeap key d h → 0 < h.size → AfterRemove h
  unfolding remove_at percolate_down
  remove_at-AfterRemove h heap p =
      let n = h.size - 1 in
      let last = at d h.cells h.size in
      let s = set_cell-Stored d h.cells 1 last (omega (arith, heap.room)) in
      let there = key_there d key h.cells 1 last s in
      let tmp = at d s.stored 1 in
      let u : DownTo key d s.stored n 1 tmp = record {
        apart = λ i two le ne ne'.
            omega (arith, there i ne, there (i / 2) ne', heap.ordered i two (omega arith));
        above = λ two. absurd (omega arith);
        past = λ i two le e two'. absurd (omega arith);
      } in
      let down =
        sift_down-AfterDown (suc n) s.stored n 1 tmp (omega arith) (omega arith) (omega arith)
          (omega (arith, s.as_long, heap.room)) (omega (arith, s.as_long, heap.room)) u in
      record {
        result = down.result;
        run =
            >>=-done (cell_at h.cells h.size)
              (λ x. set_cell h.cells 1 x >>= λ r. percolate_down lt d r n 1)
              (cell_at-at d h.cells h.size heap.room)
              (>>=-done (set_cell h.cells 1 last) (λ r. percolate_down lt d r n 1) s.run
                (>>=-done (cell_at s.stored 1) (λ t. sift_down lt d (suc n) s.stored n 1 t)
                  (cell_at-at d s.stored 1 (omega (arith, s.as_long, heap.room))) down.run));
        as_long = down.as_long ∙ s.as_long;
        ordered = down.ordered;
        same = λ f final kept.
            whole_total d f h.cells s.stored down.result final n h.size (omega arith)
              (total-agree d f final down.result n kept) (λ q. down.same f q)
              (λ q. total-Stored d f h.cells 1 last n s (omega arith) q);
      }

  -- On such a heap that is not empty find_min and delete_min end without a fault; what
  -- find_min returns is no greater than any element, and delete_min keeps the order, counts
  -- one element less, and takes just this element from the contents: every measure of elements
  -- sums up to what it did without the measure of it.
  pub delete_min-IsHeap :
      (h : Heap A)
      → IsHeap key d h
      → 0 < h.size
      → (least : A) × (h' : Heap A) × (find_min lt d h ≡ done least)
        × (delete_min lt d h ≡ done h')
        × IsHeap key d h'
        × (h'.size + 1 ≡ h.size)
        × ((i : ℕ) → 0 < i → i ≤ h.size → key least ≤ key (at d h.cells i))
        × ((f : A → ℕ) → total d f h'.cells h'.size + f least ≡ total d f h.cells h.size)
  unfolding delete_min find_min clear_last
  delete_min-IsHeap h heap p =
      let n = h.size - 1 in
      let removed = remove_at-AfterRemove h heap p in
      let c =
        set_cell-Stored d removed.result h.size d (omega (arith, removed.as_long, heap.room)) in
      let kept : (j : ℕ) → 0 < j → j ≤ n → at d c.stored j ≡ at d removed.result j =
        λ j q le. c.elsewhere j (λ e. (omega arith)) in
      (
        at d h.cells 1,
        record { cells = c.stored; size = n },
        cell_at-at d h.cells 1 (omega (arith, heap.room)),
        rw (ne→==_false h.size 0 (λ e. (omega arith))) (
            >>=-done (remove_at lt d 1 h) (clear_last lt d h.size) removed.run (
              >>=-done (set_cell removed.result h.size d)
                (λ r. done (record { cells = r; size = n })) c.run refl)),
        record {
          ordered = λ i two le. omega (
            arith,
            ap key (kept i (omega arith) le),
            ap key (kept (i / 2) (omega arith) (omega arith)),
            removed.ordered i two le,
          );
          room = omega (arith, c.as_long, removed.as_long, heap.room);
        },
        omega arith,
        λ i q le. first_least key d h.cells h.size heap.ordered i i (omega arith) q le,
        λ f. removed.same f c.stored kept,
      )
