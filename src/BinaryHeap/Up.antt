-- ===== src/BinaryHeap/Up.antt =====
-- insert keeps the order of the heap, and puts in one element (liby_cpp/BinaryHeap.h).
use old_tools.Common.{
  ℕ, zero, suc, ◌+◌, ◌/◌, ◌≤◌, ◌<◌, ◌≡◌, inl, inr, refl, ap, ◌∙◌, Bool, true, false, List, ◌++◌,
  ◌==◌, ==→eq, ==_false→ne, ltb, leb, leb→le, leb→lt, ltb→lt, ltb_false→le, if◌then◌else◌, length,
  length-append, Bool-cases, arith,
}
use old_tools.Common.Run.{Run, done, ◌>>=◌, >>=-done}
use old_tools.BinaryHeap.{Heap, cell_at, set_cell, copies, sift_up, grown, insert_element}
use old_tools.BinaryHeap.Order.{Ordered, IsHeap, UpTo, stays, goes_up}
use old_tools.BinaryHeap.Cells.{
  at, at-append, length-copies, cell_at-at, set_cell-Stored, total, total-agree, total-Stored,
}

module _ {A : Type 0} (lt : A → A → Bool) (key : A → ℕ)
    (by_key : (a b : A) → lt a b ≡ ltb (key a) (key b)) (d : A) where
  -- What sift_up leaves
  record AfterUp (cells : List A) (n hole : ℕ) (x : A) (fuel : ℕ) : Type 0 where
    result : List A
    run : sift_up lt d fuel cells hole x ≡ done result
    as_long : length result ≡ length cells
    ordered : Ordered key d result n
    same : (f : A → ℕ) → total d f result n + f (at d cells hole) ≡ total d f cells n + f x

  sift_up-AfterUp :
      (fuel : ℕ) (cells : List A) (n hole : ℕ) (x : A)
      → hole < fuel
      → 0 < hole
      → hole ≤ n
      → n < length cells
      → UpTo key d cells n hole x
      → AfterUp cells n hole x fuel
  unfolding sift_up
  sift_up-AfterUp zero cells n hole x enough p le long u = absurd (omega arith)
  sift_up-AfterUp (suc fuel) cells n hole x enough p le long u =
      let s = set_cell-Stored d cells hole x (omega arith) in
      elim (Bool-cases (leb hole 1)) [
        | inl e ↦
            let first = leb→le hole 1 e in
            record {
              result = s.stored;
              run = rw (e) s.run;
              as_long = s.as_long;
              ordered = stays key d cells n hole x s u (λ two. absurd (omega arith));
              same = λ f. total-Stored d f cells hole x n s p le;
            }
        | inr e ↦
            let two = leb→lt hole 1 e in
            let parent = at d cells (hole / 2) in
            let next : List A → Run (List A) = λ c. sift_up lt d fuel c (hole / 2) x in
            let read = cell_at-at d cells (hole / 2) (omega arith) in
            elim (Bool-cases (ltb (key x) (key parent))) [
              | inl f ↦
                  let less = ltb→lt (key x) (key parent) f in
                  let t = set_cell-Stored d cells hole parent (omega arith) in
                  let up =
                    sift_up-AfterUp fuel t.stored n (hole / 2) x (omega arith) (omega arith)
                      (omega arith) (omega (arith, t.as_long))
                      (goes_up key d cells n hole x t two le u less) in
                  record {
                    result = up.result;
                    run = rw (e) (
                        >>=-done (cell_at cells (hole / 2))
                          (λ y.
                            if lt x y
                            then (set_cell cells hole y >>= next)
                            else set_cell cells hole x)
                          read
                          (rw (by_key x parent, f)
                            (>>=-done (set_cell cells hole parent) next t.run up.run)));
                    as_long = up.as_long ∙ t.as_long;
                    ordered = up.ordered;
                    same = λ g. omega (
                      arith,
                      up.same g,
                      total-Stored d g cells hole parent n t p le,
                      ap g (t.elsewhere (hole / 2) (λ e'. (omega arith))),
                    );
                  }
              | inr f ↦
                  let above = ltb_false→le (key x) (key parent) f in
                  record {
                    result = s.stored;
                    run = rw (e) (
                        >>=-done (cell_at cells (hole / 2))
                          (λ y.
                            if lt x y
                            then (set_cell cells hole y >>= next)
                            else set_cell cells hole x)
                          read (rw (by_key x parent, f) s.run));
                    as_long = s.as_long;
                    ordered = stays key d cells n hole x s u (λ q. above);
                    same = λ g. total-Stored d g cells hole x n s p le;
                  }
            ]
      ]

  record MoreRoom (h : Heap A) : Type 0 where
    room : h.size + 1 < length (grown lt d h)
    kept : (i : ℕ) → i ≤ h.size → at d (grown lt d h) i ≡ at d h.cells i

  grown-MoreRoom : (h : Heap A) → h.size < length h.cells → MoreRoom h
  unfolding grown
  grown-MoreRoom h long =
      let more = h.cells ++ copies d (length h.cells) in
      let either : (b : Bool)
          → ((h.size + 1) == length h.cells) ≡ b
          → grown lt d h ≡ (if b then more else h.cells) =
        λ b e. ap (λ b'. if b' then more else h.cells) e in
      elim (Bool-cases ((h.size + 1) == length h.cells)) [
        | inl e ↦
            let same = either true e in
            record {
              room = omega (
                arith,
                ap length same,
                length-append h.cells (copies d (length h.cells)),
                length-copies d (length h.cells),
                ==→eq (h.size + 1) (length h.cells) e,
              );
              kept = λ i le.
                  ap (λ c. at d c i) same
                  ∙ at-append d h.cells (copies d (length h.cells)) i (omega arith);
            }
        | inr e ↦
            let same = either false e in
            record {
              room = omega (arith, ap length same, ==_false→ne (h.size + 1) (length h.cells) e);
              kept = λ i le. ap (λ c. at d c i) same;
            }
      ]

  -- If `operator<` compares a number of each element, and in the vector of a heap no element
  -- stands before its parent in this order, and there is room for place 0 and the elements,
  -- insert ends without a fault, keeps all this, counts one element more, and adds just the
  -- new element to the contents: every measure of elements sums up to what it did and the
  -- measure of the new one.
  pub insert_element-IsHeap :
      (x : A) (h : Heap A)
      → IsHeap key d h
      → (h' : Heap A) × (insert_element lt d x h ≡ done h')
        × IsHeap key d h'
        × (h'.size ≡ h.size + 1)
        × ((f : A → ℕ) → total d f h'.cells h'.size ≡ total d f h.cells h.size + f x)
  unfolding insert_element total
  insert_element-IsHeap x h heap =
      let g = grown-MoreRoom h heap.room in
      let cells = grown lt d h in
      let hole = h.size + 1 in
      let old : (i : ℕ) → i ≤ h.size → key (at d cells i) ≡ key (at d h.cells i) =
        λ i le. ap key (g.kept i le) in
      let u : UpTo key d cells hole hole x = record {
        apart = λ i two le ne ne'. omega (
          arith,
          old i (omega arith),
          old (i / 2) (omega arith),
          heap.ordered i two (omega arith),
        );
        below = λ i two le e. absurd (omega arith);
        past = λ i two le e two'. absurd (omega arith);
      } in
      let up =
        sift_up-AfterUp (suc hole) cells hole hole x (omega arith) (omega arith) (omega arith)
          g.room u in
      (
        record { cells = up.result; size = hole },
        >>=-done (sift_up lt d (suc hole) cells hole x)
            (λ c. done (record { cells = c; size = hole })) up.run refl,
        record { ordered = up.ordered; room = omega (arith, up.as_long, g.room) },
        refl,
        λ f. omega (
          arith,
          up.same f,
          ap (λ k. total d f cells k) {x = hole} {y = suc h.size} (omega arith),
          ap (λ k. f (at d cells k)) {x = hole} {y = suc h.size} (omega arith),
          total-agree d f cells h.cells h.size (λ j p le. g.kept j le),
        ),
      )
