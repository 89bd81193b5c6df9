-- ===== src/BinaryHeap/Runs.antt =====
-- delete_min of a binary heap with any `operator<` (liby_cpp/BinaryHeap.h): it need not be an order.
use old_tools.Common.{
  ℕ, zero, suc, ◌+◌, ◌-◌, ◌*◌, ◌≤◌, ◌<◌, ◌≡◌, inl, inr, refl, ap, ◌∙◌, Bool, true, false, List,
  ◌==◌, ne→==_false, leb, leb→le, if◌then◌else◌, ==_false→ne, length, Bool-cases, arith,
}
use old_tools.Common.Run.{Run, done, ◌>>=◌, >>=-done}
use old_tools.BinaryHeap.{
  Heap, cell_at, set_cell, least_child, sift_down, percolate_down, remove_at, clear_last,
  delete_min,
}
use old_tools.BinaryHeap.Cells.{
  at, cell_at-at, set_cell-Stored, total, total-agree, total-Stored, whole_total,
}

module _ {A : Type 0} (lt : A → A → Bool) (d : A) where
  -- Which of two children least_child takes
  pub picks :
      (cells : List A) (hole : ℕ) (b : Bool)
      → hole * 2 + 1 < length cells
      → lt (at d cells (hole * 2 + 1)) (at d cells (hole * 2)) ≡ b
      → (cell_at cells (hole * 2 + 1) >>= λ r.
          cell_at cells (hole * 2) >>= λ l. done (if lt r l then hole * 2 + 1 else hole * 2))
        ≡ done (if b then hole * 2 + 1 else hole * 2)
  picks cells hole b long e =
      let l = at d cells (hole * 2) in
      let r = at d cells (hole * 2 + 1) in
      >>=-done (cell_at cells (hole * 2 + 1))
        (λ r. cell_at cells (hole * 2) >>= λ l. done (if lt r l then hole * 2 + 1 else hole * 2))
        (cell_at-at d cells (hole * 2 + 1) long)
        (>>=-done (cell_at cells (hole * 2)) (λ l. done (if lt r l then hole * 2 + 1 else hole * 2))
          (cell_at-at d cells (hole * 2) (omega arith)) (rw (e) refl))

  least_child_runs :
      (cells : List A) (n hole : ℕ)
      → n < length cells
      → hole * 2 ≤ n
      → (c : ℕ) × (least_child lt d cells n hole ≡ done c) × (hole * 2 ≤ c) × (c ≤ n)
  unfolding least_child
  least_child_runs cells n hole long le = elim (Bool-cases (hole * 2 == n)) [
    | inl e ↦ (hole * 2, rw (e) refl, omega arith, le)
    | inr e ↦
        let ne = ==_false→ne (hole * 2) n e in
        elim (Bool-cases (lt (at d cells (hole * 2 + 1)) (at d cells (hole * 2)))) [
          | inl f ↦ (
            hole * 2 + 1,
            rw (e) (picks cells hole true (omega arith) f),
            omega arith,
            omega arith,
          )
          | inr f ↦ (hole * 2, rw (e) (picks cells hole false (omega arith) f), omega arith, le)
        ]
  ]

  sift_down_runs :
      (fuel : ℕ) (cells : List A) (n hole : ℕ) (tmp : A)
      → 0 < fuel
      → n < hole + fuel
      → 0 < hole
      → n < length cells
      → hole < length cells
      → (r : List A) × (sift_down lt d fuel cells n hole tmp ≡ done r)
        × (length r ≡ length cells)
        × ((f : A → ℕ) → hole ≤ n → total d f r n + f (at d cells hole) ≡ total d f cells n + f tmp)
  unfolding sift_down
  sift_down_runs zero cells n hole tmp some_left enough p long there = absurd (omega arith)
  sift_down_runs (suc fuel) cells n hole tmp some_left enough p long there =
      let s = set_cell-Stored d cells hole tmp there in
      elim (Bool-cases (leb (hole * 2) n)) [
        | inl e ↦
            let least = least_child_runs cells n hole long (leb→le (hole * 2) n e) in
            let child = least.0 in
            let x = at d cells child in
            let choose : ℕ → A → Run (List A) = λ k y.
              if lt y tmp
              then (set_cell cells hole y >>= λ r. sift_down lt d fuel r n k tmp)
              else set_cell cells hole tmp in
            let read = cell_at-at d cells child (omega (arith, least.3)) in
            let down : (r : List A)
                → choose child x ≡ done r
                → sift_down lt d (suc fuel) cells n hole tmp ≡ done r =
              λ r run. rw (e) (
                >>=-done (least_child lt d cells n hole) (λ k. cell_at cells k >>= choose k) least.1
                  (>>=-done (cell_at cells child) (choose child) read run)) in
            elim (Bool-cases (lt x tmp)) [
              | inl f ↦
                  let t = set_cell-Stored d cells hole x there in
                  let rest =
                    sift_down_runs fuel t.stored n child tmp (omega (arith, least.2, least.3))
                      (omega (arith, least.2)) (omega (arith, least.2)) (omega (arith, t.as_long))
                      (omega (arith, t.as_long, least.3)) in
                  (
                    rest.0,
                    down rest.0 (
                        rw (f) (
                          >>=-done (set_cell cells hole x) (λ r. sift_down lt d fuel r n child tmp)
                            t.run rest.1)),
                    rest.2 ∙ t.as_long,
                    λ g le. omega (
                      arith,
                      rest.3 g least.3,
                      total-Stored d g cells hole x n t p (omega (arith, least.2, least.3)),
                      ap g (t.elsewhere child (λ e'. (omega (arith, least.2)))),
                    ),
                  )
              | inr f ↦ (
                s.stored,
                down s.stored (rw (f) s.run),
                s.as_long,
                λ g le. total-Stored d g cells hole tmp n s p le,
              )
            ]
        | inr e ↦
            (s.stored, rw (e) s.run, s.as_long, λ g le. total-Stored d g cells hole tmp n s p le)
      ]

  pub delete_min_runs :
      (h : Heap A)
      → h.size < length h.cells
      → 0 < h.size
      → (h' : Heap A) × (delete_min lt d h ≡ done h')
        × (length h'.cells ≡ length h.cells)
        × (h'.size + 1 ≡ h.size)
        × ((f : A → ℕ) → total d f h'.cells h'.size + f (at d h.cells 1) ≡ total d f h.cells h.size)
  unfolding delete_min remove_at percolate_down clear_last
  delete_min_runs h room p =
      let n = h.size - 1 in
      let last = at d h.cells h.size in
      let s = set_cell-Stored d h.cells 1 last (omega arith) in
      let tmp = at d s.stored 1 in
      let down =
        sift_down_runs (suc n) s.stored n 1 tmp (omega arith) (omega arith) (omega arith)
          (omega (arith, s.as_long)) (omega (arith, s.as_long)) in
      let c = set_cell-Stored d down.0 h.size d (omega (arith, down.2, s.as_long)) in
      let removed : remove_at lt d 1 h ≡ done down.0 =
        >>=-done (cell_at h.cells h.size)
          (λ x. set_cell h.cells 1 x >>= λ r. percolate_down lt d r n 1)
          (cell_at-at d h.cells h.size room)
          (>>=-done (set_cell h.cells 1 last) (λ r. percolate_down lt d r n 1) s.run
            (>>=-done (cell_at s.stored 1) (λ t. sift_down lt d (suc n) s.stored n 1 t)
              (cell_at-at d s.stored 1 (omega (arith, s.as_long))) down.1)) in
      (
        record { cells = c.stored; size = n },
        rw (ne→==_false h.size 0 (λ e. (omega arith))) (
            >>=-done (remove_at lt d 1 h) (clear_last lt d h.size) removed (
              >>=-done (set_cell down.0 h.size d) (λ r. done (record { cells = r; size = n })) c.run
                refl)),
        c.as_long ∙ down.2 ∙ s.as_long,
        omega arith,
        λ f.
            whole_total d f h.cells s.stored down.0 c.stored n h.size (omega arith)
              (total-agree d f c.stored down.0 n (λ j q le. c.elsewhere j (λ e. (omega arith))))
              (λ q. down.3 f q) (λ q. total-Stored d f h.cells 1 last n s (omega arith) q),
      )
