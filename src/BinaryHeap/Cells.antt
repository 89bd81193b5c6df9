-- ===== src/BinaryHeap/Cells.antt =====
-- The vector of a binary heap, read at every place (liby_cpp/BinaryHeap.h).
use old_tools.Common.{
  inl, inr, Bool-cases, ◌==◌, ==→eq, ==_false→ne, ℕ, zero, suc, ◌+◌, ◌≤◌, ◌<◌, ◌≡◌, ◌≢◌, refl, ap,
  sym, ◌∙◌, List, [], ◌∷◌, ◌++◌, length, arith,
}
use old_tools.Common.Run.{done, >>=-done}
use old_tools.BinaryHeap.{copies, cell_at, set_cell}

module _ {A : Type 0} (d : A) where
  -- The element at a place, `d` where there is none
  unfoldable pub at : List A → ℕ → A
  at [] i = d
  at (x ∷ cells) zero = x
  at (x ∷ cells) (suc i) = at cells i

  pub length-copies : (n : ℕ) → length (copies d n) ≡ n
  unfolding copies
  length-copies zero = refl
  length-copies (suc n) = ap suc (length-copies n)

  pub at-append : (xs ys : List A) (i : ℕ) → i < length xs → at (xs ++ ys) i ≡ at xs i
  unfolding at
  at-append [] ys i h = absurd (omega arith)
  at-append (x ∷ xs) ys zero h = refl
  at-append (x ∷ xs) ys (suc i) h = at-append xs ys i (omega arith)

  pub cell_at-at : (cells : List A) (i : ℕ) → i < length cells → cell_at cells i ≡ done (at cells i)
  unfolding cell_at at
  cell_at-at [] i h = absurd (omega arith)
  cell_at-at (x ∷ cells) zero h = refl
  cell_at-at (x ∷ cells) (suc i) h = cell_at-at cells i (omega arith)

  -- What a store leaves
  pub record Stored (cells : List A) (i : ℕ) (x : A) : Type 0 where
    pub stored : List A
    pub run : set_cell cells i x ≡ done stored
    pub as_long : length stored ≡ length cells
    pub here : at stored i ≡ x
    pub elsewhere : (j : ℕ) → i ≢ j → at stored j ≡ at cells j

  apart : (y : A) (cells : List A) (x : A) (j : ℕ) → 0 ≢ j → at (x ∷ cells) j ≡ at (y ∷ cells) j
  unfolding at
  apart y cells x zero ne = absurd (ne refl)
  apart y cells x (suc j) ne = refl

  behind :
      (y : A) (cells cells' : List A) (i j : ℕ)
      → suc i ≢ j
      → ((k : ℕ) → i ≢ k → at cells k ≡ at cells' k)
      → at (y ∷ cells) j ≡ at (y ∷ cells') j
  unfolding at
  behind y cells cells' i zero ne h = refl
  behind y cells cells' i (suc j) ne h = h j (λ e. ne (ap suc e))

  pub set_cell-Stored : (cells : List A) (i : ℕ) (x : A) → i < length cells → Stored cells i x
  unfolding set_cell at
  set_cell-Stored [] i x h = absurd (omega arith)
  set_cell-Stored (y ∷ cells) zero x h = record {
    stored = x ∷ cells;
    run = refl;
    as_long = refl;
    here = refl;
    elsewhere = λ j ne. apart y cells x j ne;
  }
  set_cell-Stored (y ∷ cells) (suc i) x h =
      let rest = set_cell-Stored cells i x (omega arith) in
      record {
        stored = y ∷ rest.stored;
        run = >>=-done (set_cell cells i x) (λ r. done (y ∷ r)) rest.run refl;
        as_long = ap suc rest.as_long;
        here = rest.here;
        elsewhere = λ j ne. behind y rest.stored cells i j ne rest.elsewhere;
      }

  -- The sum of a measure over the elements at the places 1 to `n`: two heaps of `n` elements hold
  -- the same ones, in any order, if they agree on every measure.
  unfoldable pub total : (A → ℕ) → List A → ℕ → ℕ
  unfolding at
  total f cells zero = 0
  total f cells (suc n) = total f cells n + f (at cells (suc n))

  pub total-agree :
      (f : A → ℕ) (cells cells' : List A) (n : ℕ)
      → ((j : ℕ) → 0 < j → j ≤ n → at cells j ≡ at cells' j)
      → total f cells n ≡ total f cells' n
  unfolding total
  total-agree f cells cells' zero h = refl
  total-agree f cells cells' (suc n) h = omega (
    arith,
    total-agree f cells cells' n (λ j p le. h j p (omega arith)),
    ap f (h (suc n) (omega arith) (omega arith)),
  )

  -- A store takes one element out and puts one in.
  pub total-Stored :
      (f : A → ℕ) (cells : List A) (i : ℕ) (x : A) (n : ℕ) (s : Stored cells i x)
      → 0 < i
      → i ≤ n
      → total f s.stored n + f (at cells i) ≡ total f cells n + f x
  unfolding total
  total-Stored f cells i x zero s p le = absurd (omega arith)
  total-Stored f cells i x (suc n) s p le = elim (Bool-cases (i == suc n)) [
    | inl e ↦
        let last = ==→eq i (suc n) e in
        let below =
          total-agree f s.stored cells n (λ j q le'. s.elsewhere j (λ same. (omega arith))) in
        let now = ap f (ap (at s.stored) (sym last) ∙ s.here) in
        let before = ap (λ k. f (at cells k)) last in omega arith
    | inr e ↦
        let ne = ==_false→ne i (suc n) e in
        omega (arith, total-Stored f cells i x n s p (omega arith), ap f (s.elsewhere (suc n) ne))
  ]

  -- One element is gone.
  pub whole_total :
      (f : A → ℕ) (cells stored result final : List A) (n size : ℕ)
      → size ≡ suc n
      → total f final n ≡ total f result n
      → (1 ≤ n → total f result n + f (at stored 1) ≡ total f stored n + f (at stored 1))
      → (1 ≤ n → total f stored n + f (at cells 1) ≡ total f cells n + f (at cells size))
      → total f final n + f (at cells 1) ≡ total f cells size
  unfolding total
  whole_total f cells stored result final zero size e same down store =
      omega (arith, same, ap (total f cells) e, ap (λ k. f (at cells k)) e)
  whole_total f cells stored result final (suc n) size e same down store = omega (
    arith,
    same,
    down (omega arith),
    store (omega arith),
    ap (total f cells) e,
    ap (λ k. f (at cells k)) e,
  )

  -- The keys after a store
  module _ (key : A → ℕ) (cells : List A) (hole : ℕ) (x : A) (s : Stored cells hole x) where
    pub key_here : (i : ℕ) → i ≡ hole → key (at s.stored i) ≡ key x
    key_here i e = ap (λ k. key (at s.stored k)) e ∙ ap key s.here

    pub key_there : (i : ℕ) → i ≢ hole → key (at s.stored i) ≡ key (at cells i)
    key_there i ne = ap key (s.elsewhere i (λ e. ne (sym e)))
