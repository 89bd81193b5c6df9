-- ===== src/BinaryHeap/Order.antt =====
-- The order of a binary heap, and a hole in it that goes up (liby_cpp/BinaryHeap.h).
use old_tools.Common.{
  ℕ, ◌/◌, ◌≤◌, ◌<◌, ◌≡◌, ◌≢◌, inl, inr, ap, List, ◌==◌, ==→eq, ==_false→ne, length, Bool-cases,
  arith,
}
use old_tools.BinaryHeap.{Heap}
use old_tools.BinaryHeap.Cells.{at, Stored, key_here, key_there}

module _ {A : Type 0} (key : A → ℕ) (d : A) where
  -- No element is less than the one above it.
  abbrev pub Ordered : List A → ℕ → Type 0
  Ordered cells n = (i : ℕ) → 2 ≤ i → i ≤ n → key (at d cells (i / 2)) ≤ key (at d cells i)

  -- The heap is ordered, and its vector has a place for every element.
  pub record IsHeap (h : Heap A) : Type 0 where
    pub ordered : Ordered h.cells h.size
    pub room : h.size < length h.cells

  -- So it is around a hole, for an element that may still have to go up
  pub record UpTo (cells : List A) (n hole : ℕ) (x : A) : Type 0 where
    pub apart :
        (i : ℕ)
        → 2 ≤ i
        → i ≤ n
        → i ≢ hole
        → i / 2 ≢ hole
        → key (at d cells (i / 2)) ≤ key (at d cells i)
    pub below : (i : ℕ) → 2 ≤ i → i ≤ n → i / 2 ≡ hole → key x ≤ key (at d cells i)
    pub past :
        (i : ℕ)
        → 2 ≤ i
        → i ≤ n
        → i / 2 ≡ hole
        → 2 ≤ hole
        → key (at d cells (hole / 2)) ≤ key (at d cells i)

  -- The element stays at the hole.
  pub stays :
      (cells : List A) (n hole : ℕ) (x : A) (s : Stored d cells hole x)
      → UpTo cells n hole x
      → ((2 ≤ hole) → key (at d cells (hole / 2)) ≤ key x)
      → Ordered s.stored n
  stays cells n hole x s u above i two le = elim (Bool-cases (i == hole)) [
    | inl e ↦
        let here = ==→eq i hole e in
        let there = key_there d key cells hole x s (i / 2) (omega arith) in
        let parent = ap (λ k. key (at d cells (k / 2))) here in
        omega (arith, key_here d key cells hole x s i here, there, parent, above (omega arith))
    | inr e ↦
        let ne = ==_false→ne i hole e in
        elim (Bool-cases (i / 2 == hole)) [
          | inl f ↦
              let child = ==→eq (i / 2) hole f in
              omega (
                arith,
                key_here d key cells hole x s (i / 2) child,
                key_there d key cells hole x s i ne,
                u.below i two le child,
              )
          | inr f ↦
              let ne' = ==_false→ne (i / 2) hole f in
              omega (
                arith,
                key_there d key cells hole x s (i / 2) ne',
                key_there d key cells hole x s i ne,
                u.apart i two le ne ne',
              )
        ]
  ]

  -- The hole goes up, and the element above it comes down.
  pub goes_up :
      (cells : List A) (n hole : ℕ) (x : A) (s : Stored d cells hole (at d cells (hole / 2)))
      → 2 ≤ hole
      → hole ≤ n
      → UpTo cells n hole x
      → key x < key (at d cells (hole / 2))
      → UpTo s.stored n (hole / 2) x
  goes_up cells n hole x s two le u less =
      let y = at d cells (hole / 2) in
      let here = key_here d key cells hole y s in
      let there = key_there d key cells hole y s in
      record {
        apart = λ i q r ne ne'.
            let there_i = there i (λ e. (omega arith)) in
            elim (Bool-cases (i / 2 == hole)) [
              | inl f ↦
                  let e = ==→eq (i / 2) hole f in
                  omega (arith, here (i / 2) e, there_i, u.past i q r e two)
              | inr f ↦
                  let e = ==_false→ne (i / 2) hole f in
                  omega (arith, there (i / 2) e, there_i, u.apart i q r (λ e. (omega arith)) e)
            ];
        below = λ i q r e. elim (Bool-cases (i == hole)) [
          | inl f ↦ omega (arith, here i (==→eq i hole f), less)
          | inr f ↦
              let ne = ==_false→ne i hole f in
              omega (
                arith,
                there i ne,
                less,
                u.apart i q r ne (λ e'. (omega arith)),
                ap (λ k. key (at d cells k)) e,
              )
        ];
        past = λ i q r e two'.
            let top = there (hole / 2 / 2) (λ e'. (omega arith)) in
            let up =
              u.apart (hole / 2) two' (omega arith) (λ e'. (omega arith)) (λ e'. (omega arith)) in
            elim (Bool-cases (i == hole)) [
              | inl f ↦ omega (arith, here i (==→eq i hole f), top, up)
              | inr f ↦
                  let ne = ==_false→ne i hole f in
                  omega (
                    arith,
                    there i ne,
                    top,
                    up,
                    u.apart i q r ne (λ e'. (omega arith)),
                    ap (λ k. key (at d cells k)) e,
                  )
            ];
      }
