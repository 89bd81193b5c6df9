-- ===== src/BinaryHeap/Fall.antt =====
-- A hole in the order of a binary heap that goes down (liby_cpp/BinaryHeap.h).
use old_tools.Common.{
  ℕ, zero, suc, ◌/◌, ◌≤◌, ◌<◌, ◌≡◌, ◌≢◌, inl, inr, ap, Bool, List, ◌==◌, ==→eq, ==_false→ne, ltb,
  Bool-cases, arith,
}
use old_tools.BinaryHeap.Order.{Ordered}
use old_tools.BinaryHeap.Child.{LeastOfTwo}
use old_tools.BinaryHeap.Cells.{at, Stored, key_here, key_there}

module _ {A : Type 0} (key : A → ℕ) (d : A) where
  -- The order around a hole, for an element that may still have to go down
  pub record DownTo (cells : List A) (n hole : ℕ) (tmp : A) : Type 0 where
    pub apart :
        (i : ℕ)
        → 2 ≤ i
        → i ≤ n
        → i ≢ hole
        → i / 2 ≢ hole
        → key (at d cells (i / 2)) ≤ key (at d cells i)
    pub above : 2 ≤ hole → key (at d cells (hole / 2)) ≤ key tmp
    pub past :
        (i : ℕ)
        → 2 ≤ i
        → i ≤ n
        → i / 2 ≡ hole
        → 2 ≤ hole
        → key (at d cells (hole / 2)) ≤ key (at d cells i)

  -- The element stays at the hole.
  pub rests :
      (cells : List A) (n hole : ℕ) (tmp : A) (s : Stored d cells hole tmp)
      → DownTo cells n hole tmp
      → ((i : ℕ) → i ≤ n → i / 2 ≡ hole → key tmp ≤ key (at d cells i))
      → Ordered key d s.stored n
  rests cells n hole tmp s u below i two le =
      let here = key_here d key cells hole tmp s in
      let there = key_there d key cells hole tmp s in
      elim (Bool-cases (i == hole)) [
        | inl e ↦
            let same = ==→eq i hole e in
            omega (
              arith,
              here i same,
              there (i / 2) (λ e'. (omega arith)),
              ap (λ k. key (at d cells (k / 2))) same,
              u.above (omega arith),
            )
        | inr e ↦
            let ne = ==_false→ne i hole e in
            elim (Bool-cases (i / 2 == hole)) [
              | inl f ↦
                  let child = ==→eq (i / 2) hole f in
                  omega (arith, here (i / 2) child, there i ne, below i le child)
              | inr f ↦
                  let ne' = ==_false→ne (i / 2) hole f in
                  omega (arith, there (i / 2) ne', there i ne, u.apart i two le ne ne')
            ]
      ]

  -- The first element is a least one.
  pub first_least :
      (cells : List A) (n : ℕ)
      → Ordered key d cells n
      → (fuel i : ℕ) → i ≤ fuel
      → 0 < i
      → i ≤ n
      → key (at d cells 1) ≤ key (at d cells i)
  first_least cells n o zero i le p q = absurd (omega arith)
  first_least cells n o (suc fuel) i le p q = elim (Bool-cases (i == 1)) [
    | inl e ↦ omega (arith, ap (λ k. key (at d cells k)) (==→eq i 1 e))
    | inr e ↦
        let ne = ==_false→ne i 1 e in
        omega (
          arith,
          o i (omega arith) q,
          first_least cells n o fuel (i / 2) (omega arith) (omega arith) (omega arith),
        )
  ]

module _ {A : Type 0} (lt : A → A → Bool) (key : A → ℕ)
    (by_key : (a b : A) → lt a b ≡ ltb (key a) (key b)) (d : A) where
  -- The hole goes down, and the least child comes up.
  pub goes_down :
      (cells : List A) (n hole : ℕ) (tmp : A) (c : LeastOfTwo lt key by_key d cells n hole)
      (s : Stored d cells hole (at d cells c.child))
      → 0 < hole
      → DownTo key d cells n hole tmp
      → key (at d cells c.child) < key tmp
      → DownTo key d s.stored n c.child tmp
  goes_down cells n hole tmp c s p u less =
      let y = at d cells c.child in
      let here = key_here d key cells hole y s in
      let there = key_there d key cells hole y s in
      record {
        apart = λ i q r ne ne'. elim (Bool-cases (i == hole)) [
          | inl e ↦
              let same = ==→eq i hole e in
              omega (
                arith,
                here i same,
                there (i / 2) (λ e'. (omega arith)),
                ap (λ k. key (at d cells (k / 2))) same,
                u.past c.child (omega (arith, c.is_child)) c.bounded c.is_child (omega arith),
              )
          | inr e ↦
              let apart_i = ==_false→ne i hole e in
              elim (Bool-cases (i / 2 == hole)) [
                | inl f ↦
                    let child = ==→eq (i / 2) hole f in
                    omega (arith, here (i / 2) child, there i apart_i, c.least i r child)
                | inr f ↦
                    let apart_p = ==_false→ne (i / 2) hole f in
                    omega
                      (arith, there (i / 2) apart_p, there i apart_i, u.apart i q r apart_i apart_p)
              ]
        ];
        above = λ q. omega (arith, here (c.child / 2) c.is_child, less);
        past = λ i q r e q'. omega (
          arith,
          here (c.child / 2) c.is_child,
          there i (λ e'. (omega (arith, c.is_child))),
          ap (λ k. key (at d cells k)) e,
          u.apart i q r (λ e'. (omega (arith, c.is_child))) (λ e'. (omega (arith, c.is_child))),
        );
      }
