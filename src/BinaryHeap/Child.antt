-- ===== src/BinaryHeap/Child.antt =====
-- The least child of a place (liby_cpp/BinaryHeap.h).
use old_tools.Common.{
  ℕ, ◌+◌, ◌*◌, ◌/◌, ◌≤◌, ◌<◌, ◌≡◌, inl, inr, refl, ◌∙◌, ap, Bool, true, false, List, ◌==◌, ==→eq,
  ==_false→ne, ltb, ltb→lt, ltb_false→le, length, Bool-cases, arith,
}
use old_tools.Common.Run.{done}
use old_tools.BinaryHeap.{least_child}
use old_tools.BinaryHeap.Runs.{picks}
use old_tools.BinaryHeap.Cells.{at}

module _ {A : Type 0} (lt : A → A → Bool) (key : A → ℕ)
    (by_key : (a b : A) → lt a b ≡ ltb (key a) (key b)) (d : A) where
  pub record LeastOfTwo (cells : List A) (n hole : ℕ) : Type 0 where
    pub child : ℕ
    pub run : least_child lt d cells n hole ≡ done child
    pub is_child : child / 2 ≡ hole
    pub bounded : child ≤ n
    pub least : (i : ℕ) → i ≤ n → i / 2 ≡ hole → key (at d cells child) ≤ key (at d cells i)

  pub least_child-LeastOfTwo :
      (cells : List A) (n hole : ℕ)
      → n < length cells
      → 0 < hole
      → hole * 2 ≤ n
      → LeastOfTwo cells n hole
  unfolding least_child
  least_child-LeastOfTwo cells n hole long p le =
      let K : ℕ → ℕ = λ i. key (at d cells i) in
      elim (Bool-cases (hole * 2 == n)) [
        | inl e ↦ record {
          child = hole * 2;
          run = rw (e) refl;
          is_child = omega arith;
          bounded = le;
          least = λ i r c.
              omega (arith, ap K {x = i} {y = hole * 2} (omega (arith, ==→eq (hole * 2) n e)));
        }
        | inr e ↦
            let ne = ==_false→ne (hole * 2) n e in
            let l = at d cells (hole * 2) in
            let r = at d cells (hole * 2 + 1) in
            elim (Bool-cases (ltb (key r) (key l))) [
              | inl f ↦ record {
                child = hole * 2 + 1;
                run = rw (e) (picks lt d cells hole true (omega arith) (by_key r l ∙ f));
                is_child = omega arith;
                bounded = omega arith;
                least = λ i q c. elim (Bool-cases (i == hole * 2)) [
                  | inl g ↦ omega (
                    arith,
                    ltb→lt (key r) (key l) f,
                    ap K {x = i} {y = hole * 2} (==→eq i (hole * 2) g),
                  )
                  | inr g ↦ omega (
                    arith,
                    ltb→lt (key r) (key l) f,
                    ap K {x = i} {y = hole * 2 + 1} (omega (arith, ==_false→ne i (hole * 2) g)),
                  )
                ];
              }
              | inr f ↦ record {
                child = hole * 2;
                run = rw (e) (picks lt d cells hole false (omega arith) (by_key r l ∙ f));
                is_child = omega arith;
                bounded = le;
                least = λ i q c. elim (Bool-cases (i == hole * 2)) [
                  | inl g ↦ omega (
                    arith,
                    ltb_false→le (key r) (key l) f,
                    ap K {x = i} {y = hole * 2} (==→eq i (hole * 2) g),
                  )
                  | inr g ↦ omega (
                    arith,
                    ltb_false→le (key r) (key l) f,
                    ap K {x = i} {y = hole * 2 + 1} (omega (arith, ==_false→ne i (hole * 2) g)),
                  )
                ];
              }
            ]
      ]
