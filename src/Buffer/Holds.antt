-- ===== src/Buffer/Holds.antt =====
-- The bytes that a Buffer holds, its abstract value, and what memcpy does to them
-- (liby_cpp/Buffer.cpp).
use old_tools.Common.{
  ℕ, zero, suc, ◌+◌, ◌-◌, ◌≤◌, ◌≡◌, refl, ap, ap₂, sym, ◌∙◌, true, some, List, [], ◌∷◌, ◌++◌, leb,
  length, length-append, length-drop, length-take_le, take, drop, drop_all, take-append_left,
  take-append-drop, arith, le→leb,
}
use old_tools.Common.Run.{done, ◌>>=◌, >>=-done}
use old_tools.Buffer.{
  Buffer, read_at, write_at, cells_of, assert, assert_data, size, data_of, move_cells,
}

-- A buffer of the library holds the bytes between its indices.
pub record Holds (b : Buffer) (bytes : List ℕ) : Type 0 where
  pub before : List ℕ
  pub after : List ℕ
  pub memory : b.cells ≡ some (before ++ (bytes ++ after))
  pub before_left : length before ≡ b.left
  pub up_to_right : b.left + length bytes ≡ b.right
  pub up_to_capacity : b.right + length after ≡ b.capacity

drop-append : (xs ys : List ℕ) → drop (length xs) (xs ++ ys) ≡ ys
drop-append [] ys = refl
drop-append (x ∷ xs) ys = drop-append xs ys

drop_add : (m n : ℕ) (xs : List ℕ) → drop (m + n) xs ≡ drop n (drop m xs)
drop_add zero n xs = ap (λ k. drop k xs) {x = 0 + n} {y = n} (omega arith)
drop_add (suc m) n [] =
    ap (λ k. drop k []) {x = suc m + n} {y = suc (m + n)} (omega arith)
    ∙ sym (drop_all n [] (omega arith))
drop_add (suc m) n (x ∷ xs) =
    ap (λ k. drop k (x ∷ xs)) {x = suc m + n} {y = suc (m + n)} (omega arith) ∙ drop_add m n xs

pub length-three :
    (xs ys zs : List ℕ) → length (xs ++ (ys ++ zs)) ≡ length xs + (length ys + length zs)
length-three xs ys zs = length-append xs (ys ++ zs) ∙ ap (λ n. length xs + n) (length-append ys zs)

pub read_at-append :
    (before bytes after : List ℕ)
    → read_at (before ++ (bytes ++ after)) (length before) (length bytes) ≡ done bytes
unfolding read_at
read_at-append before bytes after =
    let long = length-three before bytes after in
    let fits : leb (length before + length bytes) (length (before ++ (bytes ++ after))) ≡ true =
      le→leb (length before + length bytes) (length (before ++ (bytes ++ after))) (omega arith) in
    rw (fits, drop-append before (bytes ++ after), take-append_left bytes after) refl

pub write_at-append :
    (before old after new : List ℕ)
    → length old ≡ length new
    → write_at (before ++ (old ++ after)) (length before) new ≡ done (before ++ (new ++ after))
unfolding write_at
write_at-append before old after new e =
    let long = length-three before old after in
    let fits : leb (length before + length new) (length (before ++ (old ++ after))) ≡ true =
      le→leb (length before + length new) (length (before ++ (old ++ after))) (omega arith) in
    let rest : drop (length before + length new) (before ++ (old ++ after)) ≡ after =
      drop_add (length before) (length new) (before ++ (old ++ after))
      ∙ ap (drop (length new)) (drop-append before (old ++ after))
      ∙ ap (λ k. drop k (old ++ after)) (sym e)
      ∙ drop-append old after in
    rw (fits, rest, take-append_left before (old ++ after)) refl

-- Three parts of a list, of the lengths that the list has room for
pub record Parts (xs : List ℕ) (m n : ℕ) : Type 0 where
  pub first : List ℕ
  pub middle : List ℕ
  pub last : List ℕ
  pub whole : xs ≡ first ++ (middle ++ last)
  pub first_long : length first ≡ m
  pub middle_long : length middle ≡ n
  pub last_long : m + (n + length last) ≡ length xs

pub parts : (xs : List ℕ) (m n : ℕ) → m + n ≤ length xs → Parts xs m n
parts xs m n le =
    let d = length-drop m xs in
    let e = length-drop n (drop m xs) in
    record {
      first = take m xs;
      middle = take n (drop m xs);
      last = drop n (drop m xs);
      whole =
          sym (take-append-drop m xs)
          ∙ ap (λ r. take m xs ++ r) (sym (take-append-drop n (drop m xs)));
      first_long = length-take_le m xs (omega arith);
      middle_long = length-take_le n (drop m xs) (omega arith);
      last_long = omega arith;
    }

-- write_at anywhere that there is room
pub write_at-parts :
    (xs : List ℕ) (i : ℕ) (new : List ℕ)
    → i + length new ≤ length xs
    → (first last : List ℕ) × (write_at xs i new ≡ done (first ++ (new ++ last)))
      × (length first ≡ i)
      × (i + (length new + length last) ≡ length xs)
write_at-parts xs i new le =
    let p = parts xs i (length new) le in
    (
      p.first,
      p.last,
      ap₂ (λ c k. write_at c k new) p.whole (sym p.first_long)
          ∙ write_at-append p.first p.middle p.last new p.middle_long,
      p.first_long,
      p.last_long,
    )

module _ (b : Buffer) (bytes : List ℕ) (h : Holds b bytes) where
  pub Holds-ordered : b.left ≤ b.right
  Holds-ordered = omega (arith, h.up_to_right)

  pub Holds-length : b.right - b.left ≡ length bytes
  Holds-length = omega (arith, h.up_to_right)

  pub size-Holds : size b ≡ done (length bytes)
  unfolding size assert
  size-Holds = rw (le→leb b.left b.right Holds-ordered) (ap done Holds-length)

  pub cells_of-Holds : cells_of b ≡ done (h.before ++ (bytes ++ h.after))
  unfolding cells_of
  cells_of-Holds = rw (h.memory) refl

  pub assert_data-Holds : assert_data b ≡ done (h.before ++ (bytes ++ h.after))
  unfolding assert_data
  assert_data-Holds = rw (h.memory, le→leb b.left b.right Holds-ordered) refl

  pub read_at-Holds : read_at (h.before ++ (bytes ++ h.after)) b.left (length bytes) ≡ done bytes
  read_at-Holds =
      ap (λ i. read_at (h.before ++ (bytes ++ h.after)) i (length bytes)) (sym h.before_left)
      ∙ read_at-append h.before bytes h.after

  pub data_of-Holds : data_of b ≡ done bytes
  unfolding data_of
  data_of-Holds =
      >>=-done (assert_data b) (λ cells. read_at cells b.left (b.right - b.left)) assert_data-Holds
        (ap (λ n. read_at (h.before ++ (bytes ++ h.after)) b.left n) Holds-length ∙ read_at-Holds)

  pub length-cells : length (h.before ++ (bytes ++ h.after)) ≡ b.capacity
  length-cells =
      length-three h.before bytes h.after
      ∙ omega (arith, h.before_left, h.up_to_right, h.up_to_capacity)

  -- What moving the bytes to another place leaves of the cells
  pub move_cells-Holds :
      (to n : ℕ)
      → n ≡ length bytes
      → to + n ≤ b.capacity
      → (first last : List ℕ) × (move_cells b to b.left n ≡ done (first ++ (bytes ++ last)))
        × (length first ≡ to)
        × (to + (length bytes + length last) ≡ b.capacity)
  unfolding move_cells
  move_cells-Holds to n e le =
      let cells = h.before ++ (bytes ++ h.after) in
      let (first, last, run, first_long, last_long) =
        write_at-parts cells to bytes (omega (arith, length-cells)) in
      (
        first,
        last,
        ap (λ k. move_cells b to b.left k) e
            ∙ >>=-done (cells_of b)
                (λ c. read_at c b.left (length bytes) >>= λ bs. write_at c to bs) cells_of-Holds
                (>>=-done (read_at cells b.left (length bytes)) (λ bs. write_at cells to bs)
                  read_at-Holds run),
        first_long,
        last_long ∙ length-cells,
      )

pub length-zero : (xs : List ℕ) → length xs ≡ 0 → xs ≡ []
length-zero [] h = refl
length-zero (x ∷ xs) h = absurd (omega arith)
