-- ===== src/Huffman/Compress/Item/Counts.antt =====
-- The counts that count_numbers makes (HuffmanCompress/HuffmanCompress.c).
use old_tools.Common.{
  ℕ, zero, suc, ◌+◌, ◌≤◌, ◌<◌, ◌≡◌, ◌≢◌, refl, sym, ap, ◌∙◌, Bool, true, false, some, List, [], ◌∷◌,
  arith, ◌==◌, if◌then◌else◌, length, get_elem?, all,
}
use native.Mathlib.Decide.{ℕ_discrete}
use old_tools.Huffman.Compress.Item.{Item, leaf, node, init_items}
use old_tools.Huffman.Compress.Item.Exact.{exact_increment, exact_count_numbers, exact_counted}

-- How often the byte occurs in the file
unfoldable pub count : ℕ → List ℕ → ℕ
count b [] = 0
count b (c ∷ buf) = (if c == b then 1 else 0) + count b buf

abbrev pub is_leaf : Item → Bool
is_leaf (leaf num n) = true
is_leaf (node n l r) = false

increment_self :
    (items : List Item) (b : ℕ) {num n : ℕ}
    → get_elem? items b ≡ some (leaf num n)
    → get_elem? (exact_increment items b) b ≡ some (leaf num (n + 1))
unfolding exact_increment
increment_self [] b h = cc
increment_self (leaf num' n' ∷ items) zero h = ground arith
increment_self (node n' l r ∷ items) zero h = cc
increment_self (leaf num' n' ∷ items) (suc b) h = increment_self items b h
increment_self (node n' l r ∷ items) (suc b) h = increment_self items b h

increment_other :
    (items : List Item) (b c : ℕ)
    → b ≢ c
    → get_elem? (exact_increment items c) b ≡ get_elem? items b
unfolding exact_increment
increment_other [] b c h = refl
increment_other (leaf num n ∷ items) zero zero h = absurd (h refl)
increment_other (node n l r ∷ items) zero zero h = absurd (h refl)
increment_other (leaf num n ∷ items) (suc b) zero h = refl
increment_other (node n l r ∷ items) (suc b) zero h = refl
increment_other (leaf num n ∷ items) zero (suc c) h = refl
increment_other (node n l r ∷ items) zero (suc c) h = refl
increment_other (leaf num n ∷ items) (suc b) (suc c) h =
    increment_other items b c (λ e. h (ap suc e))
increment_other (node n l r ∷ items) (suc b) (suc c) h =
    increment_other items b c (λ e. h (ap suc e))

pub length-exact_increment :
    (items : List Item) (b : ℕ) → length (exact_increment items b) ≡ length items
unfolding exact_increment
length-exact_increment [] b = refl
length-exact_increment (leaf num n ∷ items) zero = refl
length-exact_increment (node n l r ∷ items) zero = refl
length-exact_increment (leaf num n ∷ items) (suc b) = ap suc (length-exact_increment items b)
length-exact_increment (node n l r ∷ items) (suc b) = ap suc (length-exact_increment items b)

leaves-exact_increment :
    (items : List Item) (b : ℕ)
    → all is_leaf items ≡ true
    → all is_leaf (exact_increment items b) ≡ true
unfolding exact_increment
leaves-exact_increment [] b h = refl
leaves-exact_increment (leaf num n ∷ items) zero h = h
leaves-exact_increment (node n l r ∷ items) zero h = cc
leaves-exact_increment (leaf num n ∷ items) (suc b) h = leaves-exact_increment items b h
leaves-exact_increment (node n l r ∷ items) (suc b) h = cc

exact_count_numbers-count :
    (buf : List ℕ) (items : List Item) (b : ℕ) {n : ℕ}
    → get_elem? items b ≡ some (leaf b n)
    → get_elem? (exact_count_numbers buf items) b ≡ some (leaf b (n + count b buf))
unfolding exact_count_numbers count
exact_count_numbers-count [] items b {n} h =
    h ∙ ap (λ k. some (leaf b k)) {x = n} {y = n + 0} (omega arith)
exact_count_numbers-count (c ∷ buf) items b {n} h = elim (ℕ_discrete c b) [
  | yes e ↦
      let h' =
        exact_count_numbers-count buf (exact_increment items c) b {n = n + 1}
          (rw e (increment_self items b h)) in
      h'
      ∙ ap (λ k. some (leaf b k)) {x = n + 1 + count b buf}
          {y = n + ((if c == b then 1 else 0) + count b buf)} (ground arith)
  | no e ↦
      let h' =
        exact_count_numbers-count buf (exact_increment items c) b
          (increment_other items b c (λ q. e (sym q)) ∙ h) in
      h'
      ∙ ap (λ k. some (leaf b k)) {x = n + count b buf}
          {y = n + ((if c == b then 1 else 0) + count b buf)} (ground arith)
]

get_elem-init_items : (n i j : ℕ) → j < n → get_elem? (init_items i n) j ≡ some (leaf (i + j) 0)
unfolding init_items
get_elem-init_items zero i j h = absurd (omega arith)
get_elem-init_items (suc n) i zero h = ap (λ k. some (leaf k 0)) (omega arith)
get_elem-init_items (suc n) i (suc j) h =
    get_elem-init_items n (i + 1) j (omega arith) ∙ ap (λ k. some (leaf k 0)) (omega arith)

-- After exact_count_numbers the item at the index of a byte below 256 is a leaf of that byte with
-- the number of times that the byte occurs in the file.
pub exact_counted-count :
    (buf : List ℕ) (b : ℕ) → b < 256 → get_elem? (exact_counted buf) b ≡ some (leaf b (count b buf))
unfolding exact_counted
exact_counted-count buf b h =
    exact_count_numbers-count buf (init_items 0 256) b
      (get_elem-init_items 256 0 b h ∙ ap (λ k. some (leaf k 0)) (omega arith))
    ∙ ap (λ k. some (leaf b k)) (omega arith)

length-exact_count_numbers :
    (buf : List ℕ) (items : List Item) → length (exact_count_numbers buf items) ≡ length items
unfolding exact_count_numbers
length-exact_count_numbers [] items = refl
length-exact_count_numbers (b ∷ buf) items =
    length-exact_count_numbers buf (exact_increment items b) ∙ length-exact_increment items b

pub length-exact_counted : (buf : List ℕ) → length (exact_counted buf) ≡ 256
unfolding exact_counted init_items
length-exact_counted buf = length-exact_count_numbers buf (init_items 0 256)

leaves-exact_count_numbers :
    (buf : List ℕ) (items : List Item)
    → all is_leaf items ≡ true
    → all is_leaf (exact_count_numbers buf items) ≡ true
unfolding exact_count_numbers
leaves-exact_count_numbers [] items h = h
leaves-exact_count_numbers (b ∷ buf) items h =
    leaves-exact_count_numbers buf (exact_increment items b) (leaves-exact_increment items b h)

pub leaves-exact_counted : (buf : List ℕ) → all is_leaf (exact_counted buf) ≡ true
unfolding exact_counted init_items
leaves-exact_counted buf = leaves-exact_count_numbers buf (init_items 0 256) refl

-- Two different bytes share the file's length.
pub count_two : (b c : ℕ) (buf : List ℕ) → b ≢ c → count b buf + count c buf ≤ length buf
unfolding count
count_two b c [] h = omega arith
count_two b c (x ∷ buf) h = ground (arith, count_two b c buf h)
