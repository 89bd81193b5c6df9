-- ===== src/Huffman/Compress/Item/Fits.antt =====
-- Counting and merging where the counts fit into an `int` (HuffmanCompress/HuffmanCompress.c).
use old_tools.Common.{
  ℕ, zero, suc, ◌+◌, ◌^◌, ◌≤◌, ◌<◌, ◌≡◌, refl, ap, ◌∙◌, true, some, List, [], ◌∷◌, arith, ltb,
  lt→ltb, length, all, sum, sum-append, sum-perm, ◌==◌, Bool-cases, inl, inr, last_two, get_elem?,
  take, length-perm, take_all,
}
use old_tools.Common.Run.{done, ◌>>=◌, >>=-done}
use old_tools.Huffman.Compress.Item.{
  Item, leaf, node, ntimes, Qsort, numsort, init_items, add_int, increment, count_loop,
  count_numbers, counted, merged, merge_pair, merge_loop, first_item, build_tree,
}
use old_tools.Huffman.Compress.Item.Exact.{
  exact_increment, exact_count_numbers, exact_counted, exact_merge_pair, exact_merge_loop,
  exact_build_tree,
}
use old_tools.Huffman.Compress.Item.Counts.{
  count, length-exact_increment, length-exact_counted, exact_counted-count,
}
use old_tools.Huffman.Compress.Item.Merge.{Permutes, exact_merge_pair-Merges}
use old_tools.Huffman.Compress.Item.Root.{Merges-Sums}
use old_tools.Huffman.Compress.Codes.Laws.{leaves}

add_int_fits : (a b : ℕ) → a + b < 2 ^ 31 → add_int a b ≡ done (a + b)
unfolding add_int
add_int_fits a b h = rw (lt→ltb (a + b) (2 ^ 31) h) refl

sum-exact_increment :
    (items : List Item) (b : ℕ)
    → b < length items
    → sum ntimes (exact_increment items b) ≡ suc (sum ntimes items)
unfolding exact_increment ntimes
sum-exact_increment [] b h = absurd (omega arith)
sum-exact_increment (leaf num n ∷ items) zero h = omega arith
sum-exact_increment (node n l r ∷ items) zero h = omega arith
sum-exact_increment (leaf num n ∷ items) (suc b) h = omega (arith, sum-exact_increment items b)
sum-exact_increment (node n l r ∷ items) (suc b) h = omega (arith, sum-exact_increment items b)

pub sum-exact_count_numbers :
    (buf : List ℕ) (items : List Item)
    → length items ≡ 256
    → all (λ x. ltb x 256) buf ≡ true
    → sum ntimes (exact_count_numbers buf items) ≡ length buf + sum ntimes items
unfolding exact_count_numbers
sum-exact_count_numbers [] items size h = omega arith
sum-exact_count_numbers (b ∷ buf) items size h =
    let e : b < 256 = ground arith in
    let more =
      sum-exact_count_numbers buf (exact_increment items b) (length-exact_increment items b ∙ size)
        (ground arith) in
    omega (arith, sum-exact_increment items b)

length-init_items : (i n : ℕ) → length (init_items i n) ≡ n
unfolding init_items
length-init_items i zero = refl
length-init_items i (suc n) = ap suc (length-init_items (i + 1) n)

sum-init_items : (i n : ℕ) → sum ntimes (init_items i n) ≡ 0
unfolding init_items ntimes
sum-init_items i zero = refl
sum-init_items i (suc n) = omega (arith, sum-init_items (i + 1) n)

pub sum-exact_counted :
    (buf : List ℕ) → all (λ x. ltb x 256) buf ≡ true → sum ntimes (exact_counted buf) ≡ length buf
unfolding exact_counted
sum-exact_counted buf bytes =
    sum-exact_count_numbers buf (init_items 0 256) (length-init_items 0 256) bytes
    ∙ omega (arith, sum-init_items 0 256)

increment_fits :
    (items : List Item) (b : ℕ)
    → b < length items
    → sum ntimes items + 1 < 2 ^ 31
    → increment items b ≡ done (exact_increment items b)
unfolding increment exact_increment ntimes
increment_fits [] b h s = absurd (omega arith)
increment_fits (leaf num n ∷ items) zero h s = rw (add_int_fits n 1 (omega arith)) refl
increment_fits (node n l r ∷ items) zero h s = rw (add_int_fits n 1 (omega arith)) refl
increment_fits (leaf num n ∷ items) (suc b) h s =
    rw (increment_fits items b (omega arith) (omega arith)) refl
increment_fits (node n l r ∷ items) (suc b) h s =
    rw (increment_fits items b (omega arith) (omega arith)) refl

count_loop_fits :
    (i : ℕ) (buf : List ℕ) (items : List Item)
    → all (λ x. ltb x 256) buf ≡ true
    → length items ≡ 256
    → sum ntimes items ≤ i
    → i + length buf < 2 ^ 31
    → count_loop i buf items ≡ done (exact_count_numbers buf items)
unfolding count_loop exact_count_numbers
count_loop_fits i [] items bytes size s h = refl
count_loop_fits i (b ∷ buf) items bytes size s h =
    let e : b < length items = ground arith in
    >>=-done (increment items b) _ (increment_fits items b e (omega arith)) (
      >>=-done (add_int i 1) _ (add_int_fits i 1 (omega arith)) (
        count_loop_fits (i + 1) buf (exact_increment items b) (ground arith)
          (length-exact_increment items b ∙ size) (omega (arith, sum-exact_increment items b e))
          (omega arith)))

pub counted_fits :
    (buf : List ℕ)
    → all (λ x. ltb x 256) buf ≡ true
    → length buf < 2 ^ 31
    → counted buf ≡ done (exact_counted buf)
unfolding counted count_numbers exact_counted
counted_fits buf bytes h =
    count_loop_fits 0 buf (init_items 0 256) bytes (length-init_items 0 256)
      (omega (arith, sum-init_items 0 256)) (omega arith)

-- For a file of fewer than 2^31 bytes, all below 256, count_numbers ends without an overflow
-- of an int, and the item at the index of a byte below 256 is then a leaf of that byte with
-- the number of times that the byte occurs in the file.
pub counted-count :
    (buf : List ℕ) (b : ℕ)
    → all (λ x. ltb x 256) buf ≡ true
    → length buf < 2 ^ 31
    → b < 256
    → (items : List Item) × (counted buf ≡ done items)
      × (get_elem? items b ≡ some (leaf b (count b buf)))
counted-count buf b bytes h p =
    (exact_counted buf, counted_fits buf bytes h, exact_counted-count buf b p)

merge_pair_fits :
    (qsort : Qsort) (i : ℕ) (items : List Item)
    → suc i < length items
    → sum ntimes (take (suc (suc i)) items) < 2 ^ 31
    → merge_pair qsort (suc i) items (get_elem? items i) (get_elem? items (suc i))
      ≡ done (exact_merge_pair qsort (suc i) items (get_elem? items i) (get_elem? items (suc i)))
unfolding merge_pair exact_merge_pair merged
merge_pair_fits qsort i items h s =
    let l = last_two items i h in
    let fits : ntimes l.below + ntimes l.item < 2 ^ 31 = omega (
      arith,
      sum-append ntimes (take i items) (l.below ∷ l.item ∷ []),
      ap (sum ntimes) l.take_two,
    ) in
    rw (l.get_below, l.get_item)
      (elim (Bool-cases (ntimes l.item == 0)) [
        | inl e ↦ rw e refl
        | inr e ↦ rw (e, add_int_fits (ntimes l.below) (ntimes l.item) fits) refl
      ])

merge_loop_fits :
    (qsort : Qsort) (i : ℕ) (items : List Item)
    → Permutes qsort
    → i < length items
    → sum ntimes (take (suc i) items) < 2 ^ 31
    → merge_loop qsort i items ≡ done (exact_merge_loop qsort i items)
unfolding merge_loop exact_merge_loop
merge_loop_fits qsort zero items perm h s = refl
merge_loop_fits qsort (suc i) items perm h s =
    let live = take (suc (suc i)) items in
    let items' =
      exact_merge_pair qsort (suc i) items (get_elem? items i) (get_elem? items (suc i)) in
    let (m, e) = exact_merge_pair-Merges qsort i items perm h in
    let same =
      Merges-Sums (sum ntimes live) (sum leaves live) live (take (suc i) items') m
        (refl, omega arith) in
    >>=-done (merge_pair qsort (suc i) items (get_elem? items i) (get_elem? items (suc i))) _
      (merge_pair_fits qsort i items h s)
      (merge_loop_fits qsort i items' perm (omega arith) (omega (arith, same.0)))

first_item_fits : (xs : List Item) {t : Item} → get_elem? xs 0 ≡ some t → first_item xs ≡ done t
unfolding first_item
first_item_fits [] h = cc
first_item_fits (x ∷ xs) h = cc

build_tree_fits :
    (qsort : Qsort) (items : List Item) {t : Item}
    → Permutes qsort
    → length items ≡ 256
    → sum ntimes items < 2 ^ 31
    → exact_build_tree qsort items ≡ some t
    → build_tree qsort items ≡ done t
unfolding build_tree exact_build_tree
build_tree_fits qsort items perm size s e =
    let sorted = qsort numsort items in
    let size' : length sorted ≡ 256 = length-perm (perm items) ∙ size in
    let whole = ap (sum ntimes) (take_all 256 sorted (omega arith)) in
    >>=-done (merge_loop qsort 255 sorted) first_item
      (merge_loop_fits qsort 255 sorted perm (omega arith)
        (omega (arith, whole, sum-perm ntimes (perm items))))
      (first_item_fits (exact_merge_loop qsort 255 sorted) e)

-- The tree of a file
pub tree_fits :
    (qsort : Qsort) (buf : List ℕ) {t : Item}
    → Permutes qsort
    → all (λ x. ltb x 256) buf ≡ true
    → length buf < 2 ^ 31
    → exact_build_tree qsort (exact_counted buf) ≡ some t
    → (counted buf >>= build_tree qsort) ≡ done t
tree_fits qsort buf perm bytes h e =
    >>=-done (counted buf) (build_tree qsort) (counted_fits buf bytes h) (
      build_tree_fits qsort (exact_counted buf) perm (length-exact_counted buf)
        (omega (arith, sum-exact_counted buf bytes)) e)
