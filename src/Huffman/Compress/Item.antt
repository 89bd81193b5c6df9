-- ===== src/Huffman/Compress/Item.antt =====
-- Counting the bytes of a file and building the Huffman tree (count_numbers, numsort and the merge
-- loop of main in HuffmanCompress/HuffmanCompress.c).
pub mod Counts
pub mod Exact
pub mod Fits
pub mod Merge
pub mod Root
use old_tools.Common.{
  ℕ, zero, suc, ◌+◌, ◌-◌, Bool, Option, none, some, List, [], ◌∷◌, ◌++◌, ◌==◌, if◌then◌else◌, ℤ,
  ltb, ◌^◌, sub_ℕ, get_elem?, take, drop,
}
use old_tools.Common.Run.{Run, done, fault, ◌>>=◌}

-- `item_t`: a leaf has `flag` 0, an inner node has `flag` 1 and two children. The fields that
-- do_huffman computes stand in the table of codes. `ntimes` is an `int`
-- that is never negative.
pub data Item : Type 0 where
  leaf : ℕ → ℕ → Item
  node : ℕ → Item → Item → Item

unfoldable pub ntimes : Item → ℕ
ntimes (leaf num n) = n
ntimes (node n left right) = n

-- `items[i].num = i` for `n` values of `i` from the given one, over zeroed memory
unfoldable pub init_items : ℕ → ℕ → List Item
init_items i zero = []
init_items i (suc n) = leaf i 0 ∷ init_items (i + 1) n

-- The sum of two `int`s that are not negative; C leaves it undefined from 2 ^ 31 on.
unfoldable pub add_int : ℕ → ℕ → Run ℕ
add_int a b = if ltb (a + b) (2 ^ 31) then done (a + b) else fault

-- `ret[b].ntimes++`
unfoldable pub increment : List Item → ℕ → Run (List Item)
unfolding add_int
increment [] b = fault
increment (leaf num n ∷ items) zero = add_int n 1 >>= λ m. done (leaf num m ∷ items)
increment (node n left right ∷ items) zero = add_int n 1 >>= λ m. done (node m left right ∷ items)
increment (item ∷ items) (suc b) = increment items b >>= λ rest. done (item ∷ rest)

-- The loop of `count_numbers` from `i` on, where `i` is an `int` too
unfoldable pub count_loop : ℕ → List ℕ → List Item → Run (List Item)
unfolding increment add_int
count_loop i [] items = done items
count_loop i (b ∷ buf) items =
    increment items b >>= λ items'. add_int i 1 >>= λ i'. count_loop i' buf items'

-- count_numbers; main calls it only with a file that is not empty.
unfoldable pub count_numbers : List ℕ → List Item → Run (List Item)
unfolding count_loop
count_numbers buf items = count_loop 0 buf items

-- The comparison that `qsort` is given: a negative number puts `p1` first.
unfoldable pub numsort : Item → Item → ℤ
unfolding ntimes
numsort p1 p2 = sub_ℕ (ntimes p2) (ntimes p1)

-- The library's `qsort`, at the array of items: it is given the comparison.
abbrev pub Qsort : Type 0
Qsort = (Item → Item → ℤ) → List Item → List Item

-- The new node that takes the place of `items[i - 1]`
unfoldable pub merged : Item → Item → Run Item
unfolding add_int ntimes
merged left right = add_int (ntimes left) (ntimes right) >>= λ n. done (node n left right)

-- One round of the merge loop at `i`, where `below` is `items[i - 1]` and `item` is `items[i]`
unfoldable pub merge_pair : Qsort → ℕ → List Item → Option Item → Option Item → Run (List Item)
unfolding ntimes numsort merged
merge_pair qsort i items (some below) (some item) =
    if ntimes item == 0
    then done items
    else (merged below item >>= λ m.
        done (qsort numsort (take (i - 1) items ++ (m ∷ [])) ++ drop i items))
merge_pair qsort i items below item = fault

-- `for (int i = length - 1; i > 0; i--)`
unfoldable pub merge_loop : Qsort → ℕ → List Item → Run (List Item)
unfolding merge_pair
merge_loop qsort zero items = done items
merge_loop qsort (suc i) items =
    merge_pair qsort (suc i) items (get_elem? items i) (get_elem? items (suc i)) >>= λ items'.
    merge_loop qsort i items'

-- The counted array before it is first sorted
unfoldable pub counted : List ℕ → Run (List Item)
unfolding init_items count_numbers
counted buf = count_numbers buf (init_items 0 256)

-- The copy of `items[0]`
unfoldable pub first_item : List Item → Run Item
first_item [] = fault
first_item (item ∷ items) = done item

-- `qsort`, the merge loop, and the copy of `items[0]`
unfoldable pub build_tree : Qsort → List Item → Run Item
unfolding merge_loop numsort first_item
build_tree qsort items = merge_loop qsort 255 (qsort numsort items) >>= first_item
