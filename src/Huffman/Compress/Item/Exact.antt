-- ===== src/Huffman/Compress/Item/Exact.antt =====
-- What the compressor counts and merges (HuffmanCompress/HuffmanCompress.c) if no `int` overflows.
use old_tools.Common.{
  ℕ, zero, suc, ◌+◌, ◌-◌, Option, some, List, [], ◌∷◌, ◌++◌, ◌==◌, if◌then◌else◌, get_elem?, take,
  drop,
}
use old_tools.Huffman.Compress.Item.{Item, leaf, node, ntimes, init_items, numsort, Qsort}

-- `increment`, with counts of any size
unfoldable pub exact_increment : List Item → ℕ → List Item
exact_increment [] b = []
exact_increment (leaf num n ∷ items) zero = leaf num (n + 1) ∷ items
exact_increment (node n left right ∷ items) zero = node (n + 1) left right ∷ items
exact_increment (item ∷ items) (suc b) = item ∷ exact_increment items b

unfoldable pub exact_count_numbers : List ℕ → List Item → List Item
unfolding exact_increment
exact_count_numbers [] items = items
exact_count_numbers (b ∷ buf) items = exact_count_numbers buf (exact_increment items b)

-- `merged` and the loop that merges, with counts of any size
abbrev pub exact_merged : Item → Item → Item
exact_merged left right = node (ntimes left + ntimes right) left right

unfoldable pub exact_merge_pair : Qsort → ℕ → List Item → Option Item → Option Item → List Item
unfolding ntimes numsort
exact_merge_pair qsort i items (some below) (some item) =
    if ntimes item == 0
    then items
    else qsort numsort (take (i - 1) items ++ (exact_merged below item ∷ [])) ++ drop i items
exact_merge_pair qsort i items below item = items

unfoldable pub exact_merge_loop : Qsort → ℕ → List Item → List Item
unfolding exact_merge_pair
exact_merge_loop qsort zero items = items
exact_merge_loop qsort (suc i) items =
    exact_merge_loop qsort i
      (exact_merge_pair qsort (suc i) items (get_elem? items i) (get_elem? items (suc i)))

-- What the file gives
unfoldable pub exact_counted : List ℕ → List Item
unfolding init_items exact_count_numbers
exact_counted buf = exact_count_numbers buf (init_items 0 256)

unfoldable pub exact_build_tree : Qsort → List Item → Option Item
unfolding exact_merge_loop numsort
exact_build_tree qsort items = get_elem? (exact_merge_loop qsort 255 (qsort numsort items)) 0
