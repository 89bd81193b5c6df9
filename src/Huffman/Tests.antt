-- ===== src/Huffman/Tests.antt =====
-- Runs of the two Huffman programs with an insertion sort for `qsort`, and the theorems at a file.
use mathlib.Core.List.Perm
use mathlib.Core.List.{Perm}
use old_tools.Common.{
  ℕ, Bool, true, false, List, [], ◌∷◌, ◌≡◌, refl, ◌==◌, if◌then◌else◌, ℤ, pos, negsuc, arith, inl,
  ◌≤◌, some, get_elem?, ◌++◌, length,
}
use old_tools.Common.Run.{done, ◌>>=◌}
use old_tools.Huffman.Bits.{Cells}
use old_tools.Huffman.Compress.Item.{Item, leaf, node, Qsort, ntimes, numsort, counted, build_tree}
use old_tools.Huffman.Compress.Item.Counts.{count}
use old_tools.Huffman.Compress.Item.Fits.{counted-count}
use old_tools.Huffman.Compress.Item.Merge.{Permutes}
use old_tools.Huffman.Compress.Codes.{Keys, no_keys, do_huffman, result_bytes}
use old_tools.Huffman.Compress.Codes.Laws.{codes_of, height, keys_of, leaves}
use old_tools.Huffman.Compress.Writer.{write_data, write_code, append, flush}
use old_tools.Huffman.Compress.Writer.Laws.{Carries, write_data-Carries, last_length, encode}
use old_tools.Huffman.Compress.Main.{Archive, compress, compress_items, make_keys, write_archive}
use old_tools.Huffman.Decompress.Main.{decompress, decode_file}
use old_tools.Huffman.Decompress.Build.{null, huffman_build}
use old_tools.Huffman.Decompress.Decode.{decode}
use old_tools.Huffman.RoundTrip.Setup.{IsCodable, table, length-table}
use old_tools.Huffman.Compress.Codes.Bounds.{build_tree_bounds}
use old_tools.Huffman.RoundTrip.Tree.{tree_of, huffman_build-keys_of}
use old_tools.Huffman.RoundTrip.Main.{decompress-compress}

insert : (Item → Item → ℤ) → Item → List Item → List Item
insert order x [] = x ∷ []
insert order x (y ∷ ys) =
    let rest = y ∷ insert order x ys in
    elim (order x y) [ negsuc n ↦ x ∷ y ∷ ys | pos n ↦ if n == 0 then x ∷ y ∷ ys else rest ]

insertion_sort : Qsort
unfolding insert
insertion_sort order [] = []
insertion_sort order (x ∷ xs) = insert order x (insertion_sort order xs)

insert-perm :
    (order : Item → Item → ℤ) (x : Item) (ys : List Item) → Perm (insert order x ys) (x ∷ ys)
unfolding insert
insert-perm order x [] = Perm.refl (x ∷ [])
insert-perm order x (y ∷ ys) =
    go (order x y) (Perm.trans (Perm.cons y (insert-perm order x ys)) (Perm.swap x y ys))
  where
    test :
        Bool
        → Perm (y ∷ insert order x ys) (x ∷ y ∷ ys)
        → (b : Bool) → Perm (if b then x ∷ y ∷ ys else (y ∷ insert order x ys)) (x ∷ y ∷ ys)
    test _ p true = Perm.refl (x ∷ y ∷ ys)
    test _ p false = p

    go :
        (o : ℤ)
        → Perm (y ∷ insert order x ys) (x ∷ y ∷ ys)
        → Perm
            (elim o [
              | negsuc n ↦ x ∷ y ∷ ys
              | pos n ↦ if n == 0 then x ∷ y ∷ ys else (y ∷ insert order x ys)
            ])
            (x ∷ y ∷ ys)
    go (negsuc n) p = Perm.refl (x ∷ y ∷ ys)
    go (pos n) p = test true p (n == 0)

insertion_sort-Permutes : Permutes insertion_sort
unfolding insertion_sort
insertion_sort-Permutes [] = Perm.refl []
insertion_sort-Permutes (x ∷ xs) =
    Perm.trans (insert-perm numsort x (insertion_sort numsort xs))
      (Perm.cons x (insertion_sort-Permutes xs))

abbrev blank : Cells
blank i = false

abbrev words : List ℕ
words = 7 ∷ 9 ∷ 7 ∷ 200 ∷ 7 ∷ []

abbrev words_tree : Item
words_tree = node 5 (leaf 7 3) (node 2 (leaf 9 1) (leaf 200 1))

abbrev words_archive : Archive
words_archive = record {
  magic_word = "ccsexyz";
  file_size = 5;
  non_zero_nums = 3;
  body = 7 ∷ 64 ∷ 9 ∷ 144 ∷ 200 ∷ 160 ∷ 178 ∷ [];
}

compress-words : compress insertion_sort blank words ≡ done words_archive
unfolding compress compress_items make_keys write_archive write_data write_code append flush
    insertion_sort counted build_tree do_huffman result_bytes
compress-words = refl

decompress-words : decompress words_archive ≡ done (record { file = words; overrun = 0 })
unfolding decompress huffman_build decode decode_file
decompress-words = refl

words-IsCodable : IsCodable insertion_sort words words_tree
unfolding count build_tree insertion_sort counted height codes_of last_length encode
words-IsCodable = record {
  one = 7;
  other = 9;
  different = omega arith;
  has_one = omega arith;
  has_other = omega arith;
  bytes = refl;
  short = omega arith;
  tree = refl;
  shallow = omega arith;
  tail_kept = inl (omega arith);
}

decompress-compress_example :
    (a : Archive) × (n : ℕ) × (compress insertion_sort blank words ≡ done a)
    × (decompress a ≡ done (record { file = words; overrun = n }))
    × (n ≤ 7)
decompress-compress_example = decompress-compress blank insertion_sort-Permutes words-IsCodable

huffman_build-keys_of_example :
    huffman_build null (keys_of words_tree [] ++ 178 ∷ []) (leaves words_tree)
    ≡ done (tree_of words_tree, 178 ∷ [])
unfolding height
huffman_build-keys_of_example = huffman_build-keys_of words_tree (178 ∷ []) (omega arith)

counted-count_example :
    (items : List Item) × (counted words ≡ done items)
    × (get_elem? items 7 ≡ some (leaf 7 (count 7 words)))
counted-count_example = counted-count words 7 refl (omega arith) (omega arith)

write_data-Carries_example :
    Carries (table words_tree) words blank 0 (write_data (table words_tree) words blank 0)
write_data-Carries_example =
    write_data-Carries (table words_tree) 7 (9 ∷ 7 ∷ 200 ∷ 7 ∷ []) blank 0 (omega arith)
      (length-table insertion_sort-Permutes words-IsCodable) words-IsCodable.tail_kept

build_tree_bounds_example :
    (t : Item) × ((counted words >>= build_tree insertion_sort) ≡ done t)
    × (ntimes t ≡ 5)
    × (leaves t ≤ 256)
    × ((k : Keys)
        → do_huffman t [] no_keys ≡ done k
        → (length k.key_buf ≤ 1280) × (k.non_zero_nums ≤ 256))
build_tree_bounds_example =
    build_tree_bounds insertion_sort words insertion_sort-Permutes refl (omega arith)
