-- ===== src/Huffman/Compress/Codes/Bounds.antt =====
-- Sizes of the counts and of the key table (HuffmanCompress/HuffmanCompress.c).
use old_tools.Common.{
  ℕ, zero, suc, ◌+◌, ◌^◌, ◌*◌, ◌/◌, ◌≤◌, ◌<◌, ◌≡◌, refl, ap, ◌∙◌, true, false, List, [], ◌∷◌, ◌++◌,
  arith, ltb, length, length-append, all, sum,
}
use old_tools.Common.Run.{done, ◌>>=◌, >>=-eq-done}
use old_tools.Huffman.Bits.{Bits}
use old_tools.Huffman.Compress.Item.{counted, build_tree, Item, leaf, node, ntimes, Qsort}
use old_tools.Huffman.Compress.Item.Exact.{exact_counted}
use old_tools.Huffman.Compress.Item.Counts.{is_leaf, length-exact_counted, leaves-exact_counted}
use old_tools.Huffman.Compress.Item.Fits.{tree_fits, sum-exact_counted}
use old_tools.Huffman.Compress.Item.Merge.{Permutes}
use old_tools.Huffman.Compress.Item.Root.{exact_build_tree-Sums}
use old_tools.Huffman.Compress.Codes.{result_bytes, Keys, no_keys, put_key, do_huffman}
use old_tools.Huffman.Compress.Codes.Laws.{leaves}

length-result_bytes :
    (rounds i : ℕ) (string : Bits) → length (result_bytes rounds i string) ≡ rounds
unfolding result_bytes
length-result_bytes zero i string = refl
length-result_bytes (suc rounds) i string = ap suc (length-result_bytes rounds (i + 1) string)

-- A traversal that ends well wrote at most five bytes for each leaf.
do_huffman-length :
    (t : Item) (string : Bits) (k : Keys) {k' : Keys}
    → do_huffman t string k ≡ done k'
    → (length k'.key_buf ≤ length k.key_buf + 5 * leaves t)
      × (k'.non_zero_nums ≡ k.non_zero_nums + leaves t)
unfolding do_huffman put_key leaves
do_huffman-length (leaf num n) string k {k'} h = ground (
  arith,
  length-append k.key_buf (num ∷ result_bytes (length string / 4 + 1) 0 string),
  length-result_bytes (length string / 4 + 1) 0 string,
)
do_huffman-length (node n l r) string k {k'} h =
    let (m, p, q) = >>=-eq-done (do_huffman l (string ++ (true ∷ [])) k) _ h in
    let a = do_huffman-length l (string ++ (true ∷ [])) k p in
    let b = do_huffman-length r (string ++ (false ∷ [])) m q in omega arith

leaves_of_is_leaf : (items : List Item) → all is_leaf items ≡ true → sum leaves items ≡ length items
unfolding leaves
leaves_of_is_leaf [] h = refl
leaves_of_is_leaf (leaf num n ∷ items) h = omega (arith, leaves_of_is_leaf items h)
leaves_of_is_leaf (node n l r ∷ items) h = cc

-- For a file of fewer than 2^31 bytes, all below 256, and any qsort that permutes its array,
-- the bytes are counted and the tree is built without an overflow of an int, its root counts
-- the bytes of the file, it has at most 256 leaves, and a do_huffman that ends without a fault
-- has written at most 1280 bytes to key_buf and counted at most 256 bytes.
pub build_tree_bounds :
    (qsort : Qsort) (buf : List ℕ)
    → Permutes qsort
    → all (λ x. ltb x 256) buf ≡ true
    → length buf < 2 ^ 31
    → (t : Item) × ((counted buf >>= build_tree qsort) ≡ done t)
      × (ntimes t ≡ length buf)
      × (leaves t ≤ 256)
      × ((k : Keys)
          → do_huffman t [] no_keys ≡ done k
          → (length k.key_buf ≤ 1280) × (k.non_zero_nums ≤ 256))
build_tree_bounds qsort buf perm bytes short =
    let (t, e, p, q) =
      exact_build_tree-Sums qsort (exact_counted buf) perm (length-exact_counted buf) in
    let few = leaves_of_is_leaf (exact_counted buf) (leaves-exact_counted buf) in
    (
      t,
      tree_fits qsort buf perm bytes short e,
      p ∙ sum-exact_counted buf bytes,
      omega (arith, length-exact_counted buf),
      λ k h. let b = do_huffman-length t [] no_keys h in omega (arith, length-exact_counted buf),
    )
