-- ===== src/Huffman/Compress/Item/Root.antt =====
-- What the merge loop keeps: the bytes that occur, their number, and the number of leaves.
use old_tools.Common.{
  ℕ, ◌+◌, ◌≤◌, ◌<◌, ◌≡◌, refl, ◌∙◌, Bool, true, false, not, ◌&&◌, ◌||◌, some, List, [], ◌∷◌, arith,
  ◌==◌, length, get_elem?, take, any, all, any-append, all-append, any-perm, all-perm, length-perm,
  sum, sum-append, sum-perm, take_all,
}
use old_tools.Huffman.Compress.Item.{Item, leaf, node, ntimes, Qsort, numsort}
use old_tools.Huffman.Compress.Item.Exact.{exact_merged, exact_merge_loop, exact_build_tree}
use old_tools.Huffman.Compress.Item.Merge.{Permutes, Merges, skip, merge, merge_loop_inv}
use old_tools.Huffman.Compress.Codes.Laws.{leaves}

-- Some leaf has the byte with at least one occurrence.
unfoldable pub holds : ℕ → Item → Bool
holds b (leaf num n) = (b == num) && not (n == 0)
holds b (node n l r) = holds b l || holds b r

-- Every node has the sum of its children's occurrences.
unfoldable pub weighed : Item → Bool
unfolding ntimes
weighed (leaf num n) = true
weighed (node n l r) = (n == ntimes l + ntimes r) && (weighed l && weighed r)

unused-holds : (b : ℕ) (t : Item) → weighed t ≡ true → ntimes t ≡ 0 → holds b t ≡ false
unfolding holds weighed ntimes
unused-holds b (leaf num n) w h = ground arith
unused-holds b (node n l r) w h = ground (arith, unused-holds b l, unused-holds b r)

-- The tree that is built has a property of the sorted array that each round keeps.
build_tree_inv {κ} :
    (P : List Item → Type κ) (qsort : Qsort) (items : List Item)
    → Permutes qsort
    → ((xs ys : List Item) → Merges xs ys → P xs → P ys)
    → length items ≡ 256
    → P (qsort numsort items)
    → (t : Item) × (exact_build_tree qsort items ≡ some t) × P (t ∷ [])
unfolding exact_build_tree
build_tree_inv P qsort items perm keep size p =
    let sorted = qsort numsort items in
    let size' : length sorted ≡ 256 = length-perm (perm items) ∙ size in
    let all_live : P (take 256 sorted) = rw (take_all 256 sorted (omega arith)) p in
    let (q, h) = merge_loop_inv P qsort perm keep 255 sorted (omega arith) all_live in
    first (exact_merge_loop qsort 255 sorted) q h
  where
    first :
        (xs : List Item)
        → P (take 1 xs)
        → 0 < length xs
        → (t : Item) × (get_elem? xs 0 ≡ some t) × P (t ∷ [])
    first [] q h = absurd (omega arith)
    first (x ∷ xs) q h = (x, refl, q)

module _ (b : ℕ) where
  abbrev Holds : List Item → Type 0
  Holds xs = (all weighed xs ≡ true) × (any (holds b) xs ≡ true)

  Merges-Holds : (xs ys : List Item) → Merges xs ys → Holds xs → Holds ys
  unfolding weighed holds
  Merges-Holds _ _ (skip front below item e) h = ground (
    arith,
    all-append weighed front (below ∷ item ∷ []),
    all-append weighed front (below ∷ []),
    any-append (holds b) front (below ∷ item ∷ []),
    any-append (holds b) front (below ∷ []),
    unused-holds b item,
  )
  Merges-Holds _ _ (merge front below item live p) h = ground (
    arith,
    all-append weighed front (below ∷ item ∷ []),
    all-append weighed front (exact_merged below item ∷ []),
    any-append (holds b) front (below ∷ item ∷ []),
    any-append (holds b) front (exact_merged below item ∷ []),
    all-perm weighed p,
    any-perm (holds b) p,
  )

  -- The tree is built, and has a leaf for every byte that occurs.
  pub exact_build_tree-holds :
      (qsort : Qsort) (items : List Item)
      → Permutes qsort
      → length items ≡ 256
      → all weighed items ≡ true
      → any (holds b) items ≡ true
      → (t : Item) × (exact_build_tree qsort items ≡ some t) × (holds b t ≡ true)
  exact_build_tree-holds qsort items perm size w h =
      let (t, e, q) =
        build_tree_inv Holds qsort items perm Merges-Holds size
          (all-perm weighed (perm items) ∙ w, any-perm (holds b) (perm items) ∙ h) in
      (t, e, ground arith)

abbrev pub Sums : (n k : ℕ) → List Item → Type 0
Sums n k xs = (sum ntimes xs ≡ n) × (sum leaves xs ≤ k)

pub Merges-Sums : (n k : ℕ) (xs ys : List Item) → Merges xs ys → Sums n k xs → Sums n k ys
unfolding ntimes leaves
Merges-Sums n k _ _ (skip front below item e) h = omega (
  arith,
  sum-append ntimes front (below ∷ item ∷ []),
  sum-append ntimes front (below ∷ []),
  sum-append leaves front (below ∷ item ∷ []),
  sum-append leaves front (below ∷ []),
)
Merges-Sums n k _ _ (merge front below item live p) h = omega (
  arith,
  sum-append ntimes front (below ∷ item ∷ []),
  sum-append ntimes front (exact_merged below item ∷ []),
  sum-append leaves front (below ∷ item ∷ []),
  sum-append leaves front (exact_merged below item ∷ []),
  sum-perm ntimes p,
  sum-perm leaves p,
)

-- The root has all occurrences, and no more leaves than the array has items.
pub exact_build_tree-Sums :
    (qsort : Qsort) (items : List Item)
    → Permutes qsort
    → length items ≡ 256
    → (t : Item) × (exact_build_tree qsort items ≡ some t)
      × (ntimes t ≡ sum ntimes items)
      × (leaves t ≤ sum leaves items)
exact_build_tree-Sums qsort items perm size =
    let (t, e, q) =
      build_tree_inv (Sums (sum ntimes items) (sum leaves items)) qsort items perm
        (Merges-Sums (sum ntimes items) (sum leaves items)) size
        (omega (arith, sum-perm ntimes (perm items), sum-perm leaves (perm items))) in
    (t, e, omega arith, omega arith)
