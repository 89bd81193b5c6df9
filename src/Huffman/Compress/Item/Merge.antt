-- ===== src/Huffman/Compress/Item/Merge.antt =====
-- The merge loop, round by round: what it keeps of the live part of the array.
use old_tools.Common.{
  ℕ, zero, suc, ◌-◌, ◌<◌, ◌≡◌, refl, ◌∙◌, List, [], ◌∷◌, ◌++◌, arith, ◌==◌, ==→eq, length,
  length-append, get_elem?, take, drop, length-perm, last_two, Bool-cases, inl, inr,
  take-append_left, length-drop, length-take_le,
}
use mathlib.Core.List.{Perm}
use old_tools.Huffman.Compress.Item.{Item, ntimes, Qsort, numsort}
use old_tools.Huffman.Compress.Item.Exact.{exact_merged, exact_merge_pair, exact_merge_loop}

-- The library's `qsort` keeps the elements of the array that it is given.
abbrev pub Permutes : Qsort → Type 0
Permutes qsort = (items : List Item) → Perm (qsort numsort items) items

-- What one round does to the live part of the array
pub data Merges : List Item → List Item → Type 0 where
  skip :
      (front : List Item) (below item : Item)
      → ntimes item ≡ 0
      → Merges (front ++ (below ∷ item ∷ [])) (front ++ (below ∷ []))
  merge :
      (front : List Item) (below item : Item) (live : List Item)
      → Perm live (front ++ (exact_merged below item ∷ []))
      → Merges (front ++ (below ∷ item ∷ [])) live

pred_suc : (i : ℕ) → i ≡ suc i - 1
pred_suc i = omega arith

live-sorted :
    (sorted rest : List Item) (n : ℕ) → length sorted ≡ n → take n (sorted ++ rest) ≡ sorted
live-sorted sorted rest n e = rw (← e) (take-append_left sorted rest)

-- An item that a round drops has no occurrences, and two items are exact_merged into their sum.
pub exact_merge_pair-Merges :
    (qsort : Qsort) (i : ℕ) (items : List Item)
    → Permutes qsort
    → suc i < length items
    → let items' =
        exact_merge_pair qsort (suc i) items (get_elem? items i) (get_elem? items (suc i)) in
      Merges (take (suc (suc i)) items) (take (suc i) items') × (length items' ≡ length items)
unfolding exact_merge_pair
exact_merge_pair-Merges qsort i items perm h =
    let l = last_two items i h in
    rw (l.get_below, l.get_item, l.take_two)
      (elim (Bool-cases (ntimes l.item == 0)) [
        | inl e ↦
            rw (e, l.take_one)
              (skip (take i items) l.below l.item (==→eq (ntimes l.item) 0 e), refl)
        | inr e ↦
            let pair = take i items ++ (exact_merged l.below l.item ∷ []) in
            let sorted = qsort numsort pair in
            let size : length sorted ≡ suc i =
              length-perm (perm pair)
              ∙ omega (
                arith,
                length-append (take i items) (exact_merged l.below l.item ∷ []),
                length-take_le i items,
              ) in
            rw e (
              rw (← pred_suc i) (
                rw (live-sorted sorted (drop (suc i) items) (suc i) size)
                    (merge (take i items) l.below l.item sorted (perm pair)),
                omega (
                  arith,
                  size,
                  length-append sorted (drop (suc i) items),
                  length-drop (suc i) items,
                ),
              ))
      ])

-- A property that each round keeps holds of the last live item.
pub merge_loop_inv {κ} :
    (P : List Item → Type κ) (qsort : Qsort)
    → Permutes qsort
    → ((xs ys : List Item) → Merges xs ys → P xs → P ys)
    → (i : ℕ) (items : List Item) → i < length items
    → P (take (suc i) items)
    → P (take 1 (exact_merge_loop qsort i items)) × (0 < length (exact_merge_loop qsort i items))
unfolding exact_merge_loop
merge_loop_inv P qsort perm keep zero items h p = (p, h)
merge_loop_inv P qsort perm keep (suc i) items h p =
    let (m, e) = exact_merge_pair-Merges qsort i items perm h in
    merge_loop_inv P qsort perm keep i
      (exact_merge_pair qsort (suc i) items (get_elem? items i) (get_elem? items (suc i)))
      (omega arith) (keep _ _ m p)
