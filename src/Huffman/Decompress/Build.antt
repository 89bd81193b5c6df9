-- ===== src/Huffman/Decompress/Build.antt =====
-- The tree of codes, rebuilt from the keys (alloc_new_item, key_trans_iter and huffman_build in
-- HuffmanCompress/HuffmanDecompress.c).
pub mod Laws
use old_tools.Common.{
  ℕ, zero, suc, ◌+◌, ltb, ◌-◌, ◌*◌, ◌/◌, ◌%◌, ◌^◌, Bool, true, false, ◌||◌, List, [], ◌∷◌, ◌==◌,
  if◌then◌else◌, ℤ, pos, negsuc,
}
use old_tools.Common.Run.{Run, done, exited, fault, ◌>>=◌}

-- `item_t` of the decompressor, with its null pointers: `item num flag left right`.
pub data TreeItem : Type 0 where
  null : TreeItem
  item : ℕ → Bool → TreeItem → TreeItem → TreeItem

unfoldable pub alloc_new_item : TreeItem
alloc_new_item = item 0 false null null

-- `if (p == NULL) p = alloc_new_item();`
unfoldable pub alloc_if_null : TreeItem → TreeItem
unfolding alloc_new_item
alloc_if_null null = alloc_new_item
alloc_if_null (item num flag left right) = item num flag left right

unfoldable pub key_trans_iter : ℕ → ℤ
key_trans_iter n =
    if n == 2 then pos 0 else if n == 1 then pos 1 else if n == 0 || n == 3 then pos 2 else negsuc 0

-- `curr->flag = 1; curr->num = kptr->num;`
unfoldable pub mark : ℕ → TreeItem → TreeItem
mark num null = null
mark num (item _ _ left right) = item num true left right

-- What the walk did below `curr->right` or `curr->left`, put back under `curr`; with it the key
-- bytes that follow the code.
abbrev pub Walked : Type 0
Walked = TreeItem × List ℕ

unfoldable pub on_right : TreeItem → (TreeItem → Run Walked) → Run Walked
unfolding alloc_if_null
on_right null walk = fault
on_right (item num flag left right) walk = do
  (right', rest) ← walk (alloc_if_null right)
  done (item num flag left right', rest)

unfoldable pub on_left : TreeItem → (TreeItem → Run Walked) → Run Walked
unfolding alloc_if_null
on_left null walk = fault
on_left (item num flag left right) walk = do
  (left', rest) ← walk (alloc_if_null left)
  done (item num flag left' right, rest)

-- `sprintf(result_string, "%s0", result_string)`, or with a 1, where the string has `len`
-- characters, and `char result_string[200]` has its terminator too. That source and target of
-- sprintf overlap is undefined in C; it is taken to append the character.
unfoldable pub append_char : ℕ → Run Walked → Run Walked
append_char len walked = if ltb (len + 1) 200 then walked else fault

-- What the loop does with a step, where result_string has `len` characters: it is emptied behind a
-- code. `walk` is the rest of the loop.
unfoldable pub take_step : ℤ → ℕ → List ℕ → ℕ → TreeItem → (TreeItem → Run Walked) → Run Walked
unfolding append_char on_left on_right mark
take_step (pos zero) num rest len curr walk = append_char len (on_right curr walk)
take_step (pos (suc zero)) num rest len curr walk = append_char len (on_left curr walk)
take_step (pos (suc (suc n))) num rest len curr walk = done (mark num curr, rest)
take_step (negsuc n) num rest len curr walk = exited 1

-- The inner loop, from `curr` on: the first byte is `*result_key`, of which `k` pairs of bits are
-- left, so `i` is `4 - k`; result_string has `len` characters. A read past the last byte is a fault.
unfoldable pub build_code : ℕ → List ℕ → ℕ → ℕ → TreeItem → Run Walked
unfolding key_trans_iter take_step
build_code num [] k len curr = fault
build_code num (v ∷ key) zero len curr = build_code num key 4 len curr
build_code num (v ∷ key) (suc k) len curr =
    take_step (key_trans_iter (v / 2 ^ (6 - 2 * (3 - k)) % 4)) num key len curr
      (build_code num (v ∷ key) k (len + 1))

-- The outer loop, from a root that is allocated; the keys that it has not read are returned, since
-- `*keybuf_ptr` is moved there.
unfoldable pub build_keys : ℕ → List ℕ → TreeItem → Run Walked
unfolding build_code
build_keys zero keybuf root = done (root, keybuf)
build_keys (suc non_zero_nums) [] root = fault
build_keys (suc non_zero_nums) (num ∷ key) root = do
  (root', keybuf) ← build_code num key 4 0 root
  build_keys non_zero_nums keybuf root'

unfoldable pub huffman_build : TreeItem → List ℕ → ℕ → Run Walked
unfolding alloc_if_null build_keys
huffman_build root keybuf non_zero_nums = build_keys non_zero_nums keybuf (alloc_if_null root)
