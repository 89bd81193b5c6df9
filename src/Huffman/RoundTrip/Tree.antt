-- ===== src/Huffman/RoundTrip/Tree.antt =====
-- huffman_build of HuffmanDecompress.c at the keys that do_huffman of HuffmanCompress.c writes.
use old_tools.Common.{
  ℕ, suc, ◌+◌, ◌≡◌, refl, ap, ap₂, ◌∙◌, Bool, true, false, List, [], ◌∷◌, ◌++◌, append_assoc, arith,
  length, length-append, ◌<◌,
}
use old_tools.Common.Run.{done}
use old_tools.Huffman.Bits.{Bits}
use old_tools.Huffman.Compress.Item.{Item, leaf, node}
use old_tools.Huffman.Compress.Codes.Laws.{
  keys_of, leaves, height, SpellsKey, spells, key_of-SpellsKey,
}
use old_tools.Huffman.Decompress.Build.{
  TreeItem, null, item, alloc_new_item, alloc_if_null, mark, build_code, build_keys, huffman_build,
}
use old_tools.Huffman.Decompress.Build.Laws.{
  put, IsItem, alloc_if_null-IsItem, put_item-IsItem, build_code-Spells,
}

-- The tree that decodes the codes of `t`: children as in `t`, and the leaves flagged
unfoldable pub tree_of : Item → TreeItem
tree_of (leaf num n) = item num true null null
tree_of (node n left right) = item 0 false (tree_of left) (tree_of right)

-- `put` for each leaf in the order of the keys
put_all : Item → Bits → TreeItem → TreeItem
put_all (leaf num n) string root = put string num root
put_all (node n left right) string root =
    put_all right (string ++ (false ∷ [])) (put_all left (string ++ (true ∷ [])) root)

put-IsItem : (code : Bits) (num : ℕ) (t : TreeItem) → IsItem t → IsItem (put code num t)
unfolding alloc_if_null alloc_new_item
put-IsItem code num null h = cc
put-IsItem code num (item n flag left right) h = put_item-IsItem code num n flag left right

put_all-IsItem :
    (t : Item) (string : Bits) (root : TreeItem) → IsItem root → IsItem (put_all t string root)
unfolding put_all
put_all-IsItem (leaf num n) string root h = put-IsItem string num root h
put_all-IsItem (node n left right) string root h =
    put_all-IsItem right (string ++ (false ∷ [])) (put_all left (string ++ (true ∷ [])) root)
      (put_all-IsItem left (string ++ (true ∷ [])) root h)

build_code-key :
    {bytes : List ℕ} {rest : List ℕ} {code : Bits} (num : ℕ) (curr : TreeItem)
    → IsItem curr
    → SpellsKey rest code bytes
    → length code < 200
    → build_code num bytes 4 0 curr ≡ done (put code num curr, rest)
build_code-key num curr h (spells s) room = build_code-Spells num 0 curr h s (omega arith)

build_keys-put_all :
    (t : Item) (string : Bits) (rest : List ℕ) (m n : ℕ) (root : TreeItem)
    → n ≡ leaves t + m
    → length string + height t < 200
    → IsItem root
    → build_keys n (keys_of t string ++ rest) root ≡ build_keys m rest (put_all t string root)
unfolding keys_of leaves height put_all build_keys
build_keys-put_all (leaf num w) string rest m n root e room h =
    let e' : n ≡ suc m = omega arith in
    rw e' (rw (build_code-key num root h (key_of-SpellsKey string rest) (omega arith)))
build_keys-put_all (node w left right) string rest m n root e room h =
    let on_left = string ++ (true ∷ []) in
    let on_right = string ++ (false ∷ []) in
    rw (append_assoc (keys_of left on_left) (keys_of right on_right) rest) (
      build_keys-put_all left on_left (keys_of right on_right ++ rest) (leaves right + m) n root
        (omega arith) (omega (arith, length-append string (true ∷ []))) h
      ∙ build_keys-put_all right on_right rest m (leaves right + m) (put_all left on_left root) refl
          (omega (arith, length-append string (false ∷ []))) (put_all-IsItem left on_left root h))

-- Below the left child only the left child changes.
put_all_left :
    (t : Item) (string : Bits) (n : ℕ) (flag : Bool) (left right : TreeItem)
    → put_all t (true ∷ string) (item n flag left right)
      ≡ item n flag (put_all t string (alloc_if_null left)) right
unfolding put_all put
put_all_left (leaf num w) string n flag left right = refl
put_all_left (node w l r) string n flag left right =
    rw (put_all_left l (string ++ (true ∷ [])) n flag left right) (
      put_all_left r (string ++ (false ∷ [])) n flag
        (put_all l (string ++ (true ∷ [])) (alloc_if_null left)) right
      ∙ ap (λ x. item n flag (put_all r (string ++ (false ∷ [])) x) right)
          (put_all-IsItem l (string ++ (true ∷ [])) (alloc_if_null left)
            (alloc_if_null-IsItem left)))

put_all_right :
    (t : Item) (string : Bits) (n : ℕ) (flag : Bool) (left right : TreeItem)
    → put_all t (false ∷ string) (item n flag left right)
      ≡ item n flag left (put_all t string (alloc_if_null right))
unfolding put_all put
put_all_right (leaf num w) string n flag left right = refl
put_all_right (node w l r) string n flag left right =
    rw (put_all_right l (string ++ (true ∷ [])) n flag left right) (
      put_all_right r (string ++ (false ∷ [])) n flag left
        (put_all l (string ++ (true ∷ [])) (alloc_if_null right))
      ∙ ap (λ x. item n flag left (put_all r (string ++ (false ∷ [])) x))
          (put_all-IsItem l (string ++ (true ∷ [])) (alloc_if_null right)
            (alloc_if_null-IsItem right)))

put_all-tree_of : (t : Item) → put_all t [] alloc_new_item ≡ tree_of t
unfolding put_all put mark tree_of alloc_new_item alloc_if_null
put_all-tree_of (leaf num w) = refl
put_all-tree_of (node w l r) = rw (put_all_left l [] 0 false null null) (
    put_all_right r [] 0 false (put_all l [] alloc_new_item) null
    ∙ ap₂ (item 0 false) (put_all-tree_of l) (put_all-tree_of r))

-- From the keys of a tree less than 200 deep, and whatever data follows them, huffman_build
-- makes, without writing outside of result_string, the tree with the same shape whose flagged
-- leaves have the same bytes, and it stops exactly where the data begins.
pub huffman_build-keys_of :
    (t : Item) (rest : List ℕ)
    → height t < 200
    → huffman_build null (keys_of t [] ++ rest) (leaves t) ≡ done (tree_of t, rest)
unfolding huffman_build build_keys alloc_if_null
huffman_build-keys_of t rest room =
    build_keys-put_all t [] rest 0 (leaves t) alloc_new_item (omega arith) (omega arith)
      (alloc_if_null-IsItem null)
    ∙ ap (λ x. done (x, rest)) (put_all-tree_of t)
