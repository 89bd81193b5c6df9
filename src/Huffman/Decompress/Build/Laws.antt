-- ===== src/Huffman/Decompress/Build/Laws.antt =====
-- What the decompressor's loop does for one key: it marks the node that the code leads to.
use old_tools.Common.{
  ℕ, suc, ◌-◌, ◌*◌, ◌/◌, ◌%◌, ◌^◌, ◌≡◌, refl, Bool, true, false, List, [], ◌∷◌, if◌then◌else◌, ◌+◌,
  ◌<◌, length, arith, lt→ltb,
}
use old_tools.Common.Run.{done}
use old_tools.Huffman.Bits.{Bits}
use old_tools.Huffman.Decompress.Build.{
  TreeItem, null, item, alloc_new_item, alloc_if_null, key_trans_iter, mark, take_step, append_char,
  on_left, on_right, build_code,
}

-- `num` stored at the end of `code`, with the nodes allocated on the way
unfoldable pub put : Bits → ℕ → TreeItem → TreeItem
unfolding mark alloc_if_null
put [] num t = mark num t
put (b ∷ code) num null = null
put (true ∷ code) num (item n flag left right) =
    item n flag (put code num (alloc_if_null left)) right
put (false ∷ code) num (item n flag left right) =
    item n flag left (put code num (alloc_if_null right))

abbrev pub IsItem : TreeItem → Type 0
IsItem t = alloc_if_null t ≡ t

pub alloc_if_null-IsItem : (t : TreeItem) → IsItem (alloc_if_null t)
unfolding alloc_if_null alloc_new_item
alloc_if_null-IsItem null = refl
alloc_if_null-IsItem (item num flag left right) = refl

pub put_item-IsItem :
    (code : Bits) (num n : ℕ) (flag : Bool) (left right : TreeItem)
    → IsItem (put code num (item n flag left right))
unfolding put alloc_if_null mark
put_item-IsItem [] num n flag left right = refl
put_item-IsItem (true ∷ code) num n flag left right = refl
put_item-IsItem (false ∷ code) num n flag left right = refl

-- The pair of bits that the loop reads with `k + 1` of them left
abbrev pub pair : ℕ → ℕ → ℕ
pair v k = v / 2 ^ (6 - 2 * (3 - k)) % 4

abbrev pub symbol : Bool → ℕ
symbol b = if b then 1 else 2

-- The key bytes from `v` on, with `k` pairs left in it, spell a code, end, and leave `rest`.
pub data Spells (rest : List ℕ) : ℕ → ℕ → List ℕ → Bits → Type 0 where
  stop : {k v : ℕ} → (pair v k ≡ 0) → Spells rest (suc k) v rest []
  step :
      {k v : ℕ} {key : List ℕ} {code : Bits} (b : Bool)
      → pair v k ≡ symbol b
      → Spells rest k v key code
      → Spells rest (suc k) v key (b ∷ code)
  next :
      {v v' : ℕ} {key : List ℕ} {code : Bits}
      → Spells rest 4 v' key code
      → Spells rest 0 v (v' ∷ key) code

-- The walk along a key does what `put` does, and stops behind the key, if result_string has room
-- for the code.
pub build_code-Spells :
    {rest : List ℕ} {k v : ℕ} {key : List ℕ} {code : Bits} (num len : ℕ) (curr : TreeItem)
    → IsItem curr
    → Spells rest k v key code
    → len + length code < 200
    → build_code num (v ∷ key) k len curr ≡ done (put code num curr, rest)
unfolding build_code put key_trans_iter take_step on_left on_right mark alloc_if_null alloc_new_item
    append_char
build_code-Spells num len null h s room = cc
build_code-Spells num len (item n flag left right) h (stop e) room = rw e
build_code-Spells num len (item n flag left right) h (step true e s) room =
    rw (e, lt→ltb (len + 1) 200 (omega arith))
      (rw (
        build_code-Spells num (len + 1) (alloc_if_null left) (alloc_if_null-IsItem left) s
          (omega arith)))
build_code-Spells num len (item n flag left right) h (step false e s) room =
    rw (e, lt→ltb (len + 1) 200 (omega arith))
      (rw (
        build_code-Spells num (len + 1) (alloc_if_null right) (alloc_if_null-IsItem right) s
          (omega arith)))
build_code-Spells num len (item n flag left right) h (next s) room =
    build_code-Spells num len (item n flag left right) h s room
