-- ===== src/Huffman/Compress/Codes.antt =====
-- The code strings of the leaves, and the table of them at the head of the written file
-- (do_huffman in HuffmanCompress/HuffmanCompress.c).
pub mod Bounds
pub mod Laws
use old_tools.Common.{
  ℕ, zero, suc, ◌+◌, ◌-◌, ◌*◌, ◌/◌, ◌^◌, Bool, true, false, Option, none, some, List, [], ◌∷◌, ◌++◌,
  ◌==◌, ltb, if◌then◌else◌, get_elem?, length,
}
use old_tools.Common.Run.{Run, done, fault, ◌>>=◌}
use old_tools.Huffman.Bits.{Bits}
use old_tools.Huffman.Compress.Item.{Item, leaf, node}

-- The inner loop at byte `i` of `result`, with `rounds` values of `j` left: two bits for each
-- character, `01` for '1' and `10` for '0', until the string ends.
unfoldable pub result_byte : ℕ → ℕ → Bits → ℕ → ℕ → ℕ
result_byte zero j string i byte = byte
result_byte (suc rounds) j string i byte = elim (get_elem? string (i * 4 + j / 2)) [
  | none ↦ byte
  | some b ↦ result_byte rounds (j + 2) string i (byte + (if b then 1 else 2) * 2 ^ (6 - j))
]

-- `ret->result`: the outer loop, with `rounds` values of `i` left
unfoldable pub result_bytes : ℕ → ℕ → Bits → List ℕ
unfolding result_byte
result_bytes zero i string = []
result_bytes (suc rounds) i string = result_byte 4 0 string i 0 ∷ result_bytes rounds (i + 1) string

-- What do_huffman changes: `key_buf` up to `keybuf_off`, `items[num].result_string` by `num`, and
-- the global counter.
pub record Keys : Type 0 where
  pub key_buf : List ℕ
  pub codes : ℕ → Bits
  pub non_zero_nums : ℕ

-- Nothing is written yet, and every `result_string` is empty.
abbrev pub no_keys : Keys
no_keys = record { key_buf = []; codes = λ num. []; non_zero_nums = 0 }

-- The branch for a leaf. `result` has four bytes: a longer result is written past its end.
unfoldable pub put_key : ℕ → Bits → Keys → Run Keys
put_key num string k =
    let result_length = length string / 4 + 1 in
    if ltb 4 result_length
    then fault
    else done (record {
      key_buf = k.key_buf ++ (num ∷ result_bytes result_length 0 string);
      codes = λ b. if b == num then string else k.codes b;
      non_zero_nums = k.non_zero_nums + 1;
    })

-- `string` is the global `result_string`, which each call leaves as it found it. That source and
-- target of sprintf overlap is undefined in C; it is taken to append the character. A string too
-- long for the 20 characters of result_string is a fault at the first leaf below.
unfoldable pub do_huffman : Item → Bits → Keys → Run Keys
unfolding put_key
do_huffman (leaf num n) string k = put_key num string k
do_huffman (node n left right) string k = do
  k' ← do_huffman left (string ++ (true ∷ [])) k
  do_huffman right (string ++ (false ∷ [])) k'
