-- ===== src/Huffman/Compress/Main.antt =====
-- main of HuffmanCompress/HuffmanCompress.c, from the bytes of the file to what is written.
use old_tools.Common.{
  ℕ, ◌^◌, Bool, Option, none, some, List, [], ◌∷◌, ◌++◌, ◌==◌, if◌then◌else◌, length, get_elem?,
  true,
}
use old_tools.Common.Run.{Run, done, exited, fault, ◌>>=◌}
use old_tools.Huffman.Bits.{Cells}
use old_tools.Huffman.Compress.Item.{Item, leaf, node, Qsort, ntimes, counted, build_tree}
use old_tools.Huffman.Compress.Codes.{Keys, no_keys, do_huffman}
use old_tools.Huffman.Compress.Writer.{write_data}
use Prim.Native.String.{String}

-- The written file: the fields of `head_t`, and the bytes that follow the header.
pub record Archive : Type 0 where
  pub magic_word : String
  pub file_size : ℕ
  pub non_zero_nums : ℕ
  pub body : List ℕ

abbrev pub is_all : ℕ → Option Item → Bool
is_all file_size none = true
is_all file_size (some item) = ntimes item == file_size

-- `items[0].ntimes == file_size`, asked before the items are sorted
abbrev pub one_character_flag : List ℕ → List Item → Bool
one_character_flag buf items = is_all (length buf) (get_elem? items 0)

-- The branch for a file of a single character: the key and code of `head_item->num`
unfoldable pub one_character : Item → Run Keys
one_character (leaf num n) = done (record {
  key_buf = num ∷ 2 ^ 6 ∷ [];
  codes = λ b. if b == num then true ∷ [] else [];
  non_zero_nums = 1;
})
one_character (node n left right) = fault

unfoldable pub make_keys : Bool → Item → Run Keys
make_keys flag head_item = if flag then one_character head_item else do_huffman head_item [] no_keys

-- `head`, then `key_buf`, then the coded data
unfoldable pub write_archive : Cells → List ℕ → Keys → Archive
write_archive string_buf buf k = record {
  magic_word = "ccsexyz";
  file_size = length buf;
  non_zero_nums = k.non_zero_nums;
  body = k.key_buf ++ write_data k.codes buf string_buf 0;
}

-- From the counted items on
unfoldable pub compress_items : Qsort → Cells → List ℕ → List Item → Run Archive
unfolding build_tree make_keys write_archive
compress_items qsort string_buf buf items = do
  head_item ← build_tree qsort items
  k ← make_keys (one_character_flag buf items) head_item
  done (write_archive string_buf buf k)

-- `string_buf` has the values that the stack happened to hold. An empty file is refused. The other
-- `int`s that index the file do not overflow if that of count_numbers does not.
unfoldable pub compress : Qsort → Cells → List ℕ → Run Archive
unfolding counted compress_items
compress qsort string_buf [] = exited 1
compress qsort string_buf (b ∷ bs) = counted (b ∷ bs) >>= compress_items qsort string_buf (b ∷ bs)
