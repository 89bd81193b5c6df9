-- ===== src/Huffman/Compress/Writer.antt =====
-- The loop of main that writes the coded data (HuffmanCompress/HuffmanCompress.c).
pub mod Laws
use old_tools.Common.{
  ℕ, zero, suc, ◌+◌, ◌-◌, ◌*◌, ◌/◌, ◌%◌, Bool, true, false, not, List, [], ◌∷◌, ◌++◌, ◌==◌, leb,
  if◌then◌else◌, length, take, drop,
}
use old_tools.Huffman.Bits.{Bits, Cells, memcpy, pack}

-- BUFFER_LENGTH
abbrev pub buffer_length : ℕ
buffer_length = 1024

-- `strbuf_off / 8 + (strbuf_off % 8 != 0)`
abbrev pub bytes_for : ℕ → ℕ
bytes_for off = off / 8 + (if off % 8 == 0 then 0 else 1)

-- `string_buf` and `strbuf_off`, with what a round has written to the file
pub record Written : Type 0 where
  pub out : List ℕ
  pub string_buf : Cells
  pub strbuf_off : ℕ

-- The first branch: the buffer is filled and written out, and the rest of the code starts it anew.
unfoldable pub flush : Bits → Cells → ℕ → Written
unfolding memcpy pack
flush code buf off =
    let temp = buffer_length * 8 - off in
    let full = memcpy buf off (take temp code) in
    let rest = length code - temp in
    record {
      out = pack full 0 buffer_length;
      string_buf = if not (rest == 0) then memcpy full 0 (drop temp code) else full;
      strbuf_off = rest;
    }

-- The other branch: the code is appended, and after the last byte of the file the buffer is
-- written out.
unfoldable pub append : Bits → Bool → Cells → ℕ → Written
unfolding memcpy pack
append code last buf off =
    let buf' = memcpy buf off code in
    let off' = off + length code in
    record {
      out = if last then pack buf' 0 (bytes_for off') else [];
      string_buf = buf';
      strbuf_off = off';
    }

-- One round of the loop; `last` is `i == file_size - 1`.
unfoldable pub write_code : Bits → Bool → Cells → ℕ → Written
write_code code last buf off =
    if leb (buffer_length * 8) (off + length code)
    then flush code buf off
    else append code last buf off

abbrev pub is_nil : List ℕ → Bool
is_nil [] = true
is_nil (b ∷ bs) = false

-- The loop over the bytes of the file from the current one on
unfoldable pub write_data : (ℕ → Bits) → List ℕ → Cells → ℕ → List ℕ
write_data codes [] buf off = []
write_data codes (b ∷ rest) buf off =
    let w = write_code (codes b) (is_nil rest) buf off in
    w.out ++ write_data codes rest w.string_buf w.strbuf_off
