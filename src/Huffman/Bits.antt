-- ===== src/Huffman/Bits.antt =====
-- Code strings and the buffers of characters that HuffmanCompress.c packs into bytes. A character
-- is read only by `== '1'`, so a Boolean stands for it: `true` is '1'.
pub mod Laws
use old_tools.Common.{
  ℕ, zero, suc, ◌+◌, ◌-◌, ◌*◌, ◌/◌, ◌%◌, ◌^◌, ◌≡◌, refl, Bool, List, [], ◌∷◌, ◌++◌, arith, ◌==◌,
  if◌then◌else◌, length, take, ap, ap₂, ◌≤◌, ◌<◌, sym, ◌∙◌,
}

abbrev pub Bits : Type 0
Bits = List Bool

-- A buffer of characters, by index. What was never written has some value.
abbrev pub Cells : Type 0
Cells = ℕ → Bool

set_cell : Cells → ℕ → Bool → Cells
set_cell buf i b j = if j == i then b else buf j

-- `memcpy(buf + off, bits, length)`
unfoldable pub memcpy : Cells → ℕ → Bits → Cells
unfolding set_cell
memcpy buf off [] = buf
memcpy buf off (b ∷ bs) = memcpy (set_cell buf off b) (off + 1) bs

-- `*c == '1'`, as a number
unfoldable pub bit : Bool → ℕ
bit b = if b then 1 else 0

-- `str_to_unum(c, n)` on the buffer's characters from index `c`; the code calls it with 8 only,
-- and never with 0.
unfoldable pub str_to_unum : Cells → ℕ → ℕ → ℕ
unfolding bit
str_to_unum buf c zero = 0
str_to_unum buf c (suc zero) = bit (buf c)
str_to_unum buf c (suc (suc n)) = (bit (buf c) * 2 ^ suc n + str_to_unum buf (c + 1) (suc n)) % 256

-- `data_buf[j] = str_to_unum(string_buf + 8 * j, 8)` for `n` values of `j` from the given one.
unfoldable pub pack : Cells → ℕ → ℕ → List ℕ
unfolding str_to_unum
pack buf j zero = []
pack buf j (suc n) = str_to_unum buf (8 * j) 8 ∷ pack buf (j + 1) n

-- `(value >> (k - 1)) & 1` down to `value & 1`
unfoldable pub low_bits : ℕ → ℕ → Bits
low_bits zero value = []
low_bits (suc k) value = (value / 2 ^ k % 2 == 1) ∷ low_bits k value

-- The bits of a file's bytes, the highest first.
unfoldable pub bits_of : List ℕ → Bits
unfolding low_bits
bits_of [] = []
bits_of (v ∷ vs) = low_bits 8 v ++ bits_of vs

-- `n` characters from index `s`
unfoldable pub read : Cells → ℕ → ℕ → Bits
read buf s zero = []
read buf s (suc n) = buf s ∷ read buf (s + 1) n
