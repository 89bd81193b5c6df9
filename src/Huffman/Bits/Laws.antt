-- ===== src/Huffman/Bits/Laws.antt =====
-- What a buffer holds after `memcpy`, and which bits its packed bytes carry.
use old_tools.Common.{
  ℕ, zero, suc, ◌+◌, ◌*◌, ◌≡◌, refl, Bool, true, false, List, [], ◌∷◌, ◌++◌, arith, length, take,
  ap, ap₂, ◌≤◌, ◌<◌, sym, ◌∙◌, append_assoc, ◌==◌,
}
use old_tools.Huffman.Bits.{
  Bits, Cells, memcpy, set_cell, str_to_unum, pack, bit, low_bits, bits_of, read,
}

memcpy_below : (bs : Bits) (buf : Cells) (off j : ℕ) → j < off → memcpy buf off bs j ≡ buf j
unfolding memcpy
memcpy_below [] buf off j h = refl
memcpy_below (b ∷ bs) buf off j h =
    memcpy_below bs (set_cell buf off b) (off + 1) j (omega arith) ∙ ground arith

memcpy_head : (b : Bool) (bs : Bits) (buf : Cells) (off : ℕ) → memcpy buf off (b ∷ bs) off ≡ b
unfolding memcpy
memcpy_head b bs buf off =
    memcpy_below bs (set_cell buf off b) (off + 1) off (omega arith) ∙ ground arith

pub length-read : (buf : Cells) (s n : ℕ) → length (read buf s n) ≡ n
unfolding read
length-read buf s zero = refl
length-read buf s (suc n) = ap suc (length-read buf (s + 1) n)

pub read-add : (buf : Cells) (s a b : ℕ) → read buf s (a + b) ≡ read buf s a ++ read buf (s + a) b
unfolding read
read-add buf s zero b = ap₂ (read buf) (omega arith) (omega arith)
read-add buf s (suc a) b =
    ap (read buf s) {x = suc a + b} {y = suc (a + b)} (omega arith)
    ∙ ap (λ r. buf s ∷ r)
        (read-add buf (s + 1) a b
          ∙ ap (λ k. read buf (s + 1) a ++ read buf k b) {x = s + 1 + a} {y = s + suc a}
              (omega arith))

-- `memcpy` leaves what lies below it.
pub read-memcpy_below :
    (buf : Cells) (off : ℕ) (bs : Bits) (s n : ℕ)
    → s + n ≤ off
    → read (memcpy buf off bs) s n ≡ read buf s n
unfolding read
read-memcpy_below buf off bs s zero h = refl
read-memcpy_below buf off bs s (suc n) h =
    ap₂ ◌∷◌ (memcpy_below bs buf off s (omega arith))
      (read-memcpy_below buf off bs (s + 1) n (omega arith))

-- What `memcpy` wrote is read back.
pub read-memcpy :
    (bs : Bits) (buf : Cells) (off n : ℕ)
    → n ≤ length bs
    → read (memcpy buf off bs) off n ≡ take n bs
unfolding read memcpy
read-memcpy bs buf off zero h = refl
read-memcpy [] buf off (suc n) h = absurd (omega arith)
read-memcpy (b ∷ bs) buf off (suc n) h =
    ap₂ ◌∷◌ (memcpy_head b bs buf off)
      (read-memcpy bs (set_cell buf off b) (off + 1) n (omega arith))

-- Both at once: the characters in front of a `memcpy`, and those it wrote.
pub read-memcpy_append :
    (buf : Cells) (off n : ℕ) (bs : Bits)
    → n ≤ length bs
    → read (memcpy buf off bs) 0 (off + n) ≡ read buf 0 off ++ take n bs
read-memcpy_append buf off n bs h =
    read-add (memcpy buf off bs) 0 off n
    ∙ ap₂ ◌++◌ (read-memcpy_below buf off bs 0 off (omega arith)) (
        ap (λ k. read (memcpy buf off bs) k n) {x = 0 + off} {y = off} (omega arith)
        ∙ read-memcpy bs buf off n h)

bit-le : (b : Bool) → bit b ≤ 1
unfolding bit
bit-le true = omega arith
bit-le false = omega arith

==_bit : (b : Bool) {n : ℕ} → n ≡ bit b → (n == 1) ≡ b
unfolding bit
==_bit true h = ground arith
==_bit false h = ground arith

-- The number whose binary digits are these eight characters.
abbrev byte : Bool → Bool → Bool → Bool → Bool → Bool → Bool → Bool → ℕ
byte a b c d e f g h =
    bit a * 128 + bit b * 64 + bit c * 32 + bit d * 16 + bit e * 8 + bit f * 4 + bit g * 2 + bit h

low_bits-byte :
    (a b c d e f g h : Bool)
    → low_bits 8 (byte a b c d e f g h) ≡ a ∷ b ∷ c ∷ d ∷ e ∷ f ∷ g ∷ h ∷ []
unfolding low_bits
low_bits-byte a b c d e f g h =
    let la = bit-le a in
    let lb = bit-le b in
    let lc = bit-le c in
    let ld = bit-le d in
    let le = bit-le e in
    let lf = bit-le f in
    let lg = bit-le g in
    let lh = bit-le h in
    ap₂ ◌∷◌ (==_bit a (omega arith)) (
      ap₂ ◌∷◌ (==_bit b (omega arith)) (
        ap₂ ◌∷◌ (==_bit c (omega arith)) (
          ap₂ ◌∷◌ (==_bit d (omega arith)) (
            ap₂ ◌∷◌ (==_bit e (omega arith)) (
              ap₂ ◌∷◌ (==_bit f (omega arith))
                (ap₂ ◌∷◌ (==_bit g (omega arith)) (ap₂ ◌∷◌ (==_bit h (omega arith)) refl)))))))

-- The recursion of `str_to_unum` never reaches 256, so its bytes do not wrap.
str_to_unum-byte :
    (buf : Cells) (c : ℕ)
    → str_to_unum buf c 8
      ≡ byte
          (buf c)
          (buf (c + 1))
          (buf (c + 1 + 1))
          (buf (c + 1 + 1 + 1))
          (buf (c + 1 + 1 + 1 + 1))
          (buf (c + 1 + 1 + 1 + 1 + 1))
          (buf (c + 1 + 1 + 1 + 1 + 1 + 1))
          (buf (c + 1 + 1 + 1 + 1 + 1 + 1 + 1))
unfolding str_to_unum
str_to_unum-byte buf c = omega (arith, bit-le)

-- A byte that `str_to_unum` made has the characters it was made of as its bits.
low_bits-str_to_unum : (buf : Cells) (c : ℕ) → low_bits 8 (str_to_unum buf c 8) ≡ read buf c 8
unfolding read
low_bits-str_to_unum buf c =
    ap (low_bits 8) (str_to_unum-byte buf c)
    ∙ low_bits-byte (buf c) (buf (c + 1)) (buf (c + 1 + 1)) (buf (c + 1 + 1 + 1))
        (buf (c + 1 + 1 + 1 + 1)) (buf (c + 1 + 1 + 1 + 1 + 1)) (buf (c + 1 + 1 + 1 + 1 + 1 + 1))
        (buf (c + 1 + 1 + 1 + 1 + 1 + 1 + 1))

pub bits_of-append : (us vs : List ℕ) → bits_of (us ++ vs) ≡ bits_of us ++ bits_of vs
unfolding bits_of
bits_of-append [] vs = refl
bits_of-append (u ∷ us) vs =
    ap (λ r. low_bits 8 u ++ r) (bits_of-append us vs)
    ∙ sym (append_assoc (low_bits 8 u) (bits_of us) (bits_of vs))

-- The packed bytes carry the buffer's characters in order.
pub bits_of-pack : (buf : Cells) (j n : ℕ) → bits_of (pack buf j n) ≡ read buf (8 * j) (8 * n)
unfolding bits_of pack read
bits_of-pack buf j zero = ap (read buf (8 * j)) {x = 0} {y = 8 * 0} refl
bits_of-pack buf j (suc n) =
    ap₂ ◌++◌ (low_bits-str_to_unum buf (8 * j)) (
      bits_of-pack buf (j + 1) n
      ∙ ap (λ k. read buf k (8 * n)) {x = 8 * (j + 1)} {y = 8 * j + 8} (omega arith))
    ∙ sym (read-add buf (8 * j) 8 (8 * n))
    ∙ ap (read buf (8 * j)) {x = 8 + 8 * n} {y = 8 * suc n} (omega arith)
