-- ===== src/Huffman/Compress/Writer/Laws.antt =====
-- What the loop that writes the coded data puts into the file (HuffmanCompress/HuffmanCompress.c).
use old_tools.Common.{
  ℕ, ◌+◌, ◌-◌, ◌*◌, ◌%◌, ◌≤◌, ◌<◌, ◌≡◌, refl, sym, ap, ap₂, ◌∙◌, ◌⊎◌, inl, inr, Bool, true, false,
  List, [], ◌∷◌, ◌++◌, append_assoc, append-nil, arith, ◌==◌, leb, ==→eq, length, length-append,
  take, drop, length-drop, drop_all, take_all, leb→le, leb→lt, take-append-drop, Bool-cases,
  if◌then◌else◌, length-take_le,
}
use old_tools.Huffman.Bits.{Bits, Cells, memcpy, bits_of, read}
use old_tools.Huffman.Bits.Laws.{
  length-read, read-add, read-memcpy, read-memcpy_append, bits_of-append, bits_of-pack,
}
use old_tools.Huffman.Compress.Writer.{
  buffer_length, bytes_for, flush, append, write_code, write_data, is_nil,
}

-- The codes of a file's bytes, one after the other
unfoldable pub encode : (ℕ → Bits) → List ℕ → Bits
encode codes [] = []
encode codes (b ∷ bs) = codes b ++ encode codes bs

-- The length of the code of the file's last byte
unfoldable pub last_length : (ℕ → Bits) → List ℕ → ℕ
last_length codes [] = 0
last_length codes (b ∷ []) = length (codes b)
last_length codes (b ∷ c ∷ bs) = last_length codes (c ∷ bs)

-- The last code does not end beyond a flush of the buffer.
abbrev pub TailKept : (ℕ → Bits) → ℕ → List ℕ → Type 0
TailKept codes off bs =
    (last_length codes bs ≤ (off + length (encode codes bs)) % (buffer_length * 8))
    ⊎ ((off + length (encode codes bs)) % (buffer_length * 8) ≡ 0)

-- The bits written: what the buffer held, the codes, and fewer than eight bits of padding.
pub record Carries (codes : ℕ → Bits) (bs : List ℕ) (buf : Cells) (off : ℕ) (out : List ℕ)
    : Type 0 where
  pub pad : Bits
  pub short : length pad < 8
  pub bits : bits_of out ≡ read buf 0 off ++ (encode codes bs ++ pad)

-- The bits of a flush, and the buffer after it
flush_bits :
    (code : Bits) (buf : Cells) (off : ℕ)
    → off < 8192
    → 8192 ≤ off + length code
    → bits_of (flush code buf off).out ≡ read buf 0 off ++ take (8192 - off) code
unfolding flush
flush_bits code buf off h k =
    bits_of-pack (memcpy buf off (take (8192 - off) code)) 0 1024
    ∙ ap (read (memcpy buf off (take (8192 - off) code)) 0) {x = 8192} {y = off + (8192 - off)}
        (omega arith)
    ∙ read-memcpy_append buf off (8192 - off) (take (8192 - off) code)
        (omega (arith, length-take_le (8192 - off) code (omega arith)))
    ∙ ap (λ r. read buf 0 off ++ r)
        (take_all (8192 - off) (take (8192 - off) code)
          (omega (arith, length-take_le (8192 - off) code (omega arith))))

read-flush :
    (code : Bits) (buf : Cells) (off : ℕ)
    → read (flush code buf off).string_buf 0 (flush code buf off).strbuf_off
      ≡ drop (8192 - off) code
unfolding flush read
read-flush code buf off = elim (Bool-cases (length code - (8192 - off) == 0)) [
  | inl e ↦ rw e (
      ap (read (memcpy buf off (take (8192 - off) code)) 0) {x = length code - (8192 - off)} {y = 0}
        (==→eq (length code - (8192 - off)) 0 e)
      ∙ sym (drop_all (8192 - off) code (omega (arith, ==→eq (length code - (8192 - off)) 0 e))))
  | inr e ↦ rw e (
      read-memcpy (drop (8192 - off) code) (memcpy buf off (take (8192 - off) code)) 0
        (length code - (8192 - off)) (omega (arith, length-drop (8192 - off) code))
      ∙ take_all (length code - (8192 - off)) (drop (8192 - off) code)
          (omega (arith, length-drop (8192 - off) code)))
]

read-append :
    (code : Bits) (last : Bool) (buf : Cells) (off : ℕ)
    → read (append code last buf off).string_buf 0 (append code last buf off).strbuf_off
      ≡ read buf 0 off ++ code
unfolding append
read-append code last buf off =
    read-memcpy_append buf off (length code) code (omega arith)
    ∙ ap (λ r. read buf 0 off ++ r) (take_all (length code) code (omega arith))

-- After the last byte the buffer is written out up to the end of its last byte.
append_bits :
    (code : Bits) (buf : Cells) (off : ℕ)
    → (pad : Bits) × (length pad < 8)
      × (bits_of (append code true buf off).out ≡ read buf 0 off ++ (code ++ pad))
unfolding append
append_bits code buf off =
    let end = off + length code in
    let buf' = memcpy buf off code in
    let more = 8 * bytes_for end - end in
    let size : (end ≤ 8 * bytes_for end) × (more < 8) = ground arith in
    (
      read buf' end more,
      omega (arith, length-read buf' end more),
      bits_of-pack buf' 0 (bytes_for end)
          ∙ ap (read buf' 0) {x = 8 * bytes_for end} {y = end + more} (omega arith)
          ∙ read-add buf' 0 end more
          ∙ ap₂ ◌++◌ (read-append code true buf off)
              (ap (λ k. read buf' k more) {x = 0 + end} {y = end} (omega arith))
          ∙ append_assoc (read buf 0 off) code (read buf' end more),
    )

module _ (codes : ℕ → Bits) (b : ℕ) where
  write_data-flush :
      (bs : List ℕ) (buf : Cells) (off : ℕ)
      → leb 8192 (off + length (codes b)) ≡ true
      → let w = flush (codes b) buf off in
        write_data codes (b ∷ bs) buf off ≡ w.out ++ write_data codes bs w.string_buf w.strbuf_off
  unfolding write_data write_code
  write_data-flush bs buf off e =
      ap (λ w. w.out ++ write_data codes bs w.string_buf w.strbuf_off)
        (ap (λ t. if t then flush (codes b) buf off else append (codes b) (is_nil bs) buf off) e)

  write_data-append :
      (bs : List ℕ) (buf : Cells) (off : ℕ)
      → leb 8192 (off + length (codes b)) ≡ false
      → let w = append (codes b) (is_nil bs) buf off in
        write_data codes (b ∷ bs) buf off ≡ w.out ++ write_data codes bs w.string_buf w.strbuf_off
  unfolding write_data write_code
  write_data-append bs buf off e =
      ap (λ w. w.out ++ write_data codes bs w.string_buf w.strbuf_off)
        (ap (λ t. if t then flush (codes b) buf off else append (codes b) (is_nil bs) buf off) e)

  encode_step :
      (bs : List ℕ) (front half rest pad : Bits)
      → half ++ rest ≡ codes b
      → (front ++ half) ++ (rest ++ (encode codes bs ++ pad))
        ≡ front ++ (encode codes (b ∷ bs) ++ pad)
  unfolding encode
  encode_step bs front half rest pad e = rw (← e) (simp append_assoc)

  Carries-flush :
      (bs : List ℕ) (buf : Cells) (off : ℕ) (out : List ℕ)
      → off < 8192
      → 8192 ≤ off + length (codes b)
      → Carries codes bs
          (flush (codes b) buf off).string_buf
          (flush (codes b) buf off).strbuf_off
          out
      → Carries codes (b ∷ bs) buf off ((flush (codes b) buf off).out ++ out)
  Carries-flush bs buf off out h k rest = record {
    pad = rest.pad;
    short = rest.short;
    bits =
        bits_of-append (flush (codes b) buf off).out out
        ∙ ap₂ ◌++◌ (flush_bits (codes b) buf off h k) (
            rest.bits ∙ ap (λ r. r ++ (encode codes bs ++ rest.pad)) (read-flush (codes b) buf off))
        ∙ encode_step bs (read buf 0 off) (take (8192 - off) (codes b))
            (drop (8192 - off) (codes b)) rest.pad (take-append-drop (8192 - off) (codes b));
  }

  Carries-append :
      (bs : List ℕ) (buf : Cells) (off : ℕ) (out : List ℕ)
      → Carries codes bs
          (append (codes b) false buf off).string_buf
          (append (codes b) false buf off).strbuf_off
          out
      → Carries codes (b ∷ bs) buf off ((append (codes b) false buf off).out ++ out)
  unfolding append
  Carries-append bs buf off out rest = record {
    pad = rest.pad;
    short = rest.short;
    bits =
        rest.bits
        ∙ ap (λ r. r ++ (encode codes bs ++ rest.pad)) (read-append (codes b) false buf off)
        ∙ encode_step bs (read buf 0 off) (codes b) [] rest.pad (append-nil (codes b));
  }

  -- A flush that the tail does not outlive leaves nothing in the buffer.
  strbuf_off-last :
      (buf : Cells) (off : ℕ)
      → off < 8192
      → 8192 ≤ off + length (codes b)
      → length (codes b) < 8192
      → TailKept codes off (b ∷ [])
      → (flush (codes b) buf off).strbuf_off ≡ 0
  unfolding encode last_length flush
  strbuf_off-last buf off h k short (inl p) = absurd (omega (arith, length-append (codes b) []))
  strbuf_off-last buf off h k short (inr p) = omega (arith, length-append (codes b) [])

  -- How the last byte is written
  Carries-last :
      (buf : Cells) (off : ℕ)
      → off < 8192
      → length (codes b) < 8192
      → TailKept codes off (b ∷ [])
      → Carries codes (b ∷ []) buf off (write_data codes (b ∷ []) buf off)
  unfolding write_data encode read bits_of
  Carries-last buf off h short kept = elim (Bool-cases (leb 8192 (off + length (codes b)))) [
    | inl e ↦
        let k = leb→le 8192 (off + length (codes b)) e in
        let w = flush (codes b) buf off in
        rw (write_data-flush [] buf off e) (
          Carries-flush [] buf off [] h k (record {
            pad = [];
            short = omega arith;
            bits =
                ap (λ n. read w.string_buf 0 n ++ [])
                  (sym (strbuf_off-last buf off h k short kept));
          }))
    | inr e ↦
        let (pad, p, q) = append_bits (codes b) buf off in
        rw (write_data-append [] buf off e, append-nil)
          (record {
            pad = pad;
            short = p;
            bits = q ∙ ap (λ c. read buf 0 off ++ (c ++ pad)) (sym (append-nil (codes b)));
          })
  ]

TailKept-tail :
    (codes : ℕ → Bits) (b c : ℕ) (bs : List ℕ) (off off' : ℕ)
    → (off' + length (encode codes (c ∷ bs))) % 8192
      ≡ (off + length (codes b) + length (encode codes (c ∷ bs))) % 8192
    → TailKept codes off (b ∷ c ∷ bs)
    → TailKept codes off' (c ∷ bs)
unfolding last_length encode
TailKept-tail codes b c bs off off' e (inl k) =
    inl (omega (arith, length-append (codes b) (codes c ++ encode codes bs)))
TailKept-tail codes b c bs off off' e (inr k) =
    inr (omega (arith, length-append (codes b) (codes c ++ encode codes bs)))

-- If every code is shorter than the character buffer, the offset lies in it, and the last code
-- does not end beyond a flush, the bytes written for the rest of a file carry the characters
-- that the buffer holds, the codes of the bytes in order, and then fewer than eight bits of
-- padding.
pub write_data-Carries :
    (codes : ℕ → Bits) (b : ℕ) (bs : List ℕ) (buf : Cells) (off : ℕ)
    → off < 8192
    → ((c : ℕ) → length (codes c) < 8192)
    → TailKept codes off (b ∷ bs)
    → Carries codes (b ∷ bs) buf off (write_data codes (b ∷ bs) buf off)
write_data-Carries codes b [] buf off h short kept = Carries-last codes b buf off h (short b) kept
write_data-Carries codes b (c ∷ bs) buf off h short kept =
    elim (Bool-cases (leb 8192 (off + length (codes b)))) [
      | inl e ↦
          let fits = leb→le 8192 (off + length (codes b)) e in
          let w = flush (codes b) buf off in
          rw (write_data-flush codes b (c ∷ bs) buf off e) (
            Carries-flush codes b (c ∷ bs) buf off
              (write_data codes (c ∷ bs) w.string_buf w.strbuf_off) h fits
              (write_data-Carries codes c bs w.string_buf w.strbuf_off
                (unfold flush in omega (arith, short b)) short
                (TailKept-tail codes b c bs off w.strbuf_off (unfold flush in omega arith) kept)))
      | inr e ↦
          let w = append (codes b) false buf off in
          rw (write_data-append codes b (c ∷ bs) buf off e) (
            Carries-append codes b (c ∷ bs) buf off
              (write_data codes (c ∷ bs) w.string_buf w.strbuf_off)
              (write_data-Carries codes c bs w.string_buf w.strbuf_off
                (unfold append in leb→lt 8192 (off + length (codes b)) e) short
                (TailKept-tail codes b c bs off w.strbuf_off (unfold append in refl) kept)))
    ]
