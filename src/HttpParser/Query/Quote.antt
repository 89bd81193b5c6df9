-- ===== src/HttpParser/Query/Quote.antt =====
-- Percent encoding, and its decoding by convert_query_string (http_parser/http_parser.c).
use old_tools.Common.{
  ℕ, zero, suc, ◌+◌, ◌-◌, ◌/◌, ◌%◌, ◌<◌, ◌≡◌, refl, ap, Bool, true, false, ◌&&◌, ◌||◌, Option, [],
  ◌∷◌, arith, ◌==◌, ==→eq, ltb, leb, if◌then◌else◌, Bool-cases, inl, inr, CString, FreeOf, contains,
  all,
}
use old_tools.Common.Run.{done, ◌>>=◌}
use old_tools.HttpParser.Query.{parse_hex, write_converted, c_string, convert_query_string}

-- Digits and small letters stand for themselves.
abbrev pub is_plain : ℕ → Bool
is_plain c = (leb b'0' c && leb c b'9') || (leb b'a' c && leb c b'z')

abbrev pub hex_char : ℕ → ℕ
hex_char n = if ltb n 10 then b'0' + n else b'a' - 10 + n

-- Percent encoding: any other byte is a `%` and two hexadecimal digits.
unfoldable pub quote : CString → CString
quote [] = []
quote (c ∷ s) =
    let rest = quote s in
    if is_plain c then c ∷ rest else b'%' ∷ hex_char (c / 16) ∷ hex_char (c % 16) ∷ rest

all_below : ℕ → (ℕ → Bool) → Bool
all_below zero p = true
all_below (suc n) p = p n && all_below n p

all_below_sound : (n : ℕ) (p : ℕ → Bool) (c : ℕ) → all_below n p ≡ true → c < n → p c ≡ true
unfolding all_below
all_below_sound zero p c h lt = absurd (omega arith)
all_below_sound (suc n) p c h lt = ground (arith, all_below_sound n p c)

hex_table : all_below 256 (λ c. parse_hex (hex_char (c / 16)) (hex_char (c % 16)) == c) ≡ true
unfolding all_below parse_hex
hex_table = refl

parse_hex-hex_char : (c : ℕ) → c < 256 → parse_hex (hex_char (c / 16)) (hex_char (c % 16)) ≡ c
parse_hex-hex_char c h = ==→eq (parse_hex (hex_char (c / 16)) (hex_char (c % 16))) c (
    all_below_sound 256 (λ x. parse_hex (hex_char (x / 16)) (hex_char (x % 16)) == x) c hex_table h)

-- A byte of a C string
abbrev pub is_char : ℕ → Bool
is_char c = ltb 0 c && ltb c 256

write_plain :
    (x : ℕ) (s : CString) (behind : Option ℕ)
    → (x == b'%') ≡ false
    → write_converted (x ∷ s) behind ≡ (write_converted s behind >>= λ t. done (x ∷ t))
unfolding write_converted
write_plain x [] behind h = rw h
write_plain x (a ∷ []) behind h = rw h
write_plain x (a ∷ b ∷ s) behind h = rw h

write_escape :
    (a b : ℕ) (s : CString) (behind : Option ℕ)
    → write_converted (b'%' ∷ a ∷ b ∷ s) behind
      ≡ (write_converted s behind >>= λ t. done (parse_hex a b ∷ t))
unfolding write_converted
write_escape a b s behind = refl

write_converted-quote :
    (s : CString) (behind : Option ℕ)
    → all is_char s ≡ true
    → write_converted (quote s) behind ≡ done s
unfolding quote
write_converted-quote [] behind h = unfold write_converted in refl
write_converted-quote (c ∷ s) behind h = elim (Bool-cases (is_plain c)) [
  | inl p ↦
      rw (p, write_plain c (quote s) behind (ground arith))
        (rw (write_converted-quote s behind (ground arith)))
  | inr p ↦
      rw (p, write_escape (hex_char (c / 16)) (hex_char (c % 16)) (quote s) behind)
        (rw (write_converted-quote s behind (ground arith))
          (ap (λ x. done (x ∷ s)) (parse_hex-hex_char c (ground arith))))
]

c_string-chars : (s : CString) → all is_char s ≡ true → c_string s ≡ s
unfolding c_string
c_string-chars [] h = refl
c_string-chars (c ∷ s) h = ground (arith, c_string-chars s)

-- Whatever stands behind the string, convert_query_string undoes percent encoding of every
-- string of bytes below 256 that are not 0.
pub convert_query_string-quote :
    (s : CString) (behind : Option ℕ)
    → all is_char s ≡ true
    → convert_query_string (quote s) behind ≡ done s
unfolding convert_query_string
convert_query_string-quote s behind h = rw (write_converted-quote s behind h, c_string-chars s h)

byte_high : (c : ℕ) → is_char c ≡ true → c / 16 < 16
byte_high c h = ground arith

hex_char_free : (n : ℕ) → n < 16 → contains (b' ' ∷ b'\r' ∷ b'\n' ∷ b'?' ∷ []) (hex_char n) ≡ false
hex_char_free n h = ground arith

-- The encoded text has none of the bytes by which a request is split.
pub quote-FreeOf :
    (s : CString) → all is_char s ≡ true → FreeOf (b' ' ∷ b'\r' ∷ b'\n' ∷ b'?' ∷ []) (quote s)
unfolding quote
quote-FreeOf [] h = tt
quote-FreeOf (c ∷ s) h = elim (Bool-cases (is_plain c)) [
  | inl p ↦ rw p (ground arith, quote-FreeOf s (ground arith))
  | inr p ↦ rw p (
    refl,
    (
      hex_char_free (c / 16) (byte_high c (ground arith)),
      (hex_char_free (c % 16) (omega arith), quote-FreeOf s (ground arith)),
    ),
  )
]
