-- ===== src/HttpParser/Query.antt =====
-- Percent decoding of the query (parse_hex and convert_query_string in http_parser/http_parser.c).
pub mod Quote
use old_tools.Common.{
  ℕ, zero, suc, ◌+◌, ◌-◌, ◌*◌, ◌/◌, ◌%◌, ◌≡◌, refl, ap, ◌∙◌, Bool, true, false, ◌&&◌, Option, none,
  some, List, [], ◌∷◌, ◌++◌, ◌==◌, leb, if◌then◌else◌, CString, arith, ◌<◌,
}
use Prim.Native.Nat.{bit_or}
use old_tools.Common.Run.{Run, done, fault, ◌>>=◌}

-- `n1` or `n2`, modulo 256: the code's `int` may be negative or large for a character that is no
-- hexadecimal digit, and the result is cut to a byte.
unfoldable pub hex_digit : ℕ → ℕ
hex_digit c = if leb b'0' c && leb c b'9' then c - b'0' else (bit_or c 32 + 256 - b'a' + 10) % 256

unfoldable pub parse_hex : ℕ → ℕ → ℕ
unfolding hex_digit
parse_hex c d = (hex_digit c * 16 + hex_digit d) % 256

-- A `%` at the end is decoded with the terminator and the byte behind it.
unfoldable pub hex_at_end : Option ℕ → Run (List ℕ)
hex_at_end none = fault
hex_at_end (some c) = done (parse_hex 0 c ∷ [])

-- The bytes that the loop writes to `ret`; a `%00` writes a zero among them.
unfoldable pub write_converted : CString → Option ℕ → Run (List ℕ)
unfolding hex_at_end
write_converted [] behind = done []
write_converted (x ∷ []) behind = if x == b'%' then hex_at_end behind else done (x ∷ [])
write_converted (x ∷ a ∷ []) behind =
    let rest = write_converted (a ∷ []) behind in
    if x == b'%' then done (parse_hex a 0 ∷ []) else (rest >>= λ s. done (x ∷ s))
write_converted (x ∷ a ∷ b ∷ src) behind =
    let escaped = write_converted src behind in
    let plain = write_converted (a ∷ b ∷ src) behind in
    if x == b'%' then (escaped >>= λ s. done (parse_hex a b ∷ s)) else (plain >>= λ s. done (x ∷ s))

-- The C string at the start of some memory, which ends at the first zero
unfoldable pub c_string : List ℕ → CString
c_string [] = []
c_string (c ∷ s) = let rest = c_string s in if c == 0 then [] else c ∷ rest

-- The string that is returned, whose terminator stands behind what is written
unfoldable pub convert_query_string : CString → Option ℕ → Run CString
unfolding write_converted c_string
convert_query_string src behind = write_converted src behind >>= λ ret. done (c_string ret)
