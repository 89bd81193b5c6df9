-- ===== src/HttpParser.antt =====
-- The parser of HTTP requests (http_parser/http_parser.c; liby/src/http_parser.c is the same file).
pub mod Errors
pub mod Message
pub mod Query
pub mod RequestLine
pub mod RoundTrip
mod Tests
use old_tools.Common.{
  ℕ, zero, suc, ◌+◌, Bool, true, false, Option, none, some, List, [], ◌∷◌, ◌++◌, ◌==◌,
  if◌then◌else◌, length, CString, strsep,
}
use old_tools.Common.Run.{Run, done, fault, ◌>>=◌}
use old_tools.HttpParser.Query.{convert_query_string}

-- `head_line`; the linked list from `head` to `tail` is a list.
pub record HeadLine : Type 0 where
  pub key : CString
  pub value : CString

-- `request_t`, its null pointers being `none`
pub record Request : Type 0 where
  pub method_string : Option CString
  pub path_string : Option CString
  pub query_string : Option CString
  pub version_string : Option CString
  pub head : List HeadLine
  pub data_string : Option CString

unfoldable pub http_request_init : Request
http_request_init = record {
  method_string = none;
  path_string = none;
  query_string = none;
  version_string = none;
  head = [];
  data_string = none;
}

-- `index(s, c)`: what stands before the first `c` and, if there is one, what stands after it
unfoldable pub index : CString → ℕ → CString × Option CString
index [] c = ([], none)
index (x ∷ s) c =
    let (before, after) = index s c in if x == c then ([], some s) else (x ∷ before, after)

-- The byte behind the terminator of a token of the request line: `rest` is what `strsep` left of
-- the line, and `more` says whether a line end follows, of which the parser cleared the second
-- byte. `none` lies outside of the string.
unfoldable pub byte_behind : Option CString → Bool → Option ℕ
byte_behind (some (c ∷ s)) more = some c
byte_behind (some []) more = some 0
byte_behind none true = some 0
byte_behind none false = none

-- The string behind the terminator of an empty token
unfoldable pub string_behind : Option CString → Bool → Run CString
string_behind (some s) more = done s
string_behind none true = done []
string_behind none false = fault

-- `*temp = 0; strdup(temp + 1)`, where a first `?` of `temp` was replaced by a terminator; `after`
-- is what stood behind it.
unfoldable pub path_of : CString → Option CString → Option CString → Bool → Run CString
unfolding string_behind
path_of (c ∷ path) after rest more = done path
path_of [] (some query) rest more = done query
path_of [] none rest more = string_behind rest more

-- `r->query_string` from what stands behind the `?`
unfoldable pub query_of : Option CString → Option ℕ → Run (Option CString)
query_of none behind = done none
query_of (some query) behind = do
  converted ← convert_query_string query behind
  done (some converted)

-- `case 1`
unfoldable pub parse_uri : Request → CString → Option CString → Bool → Run Request
unfolding index byte_behind path_of query_of
parse_uri r temp rest more = do
  query ← query_of (index temp b'?').1 (byte_behind rest more)
  path ← path_of (index temp b'?').0 (index temp b'?').1 rest more
  done (record r { query_string = query; path_string = some path })

-- The `switch` on `i`
unfoldable pub parse_part : ℕ → Request → CString → Option CString → Bool → Run Request
unfolding parse_uri
parse_part zero r temp rest more = done (record r { method_string = some temp })
parse_part (suc zero) r temp rest more = parse_uri r temp rest more
parse_part (suc (suc zero)) r temp rest more = done (record r { version_string = some temp })
parse_part (suc (suc (suc i))) r temp rest more = done r

-- The loop while `line`, each round of which but the last removes a character
unfoldable pub parse_parts : ℕ → ℕ → Request → Option CString → Bool → Run Request
parse_parts fuel i r none more = done r
parse_parts zero i r (some line) more = fault
parse_parts (suc fuel) i r (some line) more = do
  r' ← parse_part i r (strsep (b' ' ∷ []) line).0 (strsep (b' ' ∷ []) line).1 more
  parse_parts fuel (i + 1) r' (strsep (b' ' ∷ []) line).1 more

unfoldable pub parse_request_line : Request → CString → Bool → Run Request
parse_request_line r line more = parse_parts (length line + 1) 0 r (some line) more

-- The new line becomes the tail, or head and tail of an empty list.
unfoldable pub http_request_head_push : Request → CString → CString → Request
http_request_head_push r key value = record r {
  head = r.head ++ (record { key = key; value = value } ∷ []);
}

-- `if (temp && line)`, on what `strsep` returned
unfoldable pub push_parts : Request → CString × Option CString → Request
push_parts r (temp, none) = r
push_parts r (temp, some line) = http_request_head_push r temp line

unfoldable pub parse_head_line : Request → CString → Request
unfolding push_parts
parse_head_line r line = push_parts r (strsep (b':' ∷ []) line)

unfoldable pub parse_data : Request → CString → Request
parse_data r [] = r
parse_data r (c ∷ s) = record r { data_string = some (c ∷ s) }

-- `if (str) *(str++) = 0;`: past a terminator the next round reads outside of the string.
unfoldable pub skip_byte : Option CString → Run (Option CString)
skip_byte none = done none
skip_byte (some []) = fault
skip_byte (some (c ∷ s)) = done (some s)

-- What a round does with its token
unfoldable pub parse_line : ℕ → Request → CString → Option CString → Run Request
parse_line zero r temp none = parse_request_line r temp false
parse_line zero r temp (some str) = parse_request_line r temp true
parse_line (suc i) r temp none = done (parse_data r temp)
parse_line (suc i) r temp (some str) = done (parse_head_line r temp)

-- The loop while `str`, each round of which but the last removes characters
unfoldable pub parse_lines : ℕ → ℕ → Request → Option CString → Run Request
parse_lines fuel i r none = done r
parse_lines zero i r (some str) = fault
parse_lines (suc fuel) i r (some str) = do
  str' ← skip_byte (strsep (b'\r' ∷ b'\n' ∷ []) str).1
  r' ← parse_line i r (strsep (b'\r' ∷ b'\n' ∷ []) str).0 str'
  parse_lines fuel (i + 1) r' str'

unfoldable pub http_request_parse : CString → Run Request
http_request_parse src = parse_lines (length src + 1) 0 http_request_init (some src)
