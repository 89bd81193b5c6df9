-- ===== src/HttpRequest/Parts.antt =====
-- ParseMethod, ParseURI, ParseHttpVersion and ParseHeader (liby_cpp/http/Request.cpp). Each gives
-- the flag that the code returns, and the request. `parse_hex` is that of the parser in C, of
-- which this file has a copy.
use old_tools.Common.{
  ℕ, zero, suc, ◌+◌, ◌-◌, Bool, true, false, ◌&&◌, ◌||◌, Option, none, some, List, [], ◌∷◌, ◌++◌,
  ◌==◌, ltb, leb, if◌then◌else◌, length, take, drop,
}
use old_tools.Common.Run.{Run, done, exited, fault, ◌>>=◌}
use old_tools.HttpParser.Query.{parse_hex}
use old_tools.HttpRequest.{Status, Method, RequestState, byte_at, find_first_of, with_status}

-- The bytes of `memory` from `begin` up to `end`, none where `end` is not behind `begin`
unfoldable pub slice : List ℕ → ℕ → ℕ → List ℕ
slice memory begin end = take (end - begin) (drop begin memory)

unfoldable pub same_bytes : List ℕ → List ℕ → Bool
same_bytes [] [] = true
same_bytes [] (y ∷ ys) = false
same_bytes (x ∷ xs) [] = false
same_bytes (x ∷ xs) (y ∷ ys) = (x == y) && same_bytes xs ys

-- `methods`
unfoldable pub find_method : List ℕ → Method
unfolding same_bytes
find_method name =
    if same_bytes name (b'G' ∷ b'E' ∷ b'T' ∷ [])
    then Method.get
    else (if same_bytes name (b'P' ∷ b'O' ∷ b'S' ∷ b'T' ∷ [])
        then Method.post
        else (if same_bytes name (b'P' ∷ b'U' ∷ b'T' ∷ [])
            then Method.put
            else (if same_bytes name (b'O' ∷ b'P' ∷ b'T' ∷ b'I' ∷ b'O' ∷ b'N' ∷ b'S' ∷ [])
                then Method.options
                else Method.no_method)))

-- `methods.find(method)`, and what follows it
unfoldable pub set_method : RequestState → Method → Bool × RequestState
set_method r Method.no_method = (false, with_status r Status.invalid_method)
set_method r m = (
  true,
  record {
    status = Status.parsing_uri;
    bytes = r.bytes;
    method = m;
    uri = r.uri;
    query = r.query;
    http_version_major = r.http_version_major;
    http_version_minor = r.http_version_minor;
    headers = r.headers;
  },
)

-- ParseMethod
unfoldable pub parse_method : List ℕ → RequestState → ℕ → ℕ → Run (Bool × RequestState)
unfolding slice find_method set_method
parse_method memory r begin end = done (set_method r (find_method (slice memory begin end)))

-- The loop of ParseURI from `src[i]` on, at the place `at` of the memory: what it writes to `temp`.
-- `skip` bytes are passed over, after a `%`.
unfoldable pub decode_uri : ℕ → List ℕ → ℕ → ℕ → Run (List ℕ)
unfolding byte_at
decode_uri zero memory at skip = done []
decode_uri (suc n) memory at (suc skip) = decode_uri n memory (at + 1) skip
decode_uri (suc n) memory at zero = byte_at memory at >>= λ c.
    (if c == b'%'
      then (byte_at memory (at + 1) >>= λ a. byte_at memory (at + 2) >>= λ b.
          decode_uri n memory (at + 1) 2 >>= λ rest. done (parse_hex a b ∷ rest))
      else (decode_uri n memory (at + 1) 0 >>= λ rest. done (c ∷ rest)))

-- What stands behind the last `?`
unfoldable pub behind_mark : List ℕ → Option (List ℕ)
behind_mark [] = none
behind_mark (c ∷ cs) = elim (behind_mark cs) [
  | some rest ↦ some rest
  | none ↦ if c == b'?' then some cs else none
]

-- The C string at `temp`, in which every `?` is a terminator
unfoldable pub up_to_mark : List ℕ → List ℕ
up_to_mark [] = []
up_to_mark (c ∷ cs) = if (c == 0) || (c == b'?') then [] else c ∷ up_to_mark cs

-- `query_` and `uri_` of what `temp` holds
unfoldable pub set_uri : RequestState → List ℕ → Bool × RequestState
unfolding behind_mark up_to_mark
set_uri r temp = (
  true,
  record {
    status = Status.parsing_version;
    bytes = r.bytes;
    method = r.method;
    uri = up_to_mark temp;
    query = elim (behind_mark temp) [ none ↦ r.query | some rest ↦ up_to_mark rest ];
    http_version_major = r.http_version_major;
    http_version_minor = r.http_version_minor;
    headers = r.headers;
  },
)

-- ParseURI, where the allocation does not fail
unfoldable pub parse_request_uri : List ℕ → RequestState → ℕ → ℕ → Run (Bool × RequestState)
unfolding decode_uri set_uri
parse_request_uri memory r begin end =
    decode_uri (end - begin) memory begin 0 >>= λ temp. done (set_uri r temp)

abbrev http_1_ : List ℕ
http_1_ = b'H' ∷ b'T' ∷ b'T' ∷ b'P' ∷ b'/' ∷ b'1' ∷ b'.' ∷ []

-- The version of HTTP 1 that the bytes name
unfoldable pub minor_version : List ℕ → Option ℕ
unfolding same_bytes
minor_version name =
    if same_bytes name (http_1_ ++ (b'1' ∷ []))
    then some 1
    else (if same_bytes name (http_1_ ++ (b'0' ∷ [])) then some 0 else none)

-- The version, or that there is none
unfoldable pub set_version : RequestState → Option ℕ → Bool × RequestState
set_version r none = (false, with_status r Status.invalid_version)
set_version r (some minor) = (
  true,
  record {
    status = Status.parsing_headers;
    bytes = r.bytes;
    method = r.method;
    uri = r.uri;
    query = r.query;
    http_version_major = 1;
    http_version_minor = minor;
    headers = r.headers;
  },
)

-- ParseHttpVersion, whose assertion refuses an end before the begin
unfoldable pub parse_http_version : List ℕ → RequestState → ℕ → ℕ → Run (Bool × RequestState)
unfolding slice minor_version set_version
parse_http_version memory r begin end =
    if ltb end begin
    then exited 134
    else done (set_version r (minor_version (slice memory begin end)))

-- `std::isspace`
unfoldable pub is_space : ℕ → Bool
is_space c = (c == 32) || (leb 9 c && leb c 13)

-- `while (std::isspace(*left)) left--;` where `left` is the place below `stop`: one more than the
-- place where it ends
unfoldable pub scan_left : List ℕ → ℕ → Run ℕ
unfolding byte_at is_space
scan_left memory zero = fault
scan_left memory (suc left) =
    byte_at memory left >>= λ c. if is_space c then scan_left memory left else done (suc left)

-- `while (std::isspace(*right)) right++;` with `n` bytes of the memory left
unfoldable pub scan_right : ℕ → List ℕ → ℕ → Run ℕ
unfolding byte_at is_space
scan_right zero memory right = fault
scan_right (suc n) memory right =
    byte_at memory right >>= λ c. if is_space c then scan_right n memory (right + 1) else done right

-- `headers_[key] = value`
unfoldable pub set_header : List ℕ → List ℕ → List (List ℕ × List ℕ) → List (List ℕ × List ℕ)
unfolding same_bytes
set_header key value [] = (key, value) ∷ []
set_header key value ((k, v) ∷ headers) =
    let rest = set_header key value headers in
    if same_bytes k key then (k, value) ∷ headers else (k, v) ∷ rest

abbrev pub with_headers : RequestState → List (List ℕ × List ℕ) → RequestState
with_headers r headers = record {
  status = r.status;
  bytes = r.bytes;
  method = r.method;
  uri = r.uri;
  query = r.query;
  http_version_major = r.http_version_major;
  http_version_minor = r.http_version_minor;
  headers = headers;
}

-- The key and the value: a string whose end is before its begin throws, and ParseHeader is noexcept.
unfoldable pub store_header : List ℕ → RequestState → ℕ → ℕ → ℕ → ℕ → Run (Bool × RequestState)
unfolding slice set_header
store_header memory r begin key_end right end =
    if ltb key_end begin || ltb end right
    then exited 134
    else done (
      true,
      with_headers r (set_header (slice memory begin key_end) (slice memory right end) r.headers),
    )

-- ParseHeader from the test of `mid` on
unfoldable pub split_header : List ℕ → RequestState → ℕ → ℕ → Option ℕ → Run (Bool × RequestState)
unfolding scan_left scan_right store_header
split_header memory r begin end none = done (false, with_status r Status.invalid_header)
split_header memory r begin end (some mid) = scan_left memory mid >>= λ key_end.
    scan_right (length memory - (mid + 1)) memory (mid + 1) >>= λ right.
    store_header memory r begin key_end right end

-- ParseHeader
unfoldable pub parse_header : List ℕ → RequestState → ℕ → ℕ → Run (Bool × RequestState)
unfolding find_first_of split_header
parse_header memory r begin end =
    find_first_of (end - begin) memory begin b':' >>= split_header memory r begin end
