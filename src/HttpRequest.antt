-- ===== src/HttpRequest.antt =====
-- The incremental parser of HTTP requests in C++ (liby_cpp/http/Request.cpp and Request.h). A
-- pointer is an index into `memory`, the bytes of the buffer that the request stands in.
pub mod Parts
pub mod Parse
mod Tests
use old_tools.Common.{
  ℕ, zero, suc, ◌+◌, ◌-◌, Bool, true, false, ◌||◌, Option, none, some, List, [], ◌∷◌, ◌==◌,
  if◌then◌else◌, get_elem?,
}
use old_tools.Common.Run.{Run, done, exited, fault, ◌>>=◌}

pub data Status : Type 0 where
  parsing_method : Status
  parsing_uri : Status
  parsing_version : Status
  parsing_headers : Status
  good : Status
  invalid_method : Status
  invalid_uri : Status
  invalid_version : Status
  invalid_header : Status

pub data Method : Type 0 where
  no_method : Method
  get : Method
  post : Method
  put : Method
  options : Method

-- The fields of Request
pub record RequestState : Type 0 where
  pub status : Status
  pub bytes : ℕ
  pub method : Method
  pub uri : List ℕ
  pub query : List ℕ
  pub http_version_major : ℕ
  pub http_version_minor : ℕ
  pub headers : List (List ℕ × List ℕ)

-- A new Request, and what clear() leaves
unfoldable pub cleared : RequestState
cleared = record {
  status = Status.parsing_method;
  bytes = 0;
  method = Method.no_method;
  uri = [];
  query = [];
  http_version_major = 0;
  http_version_minor = 0;
  headers = [];
}

-- isGood
unfoldable pub is_good : Status → Bool
is_good Status.good = true
is_good s = false

-- isError
unfoldable pub is_error : Status → Bool
is_error Status.invalid_uri = true
is_error Status.invalid_header = true
is_error Status.invalid_version = true
is_error Status.invalid_method = true
is_error s = false

unfoldable pub byte_at : List ℕ → ℕ → Run ℕ
byte_at memory i = elim (get_elem? memory i) [ none ↦ fault | some c ↦ done c ]

-- findFirstOf in the `n` bytes from `begin` on
unfoldable pub find_first_of : ℕ → List ℕ → ℕ → ℕ → Run (Option ℕ)
unfolding byte_at
find_first_of zero memory begin c = done none
find_first_of (suc n) memory begin c = byte_at memory begin >>= λ x.
    if x == c then done (some begin) else find_first_of n memory (begin + 1) c

-- `bytes_ += ++finish - begin`
abbrev pub consumed : RequestState → ℕ → ℕ → RequestState
consumed r begin finish = record {
  status = r.status;
  bytes = r.bytes + (finish + 1 - begin);
  method = r.method;
  uri = r.uri;
  query = r.query;
  http_version_major = r.http_version_major;
  http_version_minor = r.http_version_minor;
  headers = r.headers;
}

abbrev pub with_status : RequestState → Status → RequestState
with_status r s = record {
  status = s;
  bytes = r.bytes;
  method = r.method;
  uri = r.uri;
  query = r.query;
  http_version_major = r.http_version_major;
  http_version_minor = r.http_version_minor;
  headers = r.headers;
}
