-- ===== src/HttpRequest/Parse.antt =====
-- parse (liby_cpp/http/Request.cpp). A stage gives the request and the place up to which the bytes
-- are consumed, where the next call begins.
pub mod Search
pub mod Resume
pub mod Outcome
pub mod Split
use old_tools.Common.{
  ℕ, zero, suc, ◌+◌, ◌-◌, Bool, true, false, ◌||◌, Option, none, some, List, [], ◌∷◌, ◌==◌,
  if◌then◌else◌,
}
use old_tools.Common.Run.{Run, done, exited, fault, ◌>>=◌}
use old_tools.HttpRequest.{Status, RequestState, byte_at, find_first_of, consumed, with_status}
use old_tools.HttpRequest.Parts.{parse_method, parse_request_uri, parse_http_version, parse_header}

-- `if (finish == nullptr) return;`: the request waits for more bytes.
unfoldable pub if_found :
    RequestState → ℕ → (ℕ → Run (RequestState × ℕ)) → Option ℕ → Run (RequestState × ℕ)
if_found r begin found none = done (r, begin)
if_found r begin found (some finish) = found finish

-- `finish = findFirstOf(begin, end, c)`, and what follows it
unfoldable pub search :
    List ℕ → ℕ → RequestState → ℕ → ℕ → (ℕ → Run (RequestState × ℕ)) → Run (RequestState × ℕ)
unfolding find_first_of if_found
search memory c r begin end found =
    find_first_of (end - begin) memory begin c >>= if_found r begin found

-- What follows a part, where it is right
unfoldable pub accept :
    (RequestState → ℕ → Run (RequestState × ℕ))
    → ℕ
    → ℕ
    → Bool × RequestState
    → Run (RequestState × ℕ)
accept next begin finish (flag, r) =
    if flag then next (consumed r begin finish) (finish + 1) else done (r, begin)

-- One part of the request up to the byte `c`, and what follows it
unfoldable pub stage :
    List ℕ
    → ℕ
    → (RequestState → ℕ → ℕ → Run (Bool × RequestState))
    → (RequestState → ℕ → Run (RequestState × ℕ))
    → RequestState
    → ℕ
    → ℕ
    → Run (RequestState × ℕ)
unfolding search accept
stage memory c part next r begin end =
    search memory c r begin end (λ finish. part r begin finish >>= accept next begin finish)

-- `*(finish - 1) == '\r' ? finish - 1 : finish`; in front of the memory is a fault.
unfoldable pub line_end : List ℕ → ℕ → Run ℕ
unfolding byte_at
line_end memory zero = fault
line_end memory (suc finish) =
    byte_at memory finish >>= λ c. if c == 13 then done finish else done (suc finish)

unfoldable pub version_line : List ℕ → RequestState → ℕ → ℕ → Run (Bool × RequestState)
unfolding line_end parse_http_version
version_line memory r begin finish =
    line_end memory finish >>= λ end. parse_http_version memory r begin end

-- One line of the header, which is not empty
unfoldable pub header_line : List ℕ → RequestState → ℕ → ℕ → Run (Bool × RequestState)
unfolding line_end parse_header
header_line memory r begin finish =
    line_end memory finish >>= λ end. parse_header memory r begin end

-- `status_ = Status::Good;` and the bytes of the empty line
abbrev pub finished : RequestState → ℕ → ℕ → RequestState
finished r begin finish = consumed (with_status r Status.good) begin finish

-- One line of the loop, and what follows it; the empty one ends the header.
unfoldable pub one_line :
    List ℕ
    → RequestState
    → ℕ
    → (RequestState → ℕ → Run (RequestState × ℕ))
    → ℕ
    → Run (RequestState × ℕ)
unfolding header_line accept
one_line memory r begin next finish =
    if (begin == finish) || (begin + 1 == finish)
    then done (finished r begin finish, finish + 1)
    else (header_line memory r begin finish >>= accept next begin finish)

-- The loop over the lines of the header; each round but the last consumes a byte.
unfoldable pub from_headers : ℕ → List ℕ → RequestState → ℕ → ℕ → Run (RequestState × ℕ)
unfolding search one_line
from_headers zero memory r begin end = fault
from_headers (suc fuel) memory r begin end =
    search memory 10 r begin end
      (one_line memory r begin (λ r' b. from_headers fuel memory r' b end))

unfoldable pub all_headers : List ℕ → RequestState → ℕ → ℕ → Run (RequestState × ℕ)
unfolding from_headers
all_headers memory r begin end = from_headers (suc (end - begin)) memory r begin end

unfoldable pub from_version : List ℕ → RequestState → ℕ → ℕ → Run (RequestState × ℕ)
unfolding stage version_line all_headers
from_version memory r begin end =
    stage memory 10 (version_line memory) (λ r' b. all_headers memory r' b end) r begin end

unfoldable pub from_uri : List ℕ → RequestState → ℕ → ℕ → Run (RequestState × ℕ)
unfolding stage parse_request_uri from_version
from_uri memory r begin end =
    stage memory 32 (parse_request_uri memory) (λ r' b. from_version memory r' b end) r begin end

unfoldable pub from_method : List ℕ → RequestState → ℕ → ℕ → Run (RequestState × ℕ)
unfolding stage parse_method from_uri
from_method memory r begin end =
    stage memory 32 (parse_method memory) (λ r' b. from_uri memory r' b end) r begin end

-- The `switch` of parse
unfoldable pub from_status : Status → List ℕ → RequestState → ℕ → ℕ → Run (RequestState × ℕ)
unfolding from_method from_uri from_version all_headers
from_status Status.parsing_method memory r begin end = from_method memory r begin end
from_status Status.parsing_uri memory r begin end = from_uri memory r begin end
from_status Status.parsing_version memory r begin end = from_version memory r begin end
from_status Status.parsing_headers memory r begin end = all_headers memory r begin end
from_status s memory r begin end = done (r, begin)

-- parse, which returns nothing but the request
unfoldable pub parse_request : List ℕ → RequestState → ℕ → ℕ → Run RequestState
unfolding from_status
parse_request memory r begin end = from_status r.status memory r begin end >>= λ (r', b). done r'
