-- ===== src/HttpRequest/Tests.antt =====
-- Runs of the HTTP request parser in C++ at fixed inputs.
use old_tools.Common.{ℕ, ◌≡◌, refl, ◌+◌, ◌-◌, List, [], ◌∷◌, ◌++◌, arith}
use old_tools.Common.Run.{done, exited}
use old_tools.HttpRequest.{Status, Method, RequestState, cleared}
use old_tools.HttpRequest.Parse.{parse_request}
use old_tools.HttpRequest.Parse.Split.{parse_request_again}

abbrev request_line : List ℕ
request_line =
    b'G' ∷ b'E' ∷ b'T' ∷ b' ' ∷ b'/' ∷ b'a' ∷ b'?' ∷ b'q' ∷ b' ' ∷ b'H' ∷ b'T' ∷ b'T' ∷ b'P' ∷ b'/'
    ∷ b'1' ∷ b'.' ∷ b'1' ∷ 13 ∷ 10 ∷ []

abbrev with_header : List ℕ
with_header = request_line ++ (b'K' ∷ b':' ∷ b' ' ∷ b'v' ∷ 13 ∷ 10 ∷ 13 ∷ 10 ∷ [])

abbrev no_value : List ℕ
no_value = request_line ++ (b'K' ∷ b':' ∷ 13 ∷ 10 ∷ 13 ∷ 10 ∷ b'x' ∷ [])

-- The request after the first eight bytes, of which it has taken four
abbrev after_method : RequestState
after_method = record {
  status = Status.parsing_uri;
  bytes = 4;
  method = Method.get;
  uri = [];
  query = [];
  http_version_major = 0;
  http_version_minor = 0;
  headers = [];
}

parse_complete :
    parse_request with_header cleared 0 27
    ≡ done (record {
      status = Status.good;
      bytes = 27;
      method = Method.get;
      uri = b'/' ∷ b'a' ∷ [];
      query = b'q' ∷ [];
      http_version_major = 1;
      http_version_minor = 1;
      headers = (b'K' ∷ [], b'v' ∷ []) ∷ [];
    })
unfolding parse_request cleared
parse_complete = refl

parse_no_value : parse_request no_value cleared 0 25 ≡ exited 134
unfolding parse_request cleared
parse_no_value = refl

parse_request_again_example :
    parse_request with_header after_method (0 + (4 - 0)) 27 ≡ parse_request with_header cleared 0 27
unfolding parse_request cleared
parse_request_again_example =
    parse_request_again with_header cleared after_method 0 8 27 (omega arith) refl
