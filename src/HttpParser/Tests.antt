-- ===== src/HttpParser/Tests.antt =====
-- A run of the parser, and the theorems at a request.
use old_tools.Common.{none, some, [], ◌∷◌, ◌≡◌, refl, strsep}
use old_tools.Common.Run.{done}
use old_tools.HttpParser.{
  http_request_parse, http_request_init, parse_lines, skip_byte, parse_line, parse_request_line,
  parse_parts, parse_part, parse_uri, index, byte_behind, path_of, query_of, parse_head_line,
  push_parts, http_request_head_push, parse_data,
}
use old_tools.HttpParser.Message.{Message}
use old_tools.HttpParser.Query.{convert_query_string, parse_hex}
use old_tools.HttpParser.Query.Quote.{quote, convert_query_string-quote}

-- "G /a V\r\nk:v\r\n\r\nx"
parse_small :
    http_request_parse (
      b'G' ∷ b' ' ∷ b'/' ∷ b'a' ∷ b' ' ∷ b'V' ∷ b'\r' ∷ b'\n' ∷ b'k' ∷ b':' ∷ b'v' ∷ b'\r' ∷ b'\n'
      ∷ b'\r' ∷ b'\n' ∷ b'x' ∷ [])
    ≡ done (record {
      method_string = some (b'G' ∷ []);
      path_string = some (b'a' ∷ []);
      query_string = none;
      version_string = some (b'V' ∷ []);
      head = (record { key = b'k' ∷ []; value = b'v' ∷ [] }) ∷ [];
      data_string = some (b'x' ∷ []);
    })
unfolding http_request_parse http_request_init parse_lines skip_byte parse_line parse_request_line
    parse_parts parse_part parse_uri index byte_behind path_of query_of parse_head_line push_parts
    http_request_head_push parse_data strsep
parse_small = refl

-- "GET /a?q%20 V" with a header line "k:v" and the body "x"
abbrev get : Message
get = record {
  method = b'G' ∷ b'E' ∷ b'T' ∷ [];
  path = b'a' ∷ [];
  query = some (b'q' ∷ b' ' ∷ []);
  version = b'V' ∷ [];
  head = (record { key = b'k' ∷ []; value = b'v' ∷ [] }) ∷ [];
  body = b'x' ∷ [];
}

convert_query_string-quote_example :
    convert_query_string (quote (b'a' ∷ b' ' ∷ b'%' ∷ [])) none ≡ done (b'a' ∷ b' ' ∷ b'%' ∷ [])
convert_query_string-quote_example = convert_query_string-quote (b'a' ∷ b' ' ∷ b'%' ∷ []) none refl

-- "%00b"
convert_nul : convert_query_string (b'%' ∷ b'0' ∷ b'0' ∷ b'b' ∷ []) none ≡ done []
unfolding convert_query_string parse_hex
convert_nul = refl
