-- ===== src/HttpParser/Errors.antt =====
-- The end of the input (http_request_parse in http_parser/http_parser.c).
use old_tools.Common.{
  ℕ, suc, ◌+◌, ◌≡◌, true, ap, ◌∙◌, arith, Option, some, [], ◌∷◌, ◌++◌, length, CString,
  strsep-append, FreeOf, contains,
}
use old_tools.Common.Run.{Run, fault, ◌>>=◌}
use old_tools.HttpParser.{
  Request, http_request_init, skip_byte, parse_line, parse_lines, http_request_parse,
}
use old_tools.HttpParser.Message.{crlf}

-- If the only line end byte of the input is its last byte, http_request_parse reads past the
-- end of the string.
pub http_request_parse_past_end :
    (line : CString) (e : ℕ)
    → FreeOf crlf line
    → contains crlf e ≡ true
    → http_request_parse (line ++ (e ∷ [])) ≡ fault
unfolding http_request_parse parse_lines skip_byte
http_request_parse_past_end line e free h =
    let src = line ++ (e ∷ []) in
    ap (λ fuel. parse_lines fuel 0 http_request_init (some src)) {x = length src + 1}
      {y = suc (length src)} (omega arith)
    ∙ ap (body (length src)) (strsep-append crlf line e [] free h)
  where
    body : ℕ → CString × Option CString → Run Request
    body fuel p = do
      str' ← skip_byte p.1
      r' ← parse_line 0 http_request_init p.0 str'
      parse_lines fuel 1 r' str'
