-- ===== src/HttpParser/RequestLine.antt =====
-- Parsing a printed request line (parse_request_line in http_parser/http_parser.c).
use old_tools.Common.{
  ℕ, zero, suc, ◌+◌, ◌-◌, ◌≡◌, refl, ap, ◌∙◌, Bool, true, Option, none, some, [], ◌∷◌, ◌++◌,
  append-nil, arith, length, length-append, CString, strsep-none, strsep-append, FreeOf,
}
use old_tools.Common.Run.{Run, done, ◌>>=◌, >>=-done}
use old_tools.HttpParser.{
  Request, index, byte_behind, path_of, query_of, parse_uri, parse_part, parse_parts,
  parse_request_line,
}
use old_tools.HttpParser.Query.{convert_query_string}
use old_tools.HttpParser.Query.Quote.{quote, convert_query_string-quote, quote-FreeOf}
use old_tools.HttpParser.Message.{
  Message, print_query, print_uri, print_line, spaces, QueryBytes, IsPrintable, FreeOf-weaken,
  FreeOf-append,
}

parse_parts-none :
    (fuel i : ℕ) (r : Request) (more : Bool) → parse_parts fuel i r none more ≡ done r
unfolding parse_parts
parse_parts-none zero i r more = refl
parse_parts-none (suc fuel) i r more = refl

abbrev body : ℕ → ℕ → Request → Bool → CString × Option CString → Run Request
body fuel i r more p = do r' ← parse_part i r p.0 p.1 more; parse_parts fuel (i + 1) r' p.1 more

-- One round over a token that a space ends
parse_parts-token :
    (fuel i : ℕ) (r : Request) (token rest : CString) (more : Bool)
    → FreeOf spaces token
    → parse_parts (suc fuel) i r (some (token ++ (b' ' ∷ rest))) more ≡ (
        parse_part i r token (some rest) more >>= λ r'.
        parse_parts fuel (i + 1) r' (some rest) more)
unfolding parse_parts
parse_parts-token fuel i r token rest more free = ap (body fuel i r more) (
    strsep-append (b' ' ∷ []) token b' ' rest
      (FreeOf-weaken spaces (b' ' ∷ []) token (λ c k. ground arith) free) refl)

-- The round over the last token
parse_parts-last :
    (fuel i : ℕ) (r : Request) (token : CString) (more : Bool)
    → FreeOf spaces token
    → parse_parts (suc fuel) i r (some token) more
      ≡ (parse_part i r token none more >>= λ r'. done r')
unfolding parse_parts
parse_parts-last fuel i r token more free =
    ap (body fuel i r more) (
      strsep-none (b' ' ∷ []) token
        (FreeOf-weaken spaces (b' ' ∷ []) token (λ c k. ground arith) free))
    ∙ ap (λ f. parse_part i r token none more >>= f)
        (λ j r'. parse_parts-none fuel (i + 1) r' more j)

index-append : (s t : CString) → FreeOf (b'?' ∷ []) s → index (s ++ (b'?' ∷ t)) b'?' ≡ (s, some t)
unfolding index
index-append [] t h = refl
index-append (c ∷ s) t h = ground (arith, index-append s t h.1)

index-none : (s : CString) → FreeOf (b'?' ∷ []) s → index s b'?' ≡ (s, none)
unfolding index
index-none [] h = refl
index-none (c ∷ s) h = ground (arith, index-none s h.1)

-- `case 1` at what `index` returned
abbrev uri_body : Request → Option CString → Bool → CString × Option CString → Run Request
uri_body r rest more p = do
  query ← query_of p.1 (byte_behind rest more)
  path ← path_of p.0 p.1 rest more
  done (record r { query_string = query; path_string = some path })

parse_uri-print :
    (r : Request) (path : CString) (query : Option CString) (rest : Option CString) (more : Bool)
    → FreeOf (b'?' ∷ []) path
    → QueryBytes query
    → parse_uri r (b'/' ∷ (path ++ print_query query)) rest more
      ≡ done (record r { query_string = query; path_string = some path })
unfolding parse_uri print_query
parse_uri-print r path none rest more free h =
    ap (λ s. uri_body r rest more (index (b'/' ∷ s) b'?')) (append-nil path)
    ∙ ap (uri_body r rest more) (index-none (b'/' ∷ path) (refl, free))
parse_uri-print r path (some q) rest more free h =
    ap (uri_body r rest more) (index-append (b'/' ∷ path) (quote q) (refl, free))
    ∙ >>=-done (query_of (some (quote q)) (byte_behind rest more)) _
        (>>=-done (convert_query_string (quote q) (byte_behind rest more)) _
          (convert_query_string-quote q (byte_behind rest more) h) refl)
        refl

pub uri-FreeOf : (msg : Message) → IsPrintable msg → FreeOf spaces (print_uri msg)
unfolding print_uri print_query
uri-FreeOf msg p = (
  refl,
  FreeOf-append spaces msg.path (print_query msg.query)
      (FreeOf-weaken special spaces msg.path (λ c k. ground arith) p.path)
      (query-free msg.query p.query),
)
  where
    special : CString
    special = b' ' ∷ b'\r' ∷ b'\n' ∷ b'?' ∷ []

    query-free : (q : Option CString) → QueryBytes q → FreeOf spaces (print_query q)
    query-free none h = tt
    query-free (some q) h =
        (refl, FreeOf-weaken special spaces (quote q) (λ c k. ground arith) (quote-FreeOf q h))

-- A printed request line is parsed into its three parts.
pub parse_request_line-print :
    (r : Request) (msg : Message)
    → IsPrintable msg
    → parse_request_line r (print_line msg) true
      ≡ done (record r {
        method_string = some msg.method;
        path_string = some msg.path;
        query_string = msg.query;
        version_string = some msg.version;
      })
unfolding parse_request_line parse_part print_line print_uri
parse_request_line-print r msg p =
    let tail = b' ' ∷ msg.version in
    let line = msg.method ++ (b' ' ∷ (print_uri msg ++ tail)) in
    let n = length line - 2 in
    let r1 = record r { method_string = some msg.method } in
    let r2 = record r1 { query_string = msg.query; path_string = some msg.path } in
    let e : length line + 1 ≡ suc (suc (suc n)) = omega (
      arith,
      length-append msg.method (b' ' ∷ (print_uri msg ++ tail)),
      length-append (print_uri msg) tail,
    ) in
    ap (λ fuel. parse_parts fuel 0 r (some line) true) e
    ∙ parse_parts-token (suc (suc n)) 0 r msg.method (print_uri msg ++ tail) true p.method
    ∙ parse_parts-token (suc n) 1 r1 (print_uri msg) msg.version true (uri-FreeOf msg p)
    ∙ ap (λ m. m >>= λ r'. parse_parts (suc n) 2 r' (some msg.version) true)
        (parse_uri-print r1 msg.path msg.query (some msg.version) true
          (FreeOf-weaken (b' ' ∷ b'\r' ∷ b'\n' ∷ b'?' ∷ []) (b'?' ∷ []) msg.path
            (λ c k. ground arith) p.path)
          p.query)
    ∙ parse_parts-last n 2 r2 msg.version true p.version
