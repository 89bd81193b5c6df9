-- ===== src/HttpParser/Message.antt =====
-- Requests as they are printed, for the statement of what the parser of http_parser/ reads back.
use old_tools.Common.{
  ℕ, ◌≡◌, true, false, Option, none, some, List, [], ◌∷◌, ◌++◌, CString, FreeOf, contains, all,
}
use old_tools.HttpParser.{HeadLine}
use old_tools.HttpParser.Query.Quote.{quote, is_char}

abbrev pub crlf : CString
crlf = b'\r' ∷ b'\n' ∷ []

-- A request to print: the path without its first slash, the query before it is encoded
pub record Message : Type 0 where
  pub method : CString
  pub path : CString
  pub query : Option CString
  pub version : CString
  pub head : List HeadLine
  pub body : CString

unfoldable pub print_query : Option CString → CString
print_query none = []
print_query (some q) = b'?' ∷ quote q

unfoldable pub print_uri : Message → CString
print_uri msg = b'/' ∷ (msg.path ++ print_query msg.query)

unfoldable pub print_line : Message → CString
print_line msg = msg.method ++ (b' ' ∷ (print_uri msg ++ (b' ' ∷ msg.version)))

-- The header lines, each with its line end, in front of `rest`
unfoldable pub print_head : List HeadLine → CString → CString
print_head [] rest = rest
print_head (h ∷ hs) rest = (h.key ++ (b':' ∷ h.value)) ++ (b'\r' ∷ b'\n' ∷ print_head hs rest)

-- The request line, the header lines, an empty line and the body
unfoldable pub print_message : Message → CString
print_message msg =
    print_line msg ++ (b'\r' ∷ b'\n' ∷ print_head msg.head (b'\r' ∷ b'\n' ∷ msg.body))

abbrev pub spaces : CString
spaces = b' ' ∷ b'\r' ∷ b'\n' ∷ []

abbrev pub AllGood : List HeadLine → Type 0
AllGood [] = Unit {0}
AllGood (h ∷ hs) =
    (FreeOf (b':' ∷ b'\r' ∷ b'\n' ∷ []) h.key × FreeOf (b'\r' ∷ b'\n' ∷ []) h.value) × AllGood hs

abbrev pub QueryBytes : Option CString → Type 0
QueryBytes none = Unit {0}
QueryBytes (some q) = all is_char q ≡ true

-- The parts have none of the bytes that end them, and the query and what is printed are C strings:
-- none of their bytes is 0.
pub record IsPrintable (msg : Message) : Type 0 where
  pub method : FreeOf spaces msg.method
  pub path : FreeOf (b' ' ∷ b'\r' ∷ b'\n' ∷ b'?' ∷ []) msg.path
  pub query : QueryBytes msg.query
  pub version : FreeOf spaces msg.version
  pub head : AllGood msg.head
  pub body : FreeOf (b'\r' ∷ b'\n' ∷ []) msg.body
  pub chars : all is_char (print_message msg) ≡ true

pub FreeOf-weaken :
    (big small s : CString)
    → ((c : ℕ) → contains big c ≡ false → contains small c ≡ false)
    → FreeOf big s
    → FreeOf small s
FreeOf-weaken big small [] h f = tt
FreeOf-weaken big small (c ∷ s) h f = (h c f.0, FreeOf-weaken big small s h f.1)

pub FreeOf-append : (delim s t : CString) → FreeOf delim s → FreeOf delim t → FreeOf delim (s ++ t)
FreeOf-append delim [] t h k = k
FreeOf-append delim (c ∷ s) t h k = (h.0, FreeOf-append delim s t h.1 k)
