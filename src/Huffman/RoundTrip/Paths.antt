-- ===== src/Huffman/RoundTrip/Paths.antt =====
-- Codes as paths in the decompressor's tree (HuffmanCompress/HuffmanDecompress.c).
use old_tools.Common.{
  ℕ, ◌≡◌, refl, sym, ap, ◌∙◌, Bool, true, false, ◌||◌, List, [], ◌∷◌, ◌++◌, append_assoc,
  append-nil, arith, ◌==◌, ==→eq, Bool-cases, inl, inr,
}
use old_tools.Common.Run.{Run, done, exited, fault, ◌>>=◌}
use old_tools.Huffman.Bits.{Bits}
use old_tools.Huffman.Compress.Item.{Item, leaf, node}
use old_tools.Huffman.Compress.Codes.Laws.{codes_of}
use old_tools.Huffman.Compress.Writer.Laws.{encode}
use old_tools.Huffman.Decompress.Build.{TreeItem}
use old_tools.Huffman.Decompress.Decode.{child, emit, decode_bits}
use old_tools.Huffman.RoundTrip.Tree.{tree_of}

-- From the top of `t` the code leads to a leaf of the byte.
pub data Leads : Item → Bits → ℕ → Type 0 where
  here : {num n : ℕ} → Leads (leaf num n) [] num
  on_true :
      {w num : ℕ} {l r : Item} {code : Bits}
      → Leads l code num
      → Leads (node w l r) (true ∷ code) num
  on_false :
      {w num : ℕ} {l r : Item} {code : Bits}
      → Leads r code num
      → Leads (node w l r) (false ∷ code) num

-- Some leaf of the tree has the byte.
unfoldable pub has : ℕ → Item → Bool
has b (leaf num n) = b == num
has b (node n l r) = has b l || has b r

codes_of-absent :
    (t : Item) (string : Bits) (codes : ℕ → Bits) (b : ℕ)
    → has b t ≡ false
    → codes_of t string codes b ≡ codes b
unfolding has codes_of
codes_of-absent (leaf num n) string codes b h = rw h
codes_of-absent (node n l r) string codes b h =
    codes_of-absent r (string ++ (false ∷ [])) (codes_of l (string ++ (true ∷ [])) codes) b
      (ground arith)
    ∙ codes_of-absent l (string ++ (true ∷ [])) codes b (ground arith)

-- The table's code for a byte that a leaf has is the path to such a leaf.
pub codes_of-Leads :
    (t : Item) (string : Bits) (codes : ℕ → Bits) (b : ℕ)
    → has b t ≡ true
    → (code : Bits) × (codes_of t string codes b ≡ string ++ code) × Leads t code b
unfolding has codes_of
codes_of-Leads (leaf num n) string codes b h =
    ([], rw h (sym (append-nil string)), rw (==→eq b num h) here)
codes_of-Leads (node n l r) string codes b h = elim (Bool-cases (has b r)) [
  | inl e ↦
      let (code, p, q) =
        codes_of-Leads r (string ++ (false ∷ [])) (codes_of l (string ++ (true ∷ [])) codes) b e in
      (false ∷ code, p ∙ append_assoc string (false ∷ []) code, on_false q)
  | inr e ↦
      let (code, p, q) = codes_of-Leads l (string ++ (true ∷ [])) codes b (ground arith) in
      (
        true ∷ code,
        codes_of-absent r (string ++ (false ∷ [])) (codes_of l (string ++ (true ∷ [])) codes) b e
            ∙ p
            ∙ append_assoc string (true ∷ []) code,
        on_true q,
      )
]

abbrev Step : Type 0
Step = TreeItem × List ℕ

-- The rest of the decoder's loop, after `curr` was moved to a child
abbrev enter : TreeItem → TreeItem → Bits → Run Step
enter root curr bits = do
  (curr', written) ← emit root curr
  (curr'', more) ← decode_bits root bits curr'
  done (curr'', written ++ more)

bind_done : (m : Run Step) → (m >>= λ x. done (x.0, [] ++ x.1)) ≡ m
bind_done (done x) = refl
bind_done (exited n) = refl
bind_done fault = refl

enter-Leads :
    {t : Item} {code : Bits} {num : ℕ} (root : TreeItem) (rest : Bits)
    → Leads t code num
    → enter root (tree_of t) (code ++ rest)
      ≡ (decode_bits root rest root >>= λ x. done (x.0, num ∷ x.1))
unfolding decode_bits child emit tree_of
enter-Leads root rest here = refl
enter-Leads root rest (on_true {l} {code} p) =
    bind_done (enter root (tree_of l) (code ++ rest)) ∙ enter-Leads root rest p
enter-Leads root rest (on_false {r} {code} p) =
    bind_done (enter root (tree_of r) (code ++ rest)) ∙ enter-Leads root rest p

abbrev pub IsNode : Item → Type 0
IsNode t = (w : ℕ) × (l : Item) × (r : Item) × (t ≡ node w l r)

-- From the root of a tree with two leaves, a code's bits make the decoder write the code's byte
-- and come back to the root.
decode_bits-Leads :
    {t : Item} {code : Bits} {num : ℕ} (rest : Bits)
    → IsNode t
    → Leads t code num
    → decode_bits (tree_of t) (code ++ rest) (tree_of t)
      ≡ (decode_bits (tree_of t) rest (tree_of t) >>= λ x. done (x.0, num ∷ x.1))
unfolding decode_bits child emit tree_of
decode_bits-Leads rest inner here = cc inner.3
decode_bits-Leads rest inner (on_true {w} {l} {r} p) = enter-Leads (tree_of (node w l r)) rest p
decode_bits-Leads rest inner (on_false {w} {l} {r} p) = enter-Leads (tree_of (node w l r)) rest p

-- In a tree where every inner node has both children the decoder meets no null pointer.
decode_bits-done :
    (bits : Bits) (w : ℕ) (l r : Item) (root : Item)
    → IsNode root
    → (res : Step) × (decode_bits (tree_of root) bits (tree_of (node w l r)) ≡ done res)
unfolding decode_bits child emit tree_of
decode_bits-done [] w l r root h = ((tree_of (node w l r), []), refl)
decode_bits-done (true ∷ bits) w (node w' a b) r root h =
    let (res, e) = decode_bits-done bits w' a b root h in ((res.0, [] ++ res.1), rw e)
decode_bits-done (true ∷ bits) w (leaf num n) r root (w', a, b, e') =
    let (res, e) = decode_bits-done bits w' a b root (w', a, b, e') in
    (
      (res.0, num ∷ res.1),
      let e'' : decode_bits (tree_of root) bits (tree_of root) ≡ done res =
            ap (λ x. decode_bits (tree_of root) bits (tree_of x)) e' ∙ e in
          rw e'',
    )
decode_bits-done (false ∷ bits) w l (node w' a b) root h =
    let (res, e) = decode_bits-done bits w' a b root h in ((res.0, [] ++ res.1), rw e)
decode_bits-done (false ∷ bits) w l (leaf num n) root (w', a, b, e') =
    let (res, e) = decode_bits-done bits w' a b root (w', a, b, e') in
    (
      (res.0, num ∷ res.1),
      let e'' : decode_bits (tree_of root) bits (tree_of root) ≡ done res =
            ap (λ x. decode_bits (tree_of root) bits (tree_of x)) e' ∙ e in
          rw e'',
    )

-- Every byte of the file has a code that leads to it.
abbrev pub AllLead : Item → (ℕ → Bits) → List ℕ → Type 0
AllLead t codes [] = Unit {0}
AllLead t codes (b ∷ bs) = Leads t (codes b) b × AllLead t codes bs

-- The coded file, whatever bits follow it, decodes to the file and whatever else.
pub decode_bits-encode :
    (t : Item) (codes : ℕ → Bits) (pad : Bits)
    → IsNode t
    → (bs : List ℕ) → AllLead t codes bs
    → (curr : TreeItem) × (extra : List ℕ) × (decode_bits
          (tree_of t)
          (encode codes bs ++ pad)
          (tree_of t)
        ≡ done (curr, bs ++ extra))
unfolding encode
decode_bits-encode t codes pad (w, l, r, e) [] h =
    let (res, q) = decode_bits-done pad w l r t (w, l, r, e) in
    (res.0, res.1, ap (λ x. decode_bits (tree_of t) pad (tree_of x)) e ∙ q)
decode_bits-encode t codes pad inner (b ∷ bs) (p, h) =
    let (curr, extra, q) = decode_bits-encode t codes pad inner bs h in
    (
      curr,
      extra,
      rw (append_assoc (codes b) (encode codes bs) pad)
          (decode_bits-Leads (encode codes bs ++ pad) inner p ∙ rw q),
    )
