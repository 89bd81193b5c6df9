-- ===== src/Huffman/RoundTrip/Bytes.antt =====
-- Decoding whole bytes (HuffmanCompress/HuffmanDecompress.c).
use old_tools.Common.{
  ℕ, zero, suc, ◌*◌, ◌+◌, ◌-◌, ◌≤◌, ◌≡◌, refl, sym, ap, ◌∙◌, true, false, List, [], ◌∷◌, ◌++◌,
  append_assoc, arith, length, length-append, take, take-append,
}
use old_tools.Common.Run.{done, >>=-eq-done, >>=-done, done-injective}
use old_tools.Huffman.Bits.{Bits, low_bits, bits_of}
use old_tools.Huffman.Decompress.Build.{TreeItem, null, item}
use old_tools.Huffman.Decompress.Decode.{child, emit, decode_bits, decode}

abbrev Step : Type 0
Step = TreeItem × List ℕ

-- The decoder's loop over two runs of bits, one after the other
decode_bits-append :
    (root : TreeItem) (xs ys : Bits) (curr : TreeItem) {res : Step}
    → decode_bits root (xs ++ ys) curr ≡ done res
    → (s : Step) × (t : Step) × (decode_bits root xs curr ≡ done s)
      × (decode_bits root ys s.0 ≡ done t)
      × (res ≡ (t.0, s.1 ++ t.1))
unfolding decode_bits
decode_bits-append root [] ys curr {res} h = ((curr, []), res, refl, h, refl)
decode_bits-append root (x ∷ xs) ys curr {res} h =
    let (next, p, h1) = >>=-eq-done (child curr x) _ h in
    let (e, q, h2) = >>=-eq-done (emit root next) _ h1 in
    let (more, r, h3) = >>=-eq-done (decode_bits root (xs ++ ys) e.0) _ h2 in
    let (s, t, u, v, w) = decode_bits-append root xs ys e.0 r in
    (
      (s.0, e.1 ++ s.1),
      t,
      >>=-done (child curr x) _ p
          (>>=-done (emit root next) _ q (>>=-done (decode_bits root xs e.0) _ u refl)),
      v,
      sym (done-injective h3)
          ∙ ap (λ z. (z.0, e.1 ++ z.1)) w
          ∙ ap (λ z. (t.0, z)) (sym (append_assoc e.1 s.1 t.1)),
    )

length-emit : (root curr : TreeItem) {res : Step} → emit root curr ≡ done res → length res.1 ≤ 1
unfolding emit
length-emit root null h = cc
length-emit root (item num true l r) h = omega (arith, ap (λ z. length z.1) (done-injective h))
length-emit root (item num false l r) h = omega (arith, ap (λ z. length z.1) (done-injective h))

length-decode_bits :
    (root : TreeItem) (xs : Bits) (curr : TreeItem) {res : Step}
    → decode_bits root xs curr ≡ done res
    → length res.1 ≤ length xs
unfolding decode_bits
length-decode_bits root [] curr h = omega (arith, ap (λ z. length z.1) (done-injective h))
length-decode_bits root (x ∷ xs) curr {res} h =
    let (next, p, h1) = >>=-eq-done (child curr x) _ h in
    let (e, q, h2) = >>=-eq-done (emit root next) _ h1 in
    let (more, r, h3) = >>=-eq-done (decode_bits root xs e.0) _ h2 in
    let bound = length-decode_bits root xs e.0 r in
    omega (
      arith,
      ap (λ z. length z.1) (done-injective h3),
      length-emit root next q,
      length-append e.1 more.1,
    )

length-low_bits : (k v : ℕ) → length (low_bits k v) ≡ k
unfolding low_bits
length-low_bits zero v = refl
length-low_bits (suc k) v = ap suc (length-low_bits k v)

-- If the bits of the bytes decode to at least `need` values, the loop over bytes ends well, agrees
-- on the first `need` values, and writes at most seven more.
pub record Decodes (root : TreeItem) (bytes : List ℕ) (curr : TreeItem) (need : ℕ) (out : List ℕ)
    : Type 0 where
  pub written : List ℕ
  pub runs : decode root bytes curr need ≡ done written
  pub agrees : take need written ≡ take need out
  pub bound : length written ≤ need + 7
  pub bound_all : length written ≤ 8 * need
  pub enough : need ≤ length written

pub decode-bits_of :
    (root : TreeItem) (bytes : List ℕ) (curr : TreeItem) (need : ℕ) {res : Step}
    → decode_bits root (bits_of bytes) curr ≡ done res
    → need ≤ length res.1
    → Decodes root bytes curr need res.1
unfolding decode bits_of
decode-bits_of root bytes curr zero h le = record {
  written = [];
  runs = refl;
  agrees = refl;
  bound = omega arith;
  bound_all = omega arith;
  enough = omega arith;
}
decode-bits_of root [] curr (suc n) h le =
    absurd (omega (arith, ap (λ z. length z.1) (done-injective h)))
decode-bits_of root (v ∷ bytes) curr (suc n) {res} h le =
    let (s, t, p, q, e) = decode_bits-append root (low_bits 8 v) (bits_of bytes) curr h in
    let here = length-decode_bits root (low_bits 8 v) curr p in
    let total : length res.1 ≡ length s.1 + length t.1 =
      ap (λ z. length z.1) e ∙ length-append s.1 t.1 in
    let rest = decode-bits_of root bytes s.0 (suc n - length s.1) q (omega arith) in
    record {
      written = s.1 ++ rest.written;
      runs =
          >>=-done (decode_bits root (low_bits 8 v) curr) _ p
            (>>=-done (decode root bytes s.0 (suc n - length s.1)) _ rest.runs refl);
      agrees =
          take-append (suc n) s.1 rest.written
          ∙ ap (λ r. take (suc n) s.1 ++ r) rest.agrees
          ∙ sym (take-append (suc n) s.1 t.1)
          ∙ ap (λ z. take (suc n) z.1) (sym e);
      bound = omega (arith, length-append s.1 rest.written, length-low_bits 8 v);
      bound_all = omega (arith, length-append s.1 rest.written, length-low_bits 8 v);
      enough = omega (arith, length-append s.1 rest.written);
    }
