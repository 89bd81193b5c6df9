-- ===== src/Huffman/RoundTrip/Setup.antt =====
-- The files that the two programs can round-trip, and what the compressor makes of such a file.
use old_tools.Common.{
  ℕ, ◌+◌, ◌^◌, ◌≤◌, ◌<◌, ◌≡◌, ◌≢◌, refl, sym, ap, ◌∙◌, true, false, List, [], ◌∷◌, ◌++◌, arith, ltb,
  ne→==_false, length, length-append, all, any_of_get_elem,
}
use native.Mathlib.Decide.{ℕ_discrete}
use old_tools.Huffman.Bits.{Bits}
use old_tools.Huffman.Compress.Item.{Item, leaf, node, Qsort, counted, build_tree, ntimes}
use old_tools.Huffman.Compress.Item.Counts.{
  count, is_leaf, exact_counted-count, length-exact_counted, leaves-exact_counted, count_two,
}
use old_tools.Common.Run.{done, done-injective, ◌>>=◌}
use old_tools.Huffman.Compress.Item.Exact.{exact_counted}
use old_tools.Huffman.Compress.Item.Fits.{tree_fits}
use old_tools.Huffman.Compress.Item.Merge.{Permutes}
use old_tools.Huffman.Compress.Item.Root.{holds, weighed, exact_build_tree-holds}
use old_tools.Huffman.Compress.Codes.Laws.{codes_of, height}
use old_tools.Huffman.Compress.Writer.Laws.{TailKept}
use old_tools.Huffman.Compress.Main.{is_all, one_character_flag}
use old_tools.Huffman.RoundTrip.Paths.{has, IsNode, AllLead, codes_of-Leads}

-- The table of codes that the tree gives
abbrev pub table : Item → ℕ → Bits
table t = codes_of t [] (λ num. [])

-- A file of fewer than 2 ^ 31 bytes, two of them different, whose tree is not too deep for the four bytes that a
-- code's key may take, and whose last code does not end beyond a flush.
pub record IsCodable (qsort : Qsort) (buf : List ℕ) (t : Item) : Type 0 where
  pub one : ℕ
  pub other : ℕ
  pub different : one ≢ other
  pub has_one : 0 < count one buf
  pub has_other : 0 < count other buf
  pub bytes : all (λ x. ltb x 256) buf ≡ true
  pub short : length buf < 2 ^ 31
  pub tree : (counted buf >>= build_tree qsort) ≡ done t
  pub shallow : height t ≤ 15
  pub tail_kept : TailKept (table t) 0 buf

byte-lt : (x : ℕ) (buf : List ℕ) → all (λ y. ltb y 256) buf ≡ true → 0 < count x buf → x < 256
unfolding count
byte-lt x [] h p = absurd (omega arith)
byte-lt x (y ∷ buf) h p = ground (arith, byte-lt x buf)

weighed_of_is_leaf : (items : List Item) → all is_leaf items ≡ true → all weighed items ≡ true
unfolding weighed
weighed_of_is_leaf [] h = refl
weighed_of_is_leaf (leaf num n ∷ items) h = weighed_of_is_leaf items h
weighed_of_is_leaf (node n l r ∷ items) h = cc

has_of_holds : (b : ℕ) (t : Item) → holds b t ≡ true → has b t ≡ true
unfolding holds has
has_of_holds b (leaf num n) h = ground arith
has_of_holds b (node n l r) h = ground (arith, has_of_holds b l, has_of_holds b r)

length-codes_of :
    (t : Item) (string : Bits) (codes : ℕ → Bits) (n : ℕ)
    → ((b : ℕ) → length (codes b) ≤ n)
    → length string + height t ≤ n
    → (b : ℕ) → length (codes_of t string codes b) ≤ n
unfolding codes_of height
length-codes_of (leaf num w) string codes n h k b = ground (arith, h b)
length-codes_of (node w l r) string codes n h k b =
    length-codes_of r (string ++ (false ∷ [])) (codes_of l (string ++ (true ∷ [])) codes) n
      (length-codes_of l (string ++ (true ∷ [])) codes n h
        (omega (arith, length-append string (true ∷ []))))
      (omega (arith, length-append string (false ∷ []))) b

IsNode-of_two : (b c : ℕ) (t : Item) → b ≢ c → holds b t ≡ true → holds c t ≡ true → IsNode t
unfolding holds
IsNode-of_two b c (leaf num n) ne h k = absurd (ground arith)
IsNode-of_two b c (node n l r) ne h k = (n, l, r, refl)

AllLead-of_has :
    (t : Item) (bs : List ℕ) → ((x : ℕ) → 0 < count x bs → has x t ≡ true) → AllLead t (table t) bs
unfolding count
AllLead-of_has t [] h = tt
AllLead-of_has t (x ∷ bs) h =
    let (code, e, p) = codes_of-Leads t [] (λ num. []) x (h x (ground arith)) in
    (rw e p, AllLead-of_has t bs (λ y k. h y (ground arith)))

module _ {qsort : Qsort} (perm : Permutes qsort) {buf : List ℕ} {t : Item}
    (c : IsCodable qsort buf t) where
  -- Every byte that occurs has a leaf.
  holds_occurring : (x : ℕ) → 0 < count x buf → holds x t ≡ true
  holds_occurring x p =
      let (t', e, h) =
        exact_build_tree-holds x qsort (exact_counted buf) perm (length-exact_counted buf)
          (weighed_of_is_leaf (exact_counted buf) (leaves-exact_counted buf))
          (any_of_get_elem (holds x) (exact_counted buf) x
            (exact_counted-count buf x (byte-lt x buf c.bytes p)) (unfold holds in ground arith)) in
      let same : t' ≡ t =
        done-injective (sym (tree_fits qsort buf perm c.bytes c.short e) ∙ c.tree) in
      ap (holds x) (sym same) ∙ h

  pub tree-IsNode : IsNode t
  tree-IsNode =
      IsNode-of_two c.one c.other t c.different (holds_occurring c.one c.has_one)
        (holds_occurring c.other c.has_other)

  pub tree-AllLead : AllLead t (table t) buf
  tree-AllLead = AllLead-of_has t buf (λ x p. has_of_holds x t (holds_occurring x p))

  pub length-table : (b : ℕ) → length (table t b) < 8192
  length-table b =
      omega
        (arith, length-codes_of t [] (λ num. []) 15 (λ x. omega arith) (omega (arith, c.shallow)) b)

  -- The branch for a file of one character is not taken.
  pub one_character_flag-eq_false : one_character_flag buf (exact_counted buf) ≡ false
  unfolding ntimes
  one_character_flag-eq_false =
      ap (is_all (length buf)) (exact_counted-count buf 0 (omega arith))
      ∙ (ne→==_false (count 0 buf) (length buf) (elim (ℕ_discrete c.one 0) [
        | yes e ↦ omega (arith, count_two 0 c.other buf (λ q. c.different (e ∙ q)), c.has_other)
        | no e ↦ omega (arith, count_two 0 c.one buf (λ q. e (sym q)), c.has_one)
      ]))
