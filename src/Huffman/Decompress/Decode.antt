-- ===== src/Huffman/Decompress/Decode.antt =====
-- The decoding loop of main (HuffmanCompress/HuffmanDecompress.c).
use old_tools.Common.{
  ℕ, zero, suc, ◌-◌, Bool, true, false, List, [], ◌∷◌, ◌++◌, if◌then◌else◌, length,
}
use old_tools.Common.Run.{Run, done, fault, ◌>>=◌}
use old_tools.Huffman.Bits.{Bits, low_bits}
use old_tools.Huffman.Decompress.Build.{TreeItem, null, item}

-- `if (rc) curr = curr->left; else curr = curr->right;`
unfoldable pub child : TreeItem → Bool → Run TreeItem
child null rc = fault
child (item num flag left right) rc = done (if rc then left else right)

-- `if (curr->flag) { wbuf[i] = curr->num; i++; curr = root; }`: the new `curr`, and what was written
unfoldable pub emit : TreeItem → TreeItem → Run (TreeItem × List ℕ)
emit root null = fault
emit root (item num true left right) = done (root, num ∷ [])
emit root (item num false left right) = done (item num false left right, [])

-- The inner loop over the bits of a byte
unfoldable pub decode_bits : TreeItem → Bits → TreeItem → Run (TreeItem × List ℕ)
unfolding child emit
decode_bits root [] curr = done (curr, [])
decode_bits root (rc ∷ bits) curr = do
  next ← child curr rc
  (curr', written) ← emit root next
  (curr'', more) ← decode_bits root bits curr'
  done (curr'', written ++ more)

-- The outer loop, where `left` values are missing: it returns all that it writes to `wbuf`, past
-- its end too. A read past the last byte is a fault.
unfoldable pub decode : TreeItem → List ℕ → TreeItem → ℕ → Run (List ℕ)
unfolding decode_bits low_bits
decode root vbuf curr zero = done []
decode root [] curr (suc n) = fault
decode root (value ∷ vbuf) curr (suc n) = do
  (curr', written) ← decode_bits root (low_bits 8 value) curr
  more ← decode root vbuf curr' (suc n - length written)
  done (written ++ more)
