-- ===== src/Huffman/RoundTrip/Main.antt =====
-- Decompressing a compressed file (HuffmanCompress/HuffmanCompress.c and HuffmanDecompress.c).
use old_tools.Common.{
  ℕ, ◌+◌, ◌-◌, ◌≤◌, ◌≡◌, ap, sym, ◌∙◌, List, [], ◌∷◌, ◌++◌, arith, length, length-append,
  take-append_left,
}
use old_tools.Common.Run.{done, ◌>>=◌, >>=-done}
use old_tools.Huffman.Bits.{Cells, read}
use old_tools.Huffman.Compress.Item.{Item, Qsort, counted, build_tree}
use old_tools.Huffman.Compress.Item.Exact.{exact_counted}
use old_tools.Huffman.Compress.Item.Fits.{counted_fits}
use old_tools.Huffman.Compress.Item.Merge.{Permutes}
use old_tools.Huffman.Compress.Item.Counts.{count}
use old_tools.Huffman.Compress.Codes.{no_keys}
use old_tools.Huffman.Compress.Codes.Laws.{keys_of, leaves, do_huffman_lem}
use old_tools.Huffman.Compress.Writer.{write_data}
use old_tools.Huffman.Compress.Writer.Laws.{write_data-Carries}
use old_tools.Huffman.Compress.Main.{
  Archive, one_character_flag, make_keys, write_archive, compress_items, compress,
}
use old_tools.Huffman.Decompress.Build.{null, huffman_build}
use old_tools.Huffman.Decompress.Decode.{decode, decode_bits}
use old_tools.Huffman.Decompress.Main.{decode_file, decompress}
use old_tools.Huffman.RoundTrip.Tree.{tree_of, huffman_build-keys_of}
use old_tools.Huffman.RoundTrip.Paths.{decode_bits-encode}
use old_tools.Huffman.RoundTrip.Bytes.{Decodes, decode-bits_of}
use old_tools.Huffman.RoundTrip.Setup.{
  IsCodable, table, tree-IsNode, tree-AllLead, length-table, one_character_flag-eq_false,
}

-- The archive of a codable file: the keys of its tree, and its coded bytes
abbrev pub archive : Cells → List ℕ → Item → Archive
archive stale buf t = record {
  magic_word = "ccsexyz";
  file_size = length buf;
  non_zero_nums = leaves t;
  body = keys_of t [] ++ write_data (table t) buf stale 0;
}

module _ {qsort : Qsort} (perm : Permutes qsort) (stale : Cells) where
  compress-archive :
      (buf : List ℕ) {t : Item}
      → IsCodable qsort buf t
      → compress qsort stale buf ≡ done (archive stale buf t)
  unfolding compress compress_items make_keys write_archive count
  compress-archive [] c = absurd (omega (arith, c.has_one))
  compress-archive (b ∷ bs) {t} c =
      let items = exact_counted (b ∷ bs) in
      let counts = counted_fits (b ∷ bs) c.bytes c.short in
      let tree : build_tree qsort items ≡ done t =
        ap (λ r. r >>= build_tree qsort) (sym counts) ∙ c.tree in
      >>=-done (counted (b ∷ bs)) (compress_items qsort stale (b ∷ bs)) counts (
        >>=-done (build_tree qsort items)
          (λ head. make_keys (one_character_flag (b ∷ bs) items) head >>= λ k.
            done (write_archive stale (b ∷ bs) k))
          tree
          (>>=-done (make_keys (one_character_flag (b ∷ bs) items) t)
            (λ k. done (write_archive stale (b ∷ bs) k))
            (ap (λ flag. make_keys flag t) (one_character_flag-eq_false perm c)
              ∙ do_huffman_lem t [] no_keys (omega (arith, c.shallow)))
            (ap (λ n. done (record (archive stale (b ∷ bs) t) { non_zero_nums = n }))
              {x = 0 + leaves t} {y = leaves t} (omega arith))))

  -- The decoder's loop over the coded bytes of the file
  decode-buf :
      (buf : List ℕ) {t : Item}
      → IsCodable qsort buf t
      → (extra : List ℕ) × Decodes
          (tree_of t)
          (write_data (table t) buf stale 0)
          (tree_of t)
          (length buf)
          (buf ++ extra)
  unfolding count read
  decode-buf [] c = absurd (omega (arith, c.has_one))
  decode-buf (b ∷ bs) {t} c =
      let carried =
        write_data-Carries (table t) b bs stale 0 (omega arith) (length-table perm c) c.tail_kept in
      let (curr, extra, e) =
        decode_bits-encode t (table t) carried.pad (tree-IsNode perm c) (b ∷ bs)
          (tree-AllLead perm c) in
      (
        extra,
        decode-bits_of (tree_of t) (write_data (table t) (b ∷ bs) stale 0) (tree_of t)
            (length (b ∷ bs))
            (ap (λ bits. decode_bits (tree_of t) bits (tree_of t)) carried.bits ∙ e)
            (omega (arith, length-append (b ∷ bs) extra)),
      )

  decompress-archive :
      (buf : List ℕ) {t : Item}
      → IsCodable qsort buf t
      → (n : ℕ) × (decompress (archive stale buf t) ≡ done (record { file = buf; overrun = n }))
        × (n ≤ 7)
  unfolding decompress decode_file
  decompress-archive buf {t} c =
      let (extra, d) = decode-buf buf c in
      let vbuf = write_data (table t) buf stale 0 in
      (
        length d.written - length buf,
        >>=-done (huffman_build null (keys_of t [] ++ vbuf) (leaves t)) _
            (huffman_build-keys_of t vbuf (omega (arith, c.shallow)))
            (>>=-done (decode (tree_of t) vbuf (tree_of t) (length buf)) _ d.runs (
              ap (λ f. done (record { file = f; overrun = length d.written - length buf }))
                (d.agrees ∙ take-append_left buf extra))),
        omega (arith, d.bound),
      )

-- For every qsort that permutes its array and every codable file (fewer than 2^31 bytes, all
-- below 256, two of them different, a tree at most 15 deep, and a last code that does not end
-- beyond a flush of the buffer), compress ends without a fault whatever the character buffer
-- first held, decompress makes the same file of the archive, and it writes at most seven
-- values past the end of its buffer.
pub decompress-compress :
    {qsort : Qsort} (stale : Cells) {buf : List ℕ} {t : Item}
    → Permutes qsort
    → IsCodable qsort buf t
    → (a : Archive) × (n : ℕ) × (compress qsort stale buf ≡ done a)
      × (decompress a ≡ done (record { file = buf; overrun = n }))
      × (n ≤ 7)
decompress-compress stale {buf} {t} perm c =
    let (n, e, h) = decompress-archive perm stale buf c in
    (archive stale buf t, n, compress-archive perm stale buf c, e, h)
