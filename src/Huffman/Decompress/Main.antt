-- ===== src/Huffman/Decompress/Main.antt =====
-- main of HuffmanCompress/HuffmanDecompress.c, from the bytes of the archive to what is written.
use old_tools.Common.{ℕ, ◌-◌, List, if◌then◌else◌, length, take}
use text.Mathlib.Text.{◌==◌ as str_eq}
use old_tools.Common.Run.{Run, done, exited, ◌>>=◌}
use old_tools.Huffman.Compress.Main.{Archive}
use old_tools.Huffman.Decompress.Build.{null, huffman_build}
use old_tools.Huffman.Decompress.Decode.{decode}

-- The file that is written, and how many values the decoder wrote past the end of `wbuf`.
pub record Decoded : Type 0 where
  pub file : List ℕ
  pub overrun : ℕ

unfoldable pub decode_file : ℕ → List ℕ → Decoded
decode_file size wbuf = record { file = take size wbuf; overrun = length wbuf - size }

unfoldable pub decompress : Archive → Run Decoded
decompress a =
    if str_eq "ccsexyz" a.magic_word
    then (do
      (root, vbuf) ← huffman_build null a.body a.non_zero_nums
      wbuf ← decode root vbuf root a.file_size
      done (decode_file a.file_size wbuf))
    else exited 1
