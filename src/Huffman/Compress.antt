-- ===== src/Huffman/Compress.antt =====
-- HuffmanCompress.c: the counting of bytes, the tree, the code table and the written file.
pub mod Codes
pub mod Item
pub mod Main
pub mod Writer
