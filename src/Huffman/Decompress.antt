-- ===== src/Huffman/Decompress.antt =====
-- HuffmanDecompress.c: the tree rebuilt from the keys, and the decoding of the data.
pub mod Build
pub mod Decode
pub mod Main
