-- ===== src/Huffman/RoundTrip.antt =====
-- The two programs of HuffmanCompress/ together.
pub mod Bytes
pub mod Main
pub mod Paths
pub mod Setup
pub mod Tree
