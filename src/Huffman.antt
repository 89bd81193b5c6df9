-- ===== src/Huffman.antt =====
-- The two programs of HuffmanCompress/.
pub mod Bits
pub mod Compress
pub mod Decompress
pub mod RoundTrip
mod Tests
