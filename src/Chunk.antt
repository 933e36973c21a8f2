-- ===== src/Chunk.antt =====
-- internal/tsdb/chunkenc: a compressed chunk of samples. Bits are written and read by `Stream`, and
-- `Codec` is the appender and the iterator over them.
pub mod Bits
pub mod Stream
pub mod Coder
pub mod Appender
pub mod Iterator
pub mod Value
pub mod Change
pub mod Sealed
pub mod Sample
pub mod RoundTrip
pub mod Refusal
mod Tests
