-- ===== src/Wal.antt =====
-- internal/tsdb/wal: the write-ahead log. Wal/Frame is the framing of records, Wal/Reader the replay
-- of a directory (reader.go), Wal/Log the appending (wal.go) and Wal/Files the repair and the
-- checkpoints (truncate.go). CRC-32C, of hash/crc32, is a parameter.
pub mod Frame
pub mod Reader
pub mod Log
pub mod Files
pub mod Replay
pub mod Drain
pub mod Append
pub mod Batch
pub mod Recovery
pub mod Damage
pub mod Checkpoint
mod Tests
