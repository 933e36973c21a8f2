-- ===== src/Lib.antt =====
-- ozymandias: a model of the core of the observability server, with the theorems that make it
-- correct.
--
-- The agent sends samples, logs and traces to a server, which writes samples to a log before it
-- keeps them in compressed chunks, keeps logs in blocks and traces under ordered keys, and
-- evaluates monitors over what is kept. These parts are modelled.
--
-- Chunk models internal/tsdb/chunkenc. Chunk/Stream is bstream.go: `writeBit`, `writeBits` and
-- `writeVarint` on a bstream (write_bit, write_bits, write_varint on a Writer), and `readBit`,
-- `readBits` and `readVarint` on a bstreamReader (read_bit, read_bits, read_varint on a Reader).
-- Chunk/Coder, Chunk/Appender and Chunk/Iterator are chunk.go: the chunk and its header, `Append`,
-- `writeDOD` and `writeValue` (append, write_dod, write_value), `Next`, `readDOD` and `readValue`
-- (next, read_dod, read_value), and `Appender` (appender), which resumes a chunk. Each call takes
-- the state and returns the next one; an error is a constructor of Result or of Appended. The
-- specification is a list of bits (Chunk/Bits): Chunk/Stream/Write says which bits a writer holds,
-- Chunk/Stream/Read which bits lie ahead of a reader, Chunk/Value, Chunk/Change and Chunk/Sample
-- which bits stand for a value, a delta-of-delta and a sample, and Chunk/Sealed turns what was
-- written into what is read. Chunk/RoundTrip puts them together.
--
-- Monitor models internal/monitor. Monitor/Levels is spec: `Compare`, and `levels`, which fills the
-- defaults of the thresholds and checks them. Monitor/State is state.go: `Step` (step) with
-- `evaluate` and `noData` (evaluate, silent_status). Monitor/Advance is advance.go: one
-- evaluation's values applied to every group of a monitor, each by one step.
--
-- Compact models internal/tsdb/compact: the planner, `Next` (next_plan) over blocks that are sorted
-- and grouped by level and resolution, and the merge, `mergedSeries` and `gather` (merged_series,
-- gather), which collect the series and samples of a plan (run_plan). A merged block is encoded
-- with the chunks of Chunk, which take only times that rise.
--
-- LogHub models internal/loghub: `Publish` (publish) offers logs to subscriptions, whose channels
-- are bounded lists; `Subscribe`, `Close` and `TakeDropped` are subscribe, close and take_dropped.
--
-- Index models internal/tsdb/index/index.go: the increasing lists of ids under a tag, with
-- `appendSorted`, `removeID`, `intersect`, `gallop`, `subtract` and `merge` (append_sorted,
-- remove_id, intersect, gallop, subtract, merge). Index/Select is select.go: `Select` (select) over
-- any index that implements the interface `Lookup`, with the glob of a wildcard as a parameter.
--
-- Wal models internal/tsdb/wal. Wal/Frame is the record on disk; Wal/Reader is reader.go: `Next`,
-- `readRecord` with its verdict on damage (`torn`, `endsAt`), and `drain`, which reads to the end;
-- Wal/Log is wal.go: `Open`, `Log` with `roll` and `undoPartial`, `Sync` and `Close` (open_log,
-- log, roll, undo_partial, sync, close), where what each call of the operating system does is an
-- argument (Os); Wal/Files is truncate.go: `Repair`, `TruncateTail` and `Truncate` with its
-- checkpoint (repair, truncate_tail, truncate, write_checkpoint) on a directory of numbered files.
-- Wal/Replay and Wal/Drain say what a reader makes of whole records and a torn tail, Wal/Append and
-- Wal/Batch which bytes a batch leaves, and Wal/Recovery puts them together.
--
-- Head models internal/tsdb/head/record.go: the records of a head in that log (encode_series,
-- decode_series, encode_samples, decode_samples, with the decoder's `uvarint`, `varint`, `uint64`
-- and `str`) and `keepForCheckpoint` (keep_for_checkpoint). Head/Kept joins it with `Truncate` of
-- Wal.
--
-- Trace models internal/tracestore/keys.go: the keys of spans, entries, edges and hours (entry_key,
-- edge_key, seen_key and others), which are read back (split_suffix, split_pair, split_edge_key),
-- and `successor`, which ends the scan of a prefix.
--
-- Logql models the matching half of internal/query/logql: the nodes of a query (ast.go); `Compile`
-- (compile) in Logql/Match, with the search of texts `containsWild` (contains_wild) in Logql/Search
-- and the filters of labels and attributes in Logql/Attrs, where `lookup` walks the attributes and
-- `globMatch` (glob_match) compares; and in Logql/Needs `Needs` (needs), the text that a block must
-- hold. Logql/Lower states what strings.ToLower does. LogStore models internal/logstore/bloom.go:
-- `buildBloom`, `parseBloom` and `mayMatch` (build_bloom, parse_bloom, may_match). LogStore/Skip
-- takes what Logql needs to a filter of LogStore, as a search does.
--
-- Tailer models internal/agent/tailer/multiline.go: `add` and `flush`, which join lines to events.
--
-- Base holds what they share: lists, integers, 64-bit words with `|`, `&`, `^` and shifts as
-- arithmetic, and the comparisons of float64.
--
-- Representation. An integer of Go is a native number with its wrap-around written out: a uint64
-- and an int64 are below 2 ^ 64, the second as its two's complement pattern. A float64 is its IEEE
-- bit pattern; of floats only comparisons and bits are used. A byte slice is a list, so copies and
-- spare capacity do not show, and `own` only clears a flag. A time is the number of nanoseconds
-- since Go's zero time, and a duration is held within int64 by `Time.Sub`. A map is an association
-- list with distinct keys. In Compact a time is a number of milliseconds since 1970, so not
-- negative. Messages of errors are not modelled. A group's count of breaches has no bound, and
-- `Publish` is one step: other calls, which its read lock lets in, come before it or after it.
--
-- Bounds. `write_groups` runs at most 10 rounds of 7 bits, which is all of a uint64; `read_groups`
-- stops at a shift of 64, before its 11 rounds are used up; the byte loops of `write_bits` and
-- `read_bits` take 8 bits in each of at most n rounds; `drain` of a chunk takes one round more than
-- there are samples, and `drain` of a log one more than there are bytes, since a record takes some;
-- `gallop_from` and `intersect_from` move on in each of as many rounds as there are ids; a uvarint
-- has at most 10 groups, which is all of a uint64; `merge_from` and `merge_lists` take an id or a
-- key in each of as many rounds as there are keys; `bit_len` and `halvings` halve a word at most 64
-- times. A chunk holds at most 120 samples, so its count never passes the 16 bits of its header.
--
-- Not modelled: the slices' aliasing, goroutines and clocks around a step, storage of states,
-- delivery of notifications and the parsers of queries. Of the log, failing reads, the formatting
-- and parsing of file names, the empty segment that a failed rollover may leave, and the limit of 2
-- ^ 62 bytes of a checkpoint; of its files, that a removal may fail. CRC-32C, strings.ToLower,
-- strconv.ParseFloat and the hash of a resource are parameters. Attributes are decoded JSON, whose
-- numbers stay text, so values that are Go numbers are left out of `numberOf` and `eqMatches`. The
-- other packages of the server and the agent are mostly input and output: HTTP handlers, SQL,
-- Docker and file handling.
pub mod Base
pub mod Chunk
pub mod Monitor
pub mod Compact
pub mod LogHub
pub mod Index
pub mod Tailer
pub mod Wal
pub mod Head
pub mod Trace
pub mod Logql
pub mod LogStore
