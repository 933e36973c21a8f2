-- ===== src/Chunk/Tests.antt =====
-- Runs of the chunk on concrete samples: the examples of docs/formats/chunk.md, and the theorems.
use ozymandias.Base.{
  ℕ, suc, ◌%◌, ◌^◌, ◌≤◌, ◌<◌, ◌≡◌, ◌↔◌, inl, refl, bit_xor, Option, none, some, List, [], ◌∷◌, ◌++◌,
  length, Bool, false, arith,
}
use ozymandias.Base.Word.{signed_lt}
use ozymandias.Chunk.Bits.{bits_of, stream_bits, value_from}
use ozymandias.Chunk.Stream.{
  Writer, Reader, ok, or_last, open_byte, put_bit, write_bit, write_bytes, write_slow, aligned,
  write_bits, write_byte, write_groups, zig_zag, write_varint, new_reader, take_bit, read_bit,
  read_bytes, read_slow, read_bits, read_byte, read_groups, undo_zig_zag, read_varint,
}
use ozymandias.Chunk.Coder.{
  bit_len, leading_zeros, halvings, trailing_zeros, count_of, put_count, new_chunk, own,
  num_samples, zero_chunk, from_bytes, start, Coder,
}
use ozymandias.Chunk.Appender.{
  Appender, chunk_full, not_after, out_of_range, write_class, write_dod, clamp_leading, fits_window,
  write_window, write_value, commit, append,
}
use ozymandias.Chunk.Iterator.{
  read_dod, Iterator, iterator, read_value, decode, next, drain, appender,
}
use ozymandias.Chunk.Stream.Write.{Holds}
use ozymandias.Chunk.Stream.WriteBits.{write_bits-Holds}
use ozymandias.Chunk.Stream.Read.{Reads}
use ozymandias.Chunk.Stream.ReadBits.{read_bits-Reads}
use ozymandias.Chunk.Stream.Varint.{group_bits, varint_bits}
use ozymandias.Chunk.Value.{leading_of, value_window, value_bits}
use ozymandias.Chunk.Value.Read.{read_value-Reads}
use ozymandias.Chunk.Change.{read_dod-Reads, class_bits, dod_bits}
use ozymandias.Chunk.Sealed.{new_reader-Reads}
use ozymandias.Chunk.RoundTrip.{IsSeries, add_all, encode, round_trip}
use ozymandias.Chunk.Refusal.{refusals}

abbrev bytes : Option Appender → List ℕ
bytes none = []
bytes (some a) = a.c.b.stream

-- 1.0 three times, ten seconds apart.
abbrev steady : List (ℕ × ℕ)
steady = (1000, 0x3ff0000000000000) ∷ (11000, 0x3ff0000000000000) ∷ (21000, 0x3ff0000000000000) ∷ []

steady_bytes :
    bytes (encode steady)
    ≡ 0x00 ∷ 0x03 ∷ 0xd0 ∷ 0x0f ∷ 0x3f ∷ 0xf0 ∷ 0 ∷ 0 ∷ 0 ∷ 0 ∷ 0 ∷ 0 ∷ 0xa0 ∷ 0x9c ∷ 0x01 ∷ 0x00
      ∷ []
unfolding or_last open_byte put_bit write_bit write_bytes write_slow aligned write_bits write_byte
    write_groups zig_zag write_varint count_of put_count new_chunk own num_samples out_of_range
    write_class write_dod write_value commit append appender add_all encode
steady_bytes = refl

-- A slow gauge: the third value is written under the window of the second.
abbrev slow_gauge : List (ℕ × ℕ)
slow_gauge =
    (1000, 0x3fe0000000000000) ∷ (11000, 0x3fe000d1b71758e2) ∷ (21000, 0x3fe001a36e2eb1c4) ∷ []

slow_gauge_bytes :
    bytes (encode slow_gauge)
    ≡ 0x00 ∷ 0x03 ∷ 0xd0 ∷ 0x0f ∷ 0x3f ∷ 0xe0 ∷ 0 ∷ 0 ∷ 0 ∷ 0 ∷ 0 ∷ 0 ∷ 0xa0 ∷ 0x9c ∷ 0x01 ∷ 0xf1
      ∷ 0x3e ∷ 0x8d ∷ 0xb8 ∷ 0xba ∷ 0xc7 ∷ 0x17 ∷ 0x7a ∷ 0x2e ∷ 0x5b ∷ 0x27 ∷ 0x3d ∷ 0x24 ∷ 0xc0
      ∷ []
unfolding or_last open_byte put_bit write_bit write_bytes write_slow aligned write_bits write_byte
    write_groups zig_zag write_varint count_of put_count new_chunk own num_samples out_of_range
    write_class write_dod write_value write_window fits_window clamp_leading leading_zeros
    trailing_zeros bit_len halvings commit append appender add_all encode
slow_gauge_bytes = refl

-- Bytes that are shorter than a header are no chunk.
from_bytes_short : from_bytes (7 ∷ []) ≡ none
unfolding from_bytes
from_bytes_short = refl

abbrev decoded : Option Appender → List (ℕ × ℕ)
decoded none = []
decoded (some a) = (drain 5 (iterator a.c)).0

abbrev zero_appender : Appender
zero_appender = record { c = zero_chunk; coder = start }

-- A sample that is appended to the zero value of a chunk is overwritten by the count, and lost.
zero_chunk_loses : decoded (add_all ((1000, 0x3ff0000000000000) ∷ []) zero_appender) ≡ []
unfolding or_last open_byte put_bit write_bit write_bytes write_slow aligned write_bits write_byte
    write_groups zig_zag write_varint count_of put_count num_samples commit append add_all
    new_reader take_bit read_bit read_bytes read_slow read_bits read_byte read_groups undo_zig_zag
    read_varint iterator decode next drain
zero_chunk_loses = refl

steady-IsSeries : IsSeries steady
steady-IsSeries = (
  omega arith,
  omega arith,
  refl,
  (omega arith, omega arith, refl, (omega arith, omega arith, tt, tt)),
)

round_trip_example :
    (a : Appender) × (last : Iterator) × (encode steady ≡ some a)
    × (num_samples a.c ≡ length steady)
    × (drain (suc (length steady)) (iterator a.c) ≡ (steady, last))
    × (last.failure ≡ none)
round_trip_example = round_trip steady steady-IsSeries (omega arith)

abbrev full_appender : Appender
full_appender = record {
  c = record { b = record { stream = 0 ∷ 120 ∷ []; count = 0 }; borrowed = false };
  coder = start;
}

refusals_example :
    (append full_appender 5 0 ≡ chunk_full ↔ 120 ≤ num_samples full_appender.c)
    × (append full_appender 5 0 ≡ not_after
        ↔ (num_samples full_appender.c < 120)
          × (0 < num_samples full_appender.c)
          × (signed_lt full_appender.coder.t 5 ≡ false))
refusals_example = refusals full_appender 5 0

abbrev no_bytes : Writer
no_bytes = record { stream = []; count = 0 }

no_bytes-Holds : Holds [] no_bytes []
unfolding stream_bits
no_bytes-Holds = Holds.full [] tt refl refl refl

write_bits-Holds_example :
    Holds [] (write_bits no_bytes 0xabcd 12) ([] ++ bits_of 12 (0xabcd % 2 ^ 12))
write_bits-Holds_example =
    write_bits-Holds [] 12 0xabcd no_bytes (omega arith) (omega arith) no_bytes-Holds

abbrev twelve : List Bool
twelve = bits_of 12 0xbcd

twelve-Reads : Reads (new_reader (0xbc ∷ 0xd7 ∷ [])) (twelve ++ bits_of 4 7)
unfolding bits_of stream_bits
twelve-Reads =
    new_reader-Reads (0xbc ∷ 0xd7 ∷ []) (twelve ++ bits_of 4 7) (omega arith, (omega arith, tt))
      refl

read_bits-Reads_example :
    (r' : Reader) × (read_bits (length twelve) (new_reader (0xbc ∷ 0xd7 ∷ []))
      ≡ ok (value_from 0 twelve, r'))
    × Reads r' (bits_of 4 7)
unfolding bits_of
read_bits-Reads_example =
    read_bits-Reads twelve (new_reader (0xbc ∷ 0xd7 ∷ [])) (bits_of 4 7) (omega arith) twelve-Reads

thousand-Reads : Reads (new_reader (0xd0 ∷ 0x0f ∷ 0xaa ∷ [])) (varint_bits 1000 ++ bits_of 8 0xaa)
unfolding bits_of stream_bits varint_bits group_bits zig_zag
thousand-Reads =
    new_reader-Reads (0xd0 ∷ 0x0f ∷ 0xaa ∷ []) (varint_bits 1000 ++ bits_of 8 0xaa)
      (omega arith, (omega arith, (omega arith, tt))) refl

five-Reads : Reads (new_reader (0x80 ∷ 0x05 ∷ [])) (dod_bits 5 ++ [])
unfolding bits_of stream_bits class_bits out_of_range
five-Reads =
    new_reader-Reads (0x80 ∷ 0x05 ∷ []) (dod_bits 5 ++ []) (omega arith, (omega arith, tt)) refl

-- The state after 1.0, before 2.0.
abbrev one : Coder
one = record start { v = 0x3ff0000000000000 }

abbrev two : ℕ
two = 0x4000000000000000

two-Reads : Reads (new_reader (0xc2 ∷ 0x5f ∷ 0xff ∷ [])) (value_bits one (bit_xor two one.v) ++ [])
unfolding bits_of stream_bits value_bits leading_of clamp_leading leading_zeros trailing_zeros
    bit_len halvings fits_window
two-Reads =
    new_reader-Reads (0xc2 ∷ 0x5f ∷ 0xff ∷ []) (value_bits one (bit_xor two one.v) ++ [])
      (omega arith, (omega arith, (omega arith, tt))) refl

read_value-Reads_example :
    (r' : Reader) × (read_value one (new_reader (0xc2 ∷ 0x5f ∷ 0xff ∷ []))
      ≡ ok (record (value_window one (bit_xor two one.v)) { v = two }, r'))
    × Reads r' []
read_value-Reads_example =
    read_value-Reads one two (new_reader (0xc2 ∷ 0x5f ∷ 0xff ∷ [])) (inl refl) (omega arith)
      (omega arith) two-Reads

read_dod-Reads_example :
    (r' : Reader) × (read_dod (new_reader (0x80 ∷ 0x05 ∷ [])) ≡ ok (5, r')) × Reads r' []
read_dod-Reads_example = read_dod-Reads 5 (new_reader (0x80 ∷ 0x05 ∷ [])) (omega arith) five-Reads
