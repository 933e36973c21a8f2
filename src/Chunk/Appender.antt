-- ===== src/Chunk/Appender.antt =====
-- internal/tsdb/chunkenc/chunk.go: encoding one sample at the end of a chunk.
use ozymandias.Base.{
  ℕ, ◌+◌, ◌-◌, ◌^◌, bit_and, bit_xor, Bool, true, false, not, ◌&&◌, ◌||◌, List, [], ◌∷◌,
  if◌then◌else◌, ltb, leb, ◌==◌,
}
use ozymandias.Base.Word.{shr, sub64, signed_lt}
use ozymandias.Chunk.Stream.{Writer, write_bit, write_bits, write_varint}
use ozymandias.Chunk.Coder.{
  Coder, Bucket, dod_buckets, leading_zeros, trailing_zeros, put_count, Chunk, num_samples,
  max_samples_per_chunk,
}

pub record Appender : Type 0 where
  pub c : Chunk
  pub coder : Coder

-- Whether a signed value has no pattern of `b.bits` bits.
unfoldable pub out_of_range : ℕ → ℕ → Bool
out_of_range bits dod =
    ltb bits 64 && (signed_lt dod (2 ^ 64 - 2 ^ (bits - 1)) || signed_lt (2 ^ (bits - 1) - 1) dod)

-- The loop of `writeDOD`.
unfoldable pub write_class : List Bucket → Writer → ℕ → Writer
write_class [] w dod = w
write_class (b ∷ bs) w dod =
    let more = write_class bs w dod in
    if b.bits == 0
    then (if dod == 0 then write_bits w b.prefix b.prefix_bits else more)
    else if out_of_range b.bits dod
    then more
    else write_bits (write_bits w b.prefix b.prefix_bits) dod b.bits

unfoldable pub write_dod : Writer → ℕ → Writer
write_dod w dod = write_class dod_buckets w dod

-- 5 bits hold at most 31.
unfoldable pub clamp_leading : ℕ → ℕ
clamp_leading l = if leb 32 l then 31 else l

unfoldable pub fits_window : Coder → ℕ → ℕ → Bool
fits_window s leading trailing =
    not (s.leading == 0xff) && leb s.leading leading && leb s.trailing trailing

-- The part of `writeValue` behind the bit that says "changed", on a nonzero XOR.
unfoldable pub write_window : Coder → ℕ → Writer → Writer × Coder
write_window s x w =
    let leading = clamp_leading (leading_zeros x) in
    let trailing = trailing_zeros x in
    let sigbits = 64 - leading - trailing in
    let reused = write_bits (write_bit w false) (shr x s.trailing) (64 - s.leading - s.trailing) in
    let described = write_bits (write_bits (write_bit w true) leading 5) (bit_and sigbits 0x3f) 6 in
    if fits_window s leading trailing then (reused, s) else (
      write_bits described (shr x trailing) sigbits,
      record s { leading = leading; trailing = trailing },
    )

unfoldable pub write_value : Coder → ℕ → Writer → Writer × Coder
write_value s v w =
    let x = bit_xor v s.v in
    if x == 0 then (write_bit w false, s) else write_window s x (write_bit w true)

-- What `Append` returns; after an error the appender is as it was.
pub data Appended : Type 0 where
  done : Appender → Appended
  chunk_full not_after : Appended

-- The end of `Append`, with the sample written.
unfoldable pub commit : Appender → ℕ → ℕ → ℕ → Writer × Coder → Appended
commit a n t v p =
    let b : Writer = record { stream = put_count (n + 1) p.0.stream; count = p.0.count } in
    done (record {
      c = record { b = b; borrowed = a.c.borrowed };
      coder = record {
        t = t;
        v = v;
        delta = p.1.delta;
        leading = p.1.leading;
        trailing = p.1.trailing;
      };
    })

unfoldable pub append : Appender → ℕ → ℕ → Appended
append a t v =
    let n = num_samples a.c in
    let w = a.c.b in
    let s = a.coder in
    let delta = sub64 t s.t in
    let s' = record s { delta = delta } in
    if leb max_samples_per_chunk n
    then chunk_full
    else if n == 0
    then commit a n t v (write_bits (write_varint w t) v 64, s)
    else if not (signed_lt s.t t)
    then not_after
    else if n == 1
    then commit a n t v (write_value s' v (write_varint w delta))
    else commit a n t v (write_value s' v (write_dod w (sub64 delta s.delta)))
