-- ===== src/Chunk/Stream.antt =====
-- internal/tsdb/chunkenc/bstream.go: the bit writer and the bit reader. A byte slice is a list of
-- numbers, a uint64 a number below 2 ^ 64, and an int64 its two's complement pattern.
pub mod Write
pub mod WriteBits
pub mod Read
pub mod ReadBits
pub mod Varint
use ozymandias.Base.{
  ℕ, zero, suc, ◌+◌, ◌-◌, ◌*◌, ◌%◌, ◌^◌, bit_and, bit_or, Bool, true, false, not, ◌&&◌, Option,
  none, some, List, [], ◌∷◌, ◌++◌, if◌then◌else◌, ltb, leb, ◌==◌, get_elem?, length,
}
use ozymandias.Base.Word.{shl, shr, complement}

-- `bstream`: `count` is how many bits are free in the last byte.
pub record Writer : Type 0 where
  pub stream : List ℕ
  pub count : ℕ

-- `b.stream[len(b.stream)-1] |= m`
unfoldable pub or_last : ℕ → List ℕ → List ℕ
or_last m [] = []
or_last m (x ∷ []) = bit_or x m ∷ []
or_last m (x ∷ y ∷ ys) = x ∷ or_last m (y ∷ ys)

-- The byte that `writeBit` opens when none is open.
unfoldable pub open_byte : Writer → Writer
open_byte w = if w.count == 0 then record { stream = w.stream ++ 0 ∷ []; count = 8 } else w

unfoldable pub put_bit : Writer → Bool → Writer
put_bit w bit = record {
  stream = if bit then or_last (2 ^ (w.count - 1)) w.stream else w.stream;
  count = w.count - 1;
}

unfoldable pub write_bit : Writer → Bool → Writer
write_bit w bit = put_bit (open_byte w) bit

-- The state of `writeBits` between its two loops.
pub record Pending : Type 0 where
  pub writer : Writer
  pub word : ℕ
  pub nbits : ℕ

-- The first loop: whole bytes, while the last one is full. Each round takes 8 of `nbits`.
unfoldable pub write_bytes : ℕ → Writer → ℕ → ℕ → Pending
write_bytes zero w u n = record { writer = w; word = u; nbits = n }
write_bytes (suc f) w u n =
    let more =
      write_bytes f (record w { stream = w.stream ++ (shr u 56 % 256) ∷ [] }) (shl u 8) (n - 8) in
    if leb 8 n && w.count == 0 then more else record { writer = w; word = u; nbits = n }

-- The second loop: bit by bit, the highest first.
unfoldable pub write_slow : Writer → ℕ → ℕ → Writer
write_slow w u zero = w
write_slow w u (suc n) = write_slow (write_bit w (not (bit_and u (2 ^ 63) == 0))) (shl u 1) n

-- The word with its low `nbits` bits at the top.
unfoldable pub aligned : ℕ → ℕ → ℕ
aligned u n = if ltb n 64 then shl u (64 - n) else u

-- `nbits` is never negative where the package calls it.
unfoldable pub write_bits : Writer → ℕ → ℕ → Writer
write_bits w u n =
    let p = write_bytes n w (aligned u n) n in
    if n == 0 then w else write_slow p.writer p.word p.nbits

unfoldable pub write_byte : Writer → ℕ → Writer
write_byte w v = write_bits w v 8

-- The loop of `writeVarint`; the groups of a uint64 are 10 at most.
unfoldable pub write_groups : ℕ → Writer → ℕ → Writer
write_groups zero w u = write_byte w (u % 256)
write_groups (suc f) w u =
    let more = write_groups f (write_byte w (bit_or (u % 256) 0x80)) (shr u 7) in
    if leb 0x80 u then more else write_byte w (u % 256)

unfoldable pub zig_zag : ℕ → ℕ
zig_zag v = if leb (2 ^ 63) v then complement (shl v 1) else shl v 1

unfoldable pub write_varint : Writer → ℕ → Writer
write_varint w v = write_groups 9 w (zig_zag v)

-- The errors of the package.
pub data Error : Type 0 where
  end_of_stream varint_overflow window_unset impossible_window : Error

pub data Result {ℓ} (A : Type ℓ) : Type ℓ where
  ok : A → Result A
  err : Error → Result A

infixl 5 ◌>>=◌
abbrev pub ◌>>=◌ {ℓ κ} : {A : Type ℓ} {B : Type κ} → Result A → (A → Result B) → Result B
ok a >>= f = f a
err e >>= f = err e

-- `bstreamReader`: `count` is how many bits of `stream[pos]` are unread.
pub record Reader : Type 0 where
  pub stream : List ℕ
  pub pos : ℕ
  pub count : ℕ

unfoldable pub new_reader : List ℕ → Reader
new_reader b = record { stream = b; pos = 0; count = 8 }

-- The end of `readBit`, on the byte that is read.
unfoldable pub take_bit : Reader → Option ℕ → Result (Bool × Reader)
take_bit r none = err end_of_stream
take_bit r (some b) =
    ok (not (bit_and b (2 ^ (r.count - 1)) == 0), record r { count = r.count - 1 })

unfoldable pub read_bit : Reader → Result (Bool × Reader)
read_bit r =
    if leb (length r.stream) r.pos
    then err end_of_stream
    else if r.count == 0
    then take_bit (record r { pos = r.pos + 1; count = 8 }) (get_elem? r.stream (r.pos + 1))
    else take_bit r (get_elem? r.stream r.pos)

-- The state of `readBits` between its two loops.
pub record Partial : Type 0 where
  pub value : ℕ
  pub nbits : ℕ
  pub reader : Reader

-- The first loop: whole bytes, while none of the current one is read.
unfoldable pub read_bytes : ℕ → ℕ → ℕ → Reader → Result Partial
read_bytes zero u n r = ok (record { value = u; nbits = n; reader = r })
read_bytes (suc f) u n r = elim (leb 8 n && r.count == 8) [
  | false ↦ ok (record { value = u; nbits = n; reader = r })
  | true ↦ elim (get_elem? r.stream r.pos) [
    | none ↦ err end_of_stream
    | some b ↦ read_bytes f (bit_or (shl u 8) b) (n - 8) (record r { pos = r.pos + 1 })
  ]
]

unfoldable pub read_slow : ℕ → ℕ → Reader → Result (ℕ × Reader)
read_slow u zero r = ok (u, r)
read_slow u (suc n) r =
    read_bit r >>= λ p. read_slow (if p.0 then bit_or (shl u 1) 1 else shl u 1) n p.1

unfoldable pub read_bits : ℕ → Reader → Result (ℕ × Reader)
read_bits n r = read_bytes n 0 n r >>= λ p. read_slow p.value p.nbits p.reader

unfoldable pub read_byte : Reader → Result (ℕ × Reader)
read_byte r = read_bits 8 r >>= λ p. ok (p.0 % 256, p.1)

-- The loop of `readVarint`. The shift passes 63 after 10 rounds, so the rounds do not run out.
unfoldable pub read_groups : ℕ → ℕ → ℕ → Reader → Result (ℕ × Reader)
read_groups zero u shift r = err varint_overflow
read_groups (suc f) u shift r =
    if leb 64 shift
    then err varint_overflow
    else (read_byte r >>= λ p.
        let u' = bit_or u (shl (bit_and p.0 0x7f) shift) in
        let more = read_groups f u' (shift + 7) p.1 in if ltb p.0 0x80 then ok (u', p.1) else more)

unfoldable pub undo_zig_zag : ℕ → ℕ
undo_zig_zag u = if not (bit_and u 1 == 0) then complement (shr u 1) else shr u 1

unfoldable pub read_varint : Reader → Result (ℕ × Reader)
read_varint r = read_groups 11 0 0 r >>= λ p. ok (undo_zig_zag p.0, p.1)
