-- ===== src/Chunk/Iterator.antt =====
-- internal/tsdb/chunkenc/chunk.go: decoding the samples of a chunk one by one.
-- An iterator that has failed keeps the sample before the failure; `At` is not to be asked then.
use ozymandias.Base.{
  ℕ, zero, suc, ◌+◌, ◌-◌, ◌%◌, ◌^◌, bit_and, bit_or, bit_xor, Bool, true, false, not, ◌&&◌, Option,
  none, some, List, [], ◌∷◌, drop, take, length, if◌then◌else◌, ltb, leb, ◌==◌,
}
use ozymandias.Base.Word.{shl, add64}
use ozymandias.Chunk.Stream.{
  Reader, new_reader, Error, end_of_stream, window_unset, impossible_window, Result, ok, err, ◌>>=◌,
  read_bit, read_bits, read_varint,
}
use ozymandias.Chunk.Coder.{Coder, start, Chunk, num_samples, header_len, own}
use ozymandias.Chunk.Appender.{Appender}

pub record Iterator : Type 0 where
  pub br : Reader
  pub total : ℕ
  pub read : ℕ
  pub coder : Coder
  pub failure : Option Error

unfoldable pub iterator : Chunk → Iterator
iterator c =
    if ltb (length c.b.stream) header_len
    then record {
      br = new_reader [];
      total = 0;
      read = 0;
      coder = start;
      failure = some end_of_stream;
    }
    else record {
      br = new_reader (drop header_len c.b.stream);
      total = num_samples c;
      read = 0;
      coder = start;
      failure = none;
    }

-- The loop that counts the ones in front of a delta-of-delta, `n` of them at most.
unfoldable pub read_prefix : ℕ → ℕ → Reader → Result (ℕ × Reader)
read_prefix zero prefix r = ok (prefix, r)
read_prefix (suc n) prefix r = read_bit r >>= λ p.
    let more = read_prefix n (prefix + 1) p.1 in if not p.0 then ok (prefix, p.1) else more

abbrev pub payload_bits : ℕ → ℕ
payload_bits zero = 0
payload_bits (suc zero) = 14
payload_bits (suc (suc zero)) = 17
payload_bits (suc (suc (suc zero))) = 20
payload_bits (suc (suc (suc (suc n)))) = 64

-- `u |= ^uint64(0) << nbits` where the sign bit of the payload is set.
unfoldable pub sign_extend : ℕ → ℕ → ℕ
sign_extend nbits u =
    if ltb nbits 64 && not (bit_and u (2 ^ (nbits - 1)) == 0)
    then bit_or u (shl (2 ^ 64 - 1) nbits)
    else u

unfoldable pub read_payload : ℕ → Reader → Result (ℕ × Reader)
read_payload nbits r = read_bits nbits r >>= λ p. ok (sign_extend nbits p.0, p.1)

unfoldable pub read_dod : Reader → Result (ℕ × Reader)
read_dod r =
    read_prefix 4 0 r >>= λ p. if p.0 == 0 then ok (0, p.1) else read_payload (payload_bits p.0) p.1

-- The description of a new window.
unfoldable pub read_window : Coder → Reader → Result (Coder × Reader)
read_window s r = read_bits 5 r >>= λ p. read_bits 6 p.1 >>= λ q.
    let sigbits = if q.0 == 0 then 64 else q.0 in
    ok (
      record s { leading = p.0 % 256; trailing = (64 + 2 ^ 64 - p.0 - sigbits) % 2 ^ 64 % 256 },
      q.1,
    )

-- The value under the window of `s`.
unfoldable pub read_xor : Coder → Reader → Result (Coder × Reader)
read_xor s r =
    let sigbits = 64 - s.leading - s.trailing in
    if s.leading == 0xff
    then err window_unset
    else if sigbits == 0
    then err impossible_window
    else (read_bits sigbits r >>= λ p. ok (record s { v = bit_xor s.v (shl p.0 s.trailing) }, p.1))

unfoldable pub read_value : Coder → Reader → Result (Coder × Reader)
read_value s r = read_bit r >>= λ p.
    if not p.0
    then ok (s, p.1)
    else (read_bit p.1 >>= λ q.
        if q.0 then (read_window s q.1 >>= λ z. read_xor z.0 z.1) else read_xor s q.1)

-- The `switch` of `Next`.
unfoldable pub decode : ℕ → Coder → Reader → Result (Coder × Reader)
decode n s r =
    if n == 0
    then (read_varint r >>= λ p. read_bits 64 p.1 >>= λ q. ok (record s { t = p.0; v = q.0 }, q.1))
    else if n == 1
    then (read_varint r >>= λ p. read_value (record s { delta = p.0; t = add64 s.t p.0 }) p.1)
    else (read_dod r >>= λ p.
        let delta = add64 s.delta p.0 in
        read_value (record s { delta = delta; t = add64 s.t delta }) p.1)

unfoldable pub next : Iterator → Iterator × Bool
next it =
    let stop : Bool = elim it.failure [ none ↦ leb it.total it.read | some e ↦ true ] in
    if stop then (it, false) else elim (decode it.read it.coder it.br) [
      | ok (s, r) ↦ (record it { br = r; coder = s; read = it.read + 1 }, true)
      | err e ↦ (record it { failure = some e }, false)
    ]

abbrev pub at : Iterator → ℕ × ℕ
at it = (it.coder.t, it.coder.v)

-- `for it.Next() { … }`: the samples in order, and the iterator at the end. Each round raises
-- `read`, which `total` bounds.
unfoldable pub drain : ℕ → Iterator → List (ℕ × ℕ) × Iterator
drain zero it = ([], it)
drain (suc f) it =
    let (it', more) = next it in
    let (rest, last) = drain f it' in if more then (at it' ∷ rest, last) else ([], it')

-- `(*Chunk).Appender`; `none` where the chunk cannot be resumed.
unfoldable pub appender : Chunk → Option Appender
appender c =
    let n = num_samples c in
    let it = (drain n (iterator c)).1 in
    let whole = header_len + it.br.pos in
    let stream = take (if it.br.count == 8 then whole else whole + 1) c.b.stream in
    let count = if it.br.count == 8 then 0 else it.br.count in
    if n == 0 then some (record { c = own c; coder = start }) else elim it.failure [
      | some e ↦ none
      | none ↦ some (record {
        c = record { b = record { stream = stream; count = count }; borrowed = false };
        coder = it.coder;
      })
    ]
