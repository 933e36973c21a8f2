-- ===== src/Chunk/Stream/ReadBits.antt =====
-- `readBits` on both its paths: the bytes of an aligned reader, and the single bits.
use ozymandias.Base.{
  ℕ, zero, suc, ◌+◌, ◌-◌, ◌*◌, ◌^◌, ◌≤◌, ◌<◌, ◌≡◌, refl, ap, sym, ◌∙◌, inl, inr, bit_or, Bool, true,
  false, ◌&&◌, some, List, [], ◌∷◌, ◌++◌, leb, ◌==◌, All, drop, length, length-append, get_elem?,
  arith, Bool-cases,
}
use ozymandias.Base.Word.{IsByte, shl}
use ozymandias.Base.Word.Bitwise.{bit_or_fields}
use ozymandias.Base.Word.Power.{pow-add}
use ozymandias.Chunk.Bits.{
  bits_of, stream_bits, value_from, value_from-append, value_from-bits_of, length-bits_of,
  append_split,
}
use ozymandias.Chunk.Stream.{Reader, Result, ok, ◌>>=◌, read_bytes, read_slow, read_bits}
use ozymandias.Chunk.Stream.Read.{
  Reads, remaining, remaining-full, drop_cons, word_room, read_slow-Reads,
}

-- Both loops of `readBits`.
abbrev read_all : ℕ → ℕ → ℕ → Reader → Result (ℕ × Reader)
read_all f u n r = read_bytes f u n r >>= λ q. read_slow q.value q.nbits q.reader

abbrev BitsRead : Result (ℕ × Reader) → ℕ → List Bool → Type 0
BitsRead m v bits = (r' : Reader) × (m ≡ ok (v, r')) × Reads r' bits

-- A whole byte ahead of an aligned reader.
record ByteAhead (r : Reader) (p bits : List Bool) : Type 0 where
  byte : ℕ
  later : List Bool
  elem : get_elem? r.stream r.pos ≡ some byte
  fits : byte < 2 ^ 8
  split : p ≡ bits_of 8 byte ++ later
  after : Reads (record r { pos = r.pos + 1 }) (later ++ bits)

byte_on :
    (r : Reader) (p bits : List Bool) (rest : List ℕ)
    → drop r.pos r.stream ≡ rest
    → All IsByte rest
    → r.count ≡ 8
    → 8 ≤ length p
    → p ++ bits ≡ remaining 8 rest
    → ByteAhead r p bits
byte_on r [] bits rest d by c l e = absurd (omega arith)
byte_on r (x ∷ p) bits [] d by c l e = absurd (unfold remaining in cc)
byte_on r (x ∷ p) bits (b ∷ bs) d by c l e =
    let (i, _, d') = drop_cons r.stream r.pos b bs d in
    let (p', q, t) =
      append_split (x ∷ p) (bits_of 8 b) bits (stream_bits bs)
        (e ∙ remaining-full (b ∷ bs) by ∙ unfold stream_bits in refl) (rw length-bits_of l) in
    record {
      byte = b;
      later = p';
      elem = i;
      fits = by.0;
      split = q;
      after = record {
        rest = bs;
        suffix = d';
        bytes = by.1;
        small = omega arith;
        ahead = t ∙ sym (remaining-full bs by.1) ∙ ap (λ k. remaining k bs) (sym c);
      };
    }

byte_ahead :
    (r : Reader) (p bits : List Bool)
    → (leb 8 (length p) && r.count == 8) ≡ true
    → Reads r (p ++ bits)
    → ByteAhead r p bits
byte_ahead r p bits fast h =
    let c : r.count ≡ 8 = ground (arith, fast) in
    let wide : 8 ≤ length p = ground (arith, fast) in
    byte_on r p bits h.rest h.suffix h.bytes c wide (h.ahead ∙ ap (λ k. remaining k h.rest) c)

push_byte :
    (j u b : ℕ)
    → j + 8 ≤ 64
    → u < 2 ^ j
    → b < 2 ^ 8
    → (bit_or (shl u 8) b ≡ value_from u (bits_of 8 b)) × (value_from u (bits_of 8 b) < 2 ^ (j + 8))
push_byte j u b l h f =
    let room : 2 ^ j * 256 ≤ 2 ^ 64 = word_room j 8 l in
    let whole : shl u 8 ≡ u * 2 ^ 8 = omega (arith, room) in
    let spelt : value_from u (bits_of 8 b) ≡ u * 2 ^ 8 + b = value_from-bits_of 8 u b f in
    (rw whole (bit_or_fields 8 u b f ∙ sym spelt), omega (arith, spelt, pow-add j 8))

read_bytes-zero :
    (u n : ℕ) (r : Reader)
    → read_bytes zero u n r ≡ ok (record { value = u; nbits = n; reader = r })
unfolding read_bytes
read_bytes-zero u n r = refl

-- One round of the first loop.
read_bytes-suc :
    (f u n b : ℕ) (r : Reader)
    → (leb 8 n && r.count == 8) ≡ true
    → get_elem? r.stream r.pos ≡ some b
    → read_bytes (suc f) u n r
      ≡ read_bytes f (bit_or (shl u 8) b) (n - 8) (record r { pos = r.pos + 1 })
unfolding read_bytes
read_bytes-suc f u n b r t e = ground (arith, t, e)

read_bytes-stop :
    (f u n : ℕ) (r : Reader)
    → (leb 8 n && r.count == 8) ≡ false
    → read_bytes (suc f) u n r ≡ ok (record { value = u; nbits = n; reader = r })
unfolding read_bytes
read_bytes-stop f u n r t = ground (arith, t)

length-later :
    (p later : List Bool) (b : ℕ) → p ≡ bits_of 8 b ++ later → length p ≡ 8 + length later
length-later p later b e =
    ap length e
    ∙ length-append (bits_of 8 b) later
    ∙ ap (λ k. k + length later) (length-bits_of 8 b)

read_all-suc :
    (f u n b m : ℕ) {v : ℕ} (r : Reader)
    → (leb 8 n && r.count == 8) ≡ true
    → get_elem? r.stream r.pos ≡ some b
    → bit_or (shl u 8) b ≡ v
    → n - 8 ≡ m
    → read_all (suc f) u n r ≡ read_all f v m (record r { pos = r.pos + 1 })
read_all-suc f u n b m r fast e pushed less = rw (read_bytes-suc f u n b r fast e, pushed, less)

-- What a round leaves to read is read by the rounds after it.
read_all-byte :
    (f : ℕ) (p : List Bool) (j u : ℕ) (r : Reader) (bits : List Bool)
    → (leb 8 (length p) && r.count == 8) ≡ true
    → j + length p ≤ 64
    → u < 2 ^ j
    → (a : ByteAhead r p bits)
    → (value_from u (bits_of 8 a.byte) < 2 ^ (j + 8)
        → BitsRead
            (read_all f
              (value_from u (bits_of 8 a.byte))
              (length a.later)
              (record r { pos = r.pos + 1 }))
            (value_from (value_from u (bits_of 8 a.byte)) a.later)
            bits)
    → BitsRead (read_all (suc f) u (length p) r) (value_from u p) bits
read_all-byte f p j u r bits fast l b a ih =
    let len = length-later p a.later a.byte a.split in
    let less : length p - 8 ≡ length a.later = omega (arith, len) in
    let (pushed, fits) = push_byte j u a.byte (omega (arith, len)) b a.fits in
    let spelt : value_from u p ≡ value_from (value_from u (bits_of 8 a.byte)) a.later =
      ap (value_from u) a.split ∙ value_from-append u (bits_of 8 a.byte) a.later in
    let (r', e, h') = ih fits in
    (
      r',
      read_all-suc f u (length p) a.byte (length a.later) r fast a.elem pushed less
          ∙ e
          ∙ ap (λ v. ok (v, r')) (sym spelt),
      h',
    )

read_all-Reads :
    (f : ℕ) (p : List Bool) (j u : ℕ) (r : Reader) (bits : List Bool)
    → j + length p ≤ 64
    → u < 2 ^ j
    → Reads r (p ++ bits)
    → BitsRead (read_all f u (length p) r) (value_from u p) bits
read_all-Reads zero p j u r bits l b h =
    rw (read_bytes-zero u (length p) r) (read_slow-Reads p j u r bits l b h)
read_all-Reads (suc f) p j u r bits l b h = elim (Bool-cases (leb 8 (length p) && r.count == 8)) [
  | inr slow ↦ rw (read_bytes-stop f u (length p) r slow) (read_slow-Reads p j u r bits l b h)
  | inl fast ↦
      let a = byte_ahead r p bits fast h in
      read_all-byte f p j u r bits fast l b a (λ fits.
        read_all-Reads f a.later (j + 8) (value_from u (bits_of 8 a.byte))
          (record r { pos = r.pos + 1 }) bits
          (omega (arith, l, length-later p a.later a.byte a.split)) fits a.after)
]

-- The reader returns the number that the next `n` bits spell, for at most 64 of them, on both paths
-- of `readBits`, and whether or not it stands on a byte boundary.
pub read_bits-Reads :
    (p : List Bool) (r : Reader) (bits : List Bool)
    → length p ≤ 64
    → Reads r (p ++ bits)
    → (r' : Reader) × (read_bits (length p) r ≡ ok (value_from 0 p, r')) × Reads r' bits
unfolding read_bits
read_bits-Reads p r bits l h = read_all-Reads (length p) p 0 0 r bits (omega arith) (omega arith) h

-- A number that was written with `n` bits is read back with `n` bits.
pub read_bits-number :
    (n v : ℕ) (r : Reader) (bits : List Bool)
    → n ≤ 64
    → v < 2 ^ n
    → Reads r (bits_of n v ++ bits)
    → (r' : Reader) × (read_bits n r ≡ ok (v, r')) × Reads r' bits
read_bits-number n v r bits l f h =
    let len : length (bits_of n v) ≡ n = length-bits_of n v in
    let (r', e, h') = read_bits-Reads (bits_of n v) r bits (rw len l) h in
    let spelt : value_from 0 (bits_of n v) ≡ v = omega (arith, value_from-bits_of n 0 v f) in
    (r', ap (λ k. read_bits k r) (sym len) ∙ e ∙ ap (λ k. ok (k, r')) spelt, h')
