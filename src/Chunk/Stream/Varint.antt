-- ===== src/Chunk/Stream/Varint.antt =====
-- The zig-zag varint of an int64: what is written, and that it is read back.
use ozymandias.Base.{
  ℕ, zero, suc, ◌+◌, ◌*◌, ◌/◌, ◌%◌, ◌^◌, ◌≤◌, ◌<◌, ◌≡◌, refl, ap, ◌∙◌, inl, inr, bit_and, bit_or,
  Bool, false, List, ◌++◌, if◌then◌else◌, ltb, leb, arith, Bool-cases,
}
use mathlib.Core.Path.{subst}
use mathlib.Core.List.{append_assoc}
use native.Mathlib.Nat.{pow-suc, mul-le-mul_right}
use ozymandias.Base.Word.{IsU64, shl, complement}
use ozymandias.Base.Word.Bitwise.{bit_or_fields_low, bit_and_mask, bit_or_top}
use ozymandias.Base.Word.Power.{pow-add}
use ozymandias.Chunk.Bits.{bits_of}
use ozymandias.Chunk.Stream.{
  Writer, Reader, ok, write_byte, write_groups, write_varint, zig_zag, undo_zig_zag, read_byte,
  read_groups, read_varint,
}
use ozymandias.Chunk.Stream.Write.{Holds}
use ozymandias.Chunk.Stream.WriteBits.{write_bits-Holds}
use ozymandias.Chunk.Stream.Read.{Reads}
use ozymandias.Chunk.Stream.ReadBits.{read_bits-number}

-- Groups of seven bits, the lowest first, each in a byte whose top bit says that another follows.
unfoldable pub group_bits : ℕ → ℕ → List Bool
group_bits zero u = bits_of 8 u
group_bits (suc g) u =
    let rest = bits_of 8 (u % 128 + 128) ++ group_bits g (u / 128) in
    if leb 128 u then rest else bits_of 8 u

unfoldable pub varint_bits : ℕ → List Bool
varint_bits v = group_bits 9 (zig_zag v)

write_byte-Holds :
    (h : List ℕ) (w : Writer) (v b : ℕ) {bits : List Bool}
    → v ≡ b
    → b < 256
    → Holds h w bits
    → Holds h (write_byte w v) (bits ++ bits_of 8 b)
unfolding write_byte
write_byte-Holds h w v b {bits} e l g =
    let low : v % 2 ^ 8 ≡ b = omega arith in
    subst (λ t. Holds h (write_byte w v) (bits ++ bits_of 8 t)) low
      (write_bits-Holds h 8 v w (omega arith) (omega arith) g)

fewer : (g u : ℕ) → u < 128 ^ suc (suc g) → u / 128 < 128 ^ suc g
fewer g u l = omega (arith, pow-suc 128 (suc g))

write_groups-Holds :
    (h : List ℕ) (g u : ℕ) (w : Writer) {bits : List Bool}
    → u < 128 ^ suc g
    → Holds h w bits
    → Holds h (write_groups g w u) (bits ++ group_bits g u)
unfolding write_groups group_bits
write_groups-Holds h zero u w l k = write_byte-Holds h w (u % 256) u (omega arith) (omega arith) k
write_groups-Holds h (suc g) u w {bits} l k = elim (Bool-cases (leb 0x80 u)) [
  | inr last ↦ rw last (write_byte-Holds h w (u % 256) u (ground arith) (ground arith) k)
  | inl more ↦ rw more (
      subst (Holds h _) (append_assoc bits (bits_of 8 (u % 128 + 128)) (group_bits g (u / 128))) (
        write_groups-Holds h g (u / 128) (write_byte w (bit_or (u % 256) 0x80)) (fewer g u l) (
          write_byte-Holds h w (bit_or (u % 256) 0x80) (u % 128 + 128)
            (omega (arith, bit_or_top (u % 256) (omega arith))) (omega arith) k)))
]

pub zig_zag-lt : (v : ℕ) → IsU64 v → zig_zag v < 2 ^ 64
unfolding zig_zag
zig_zag-lt v h = ground arith

-- The writer holds the varint behind what it held.
pub write_varint-Holds :
    (h : List ℕ) (v : ℕ) (w : Writer) {bits : List Bool}
    → IsU64 v
    → Holds h w bits
    → Holds h (write_varint w v) (bits ++ varint_bits v)
unfolding write_varint varint_bits
write_varint-Holds h v w l k =
    write_groups-Holds h 9 (zig_zag v) w (omega (arith, zig_zag-lt v l)) k

read_byte-Reads :
    (b : ℕ) (r : Reader) (bits : List Bool)
    → b < 256
    → Reads r (bits_of 8 b ++ bits)
    → (r' : Reader) × (read_byte r ≡ ok (b, r')) × Reads r' bits
unfolding read_byte
read_byte-Reads b r bits l h =
    let (r', e, h') = read_bits-number 8 b r bits (omega arith) (omega arith) h in
    let low : b % 256 ≡ b = omega arith in (r', rw (e, low), h')

-- One round of the loop, on a byte that holds the group `x` and maybe the mark that more follow.
read_groups-round :
    (f acc shift b : ℕ) (r : Reader)
    → shift < 64
    → acc < 2 ^ shift
    → b < 256
    → acc + b % 128 * 2 ^ shift < 2 ^ 64
    → (r' : Reader) → read_byte r ≡ ok (b, r')
    → read_groups (suc f) acc shift r ≡ (
        if ltb b 128
        then ok (acc + b % 128 * 2 ^ shift, r')
        else read_groups f (acc + b % 128 * 2 ^ shift) (shift + 7) r')
unfolding read_groups
read_groups-round f acc shift b r hs ha hb fits r' e =
    let x : ℕ = b % 128 in
    let low : bit_and b 0x7f ≡ x = bit_and_mask 7 b 0x7f refl in
    let whole : x * 2 ^ shift % 2 ^ 64 ≡ x * 2 ^ shift = omega arith in
    let joined : bit_or acc (x * 2 ^ shift) ≡ acc + x * 2 ^ shift =
      bit_or_fields_low shift x acc ha in
    let short : leb 64 shift ≡ false = ground arith in rw (short, e, low, whole, joined)

abbrev GroupsRead : ℕ → ℕ → ℕ → Reader → ℕ → List Bool → Type 0
GroupsRead f acc shift r v bits =
    (r' : Reader) × (read_groups f acc shift r ≡ ok (v, r')) × Reads r' bits

-- A last group.
last_group :
    (f acc shift u : ℕ) (r : Reader) (bits : List Bool)
    → shift < 64
    → u < 128
    → acc < 2 ^ shift
    → acc + u * 2 ^ shift < 2 ^ 64
    → Reads r (bits_of 8 u ++ bits)
    → GroupsRead (suc f) acc shift r (acc + u * 2 ^ shift) bits
last_group f acc shift u r bits hs hu ha fits h =
    let (r', e, h') = read_byte-Reads u r bits (omega arith) h in
    let x : u % 128 ≡ u = omega arith in
    (
      r',
      read_groups-round f acc shift u r hs ha (omega arith) (rw x fits) r' e ∙ ground (arith, x),
      h',
    )

-- A group that another follows.
inner_group :
    (f acc shift u : ℕ) (r : Reader) (bits : List Bool)
    → shift < 64
    → acc < 2 ^ shift
    → acc + u % 128 * 2 ^ shift < 2 ^ 64
    → Reads r (bits_of 8 (u % 128 + 128) ++ bits)
    → (r' : Reader) × (read_groups (suc f) acc shift r
        ≡ read_groups f (acc + u % 128 * 2 ^ shift) (shift + 7) r')
      × Reads r' bits
inner_group f acc shift u r bits hs ha fits h =
    let (r', e, h') = read_byte-Reads (u % 128 + 128) r bits (omega arith) h in
    let x : (u % 128 + 128) % 128 ≡ u % 128 = omega arith in
    (
      r',
      read_groups-round f acc shift (u % 128 + 128) r hs ha (omega arith) (rw x fits) r' e
          ∙ ground (arith, x),
      h',
    )

-- The lowest group of `u` and the rest, both in their places.
split_groups : (s u : ℕ) → u * 2 ^ s ≡ u % 128 * 2 ^ s + u / 128 * 2 ^ (s + 7)
split_groups s u =
    let whole : u ≡ u / 128 * 128 + u % 128 = omega arith in
    omega (arith, ap (λ (t : ℕ). t * 2 ^ s) whole, ap (λ (t : ℕ). u / 128 * t) (pow-add s 7))

group_fits : (s u acc : ℕ) → acc < 2 ^ s → acc + u % 128 * 2 ^ s < 2 ^ (s + 7)
group_fits s u acc h =
    let top : u % 128 ≤ 127 = omega arith in
    omega (arith, pow-add s 7, mul-le-mul_right (2 ^ s) top)

read_groups-Reads :
    (g j s u acc : ℕ) (r : Reader) (bits : List Bool)
    → s ≡ 7 * j
    → j + g ≤ 9
    → u < 128 ^ suc g
    → acc < 2 ^ s
    → acc + u * 2 ^ s < 2 ^ 64
    → Reads r (group_bits g u ++ bits)
    → GroupsRead (suc (suc g)) acc s r (acc + u * 2 ^ s) bits
unfolding group_bits
read_groups-Reads zero j s u acc r bits sj l hu ha fits h =
    last_group 1 acc s u r bits (omega arith) (omega arith) ha fits h
read_groups-Reads (suc g) j s u acc r bits sj l hu ha fits h = elim (Bool-cases (leb 128 u)) [
  | inr last ↦
      last_group (suc (suc g)) acc s u r bits (omega arith) (ground (arith, last)) ha fits
        (rw last at h)
  | inl more ↦
      let parts = split_groups s u in
      let (r', e, h') =
        inner_group (suc (suc g)) acc s u r (group_bits g (u / 128) ++ bits) (omega arith) ha
          (omega (arith, parts, fits))
          (subst (Reads r) (append_assoc (bits_of 8 (u % 128 + 128)) _ bits) (rw more at h)) in
      let (r2, e2, h2) =
        read_groups-Reads g (suc j) (s + 7) (u / 128) (acc + u % 128 * 2 ^ s) r' bits (omega arith)
          (omega arith) (fewer g u hu) (group_fits s u acc ha) (omega (arith, parts, fits)) h' in
      let sum : acc + u % 128 * 2 ^ s + u / 128 * 2 ^ (s + 7) ≡ acc + u * 2 ^ s =
        omega (arith, parts) in
      (r2, e ∙ e2 ∙ ap (λ v. ok (v, r2)) sum, h2)
]

pub undo_zig_zag-zig_zag : (v : ℕ) → IsU64 v → undo_zig_zag (zig_zag v) ≡ v
unfolding undo_zig_zag zig_zag
undo_zig_zag-zig_zag v h =
    ground (arith, bit_and_mask 1 (shl v 1) 1 refl, bit_and_mask 1 (complement (shl v 1)) 1 refl)

-- Every int64 that was written as a varint is read back, wherever the reader stands.
pub read_varint-Reads :
    (v : ℕ) (r : Reader) (bits : List Bool)
    → IsU64 v
    → Reads r (varint_bits v ++ bits)
    → (r' : Reader) × (read_varint r ≡ ok (v, r')) × Reads r' bits
unfolding read_varint varint_bits
read_varint-Reads v r bits l h =
    let small = zig_zag-lt v l in
    let (r', e, h') =
      read_groups-Reads 9 0 0 (zig_zag v) 0 r bits refl (omega arith) (omega (arith, small))
        (omega arith) (omega (arith, small)) h in
    let sum : 0 + zig_zag v * 2 ^ 0 ≡ zig_zag v = omega arith in
    (r', rw (e, sum, undo_zig_zag-zig_zag v l), h')
