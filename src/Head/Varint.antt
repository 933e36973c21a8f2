-- ===== src/Head/Varint.antt =====
-- encoding/binary: a uvarint, a little-endian word and a string are read back.
use ozymandias.Base.{
  ℕ, zero, suc, ◌+◌, ◌*◌, ◌/◌, ◌%◌, ◌^◌, ◌<◌, ◌≤◌, ◌≡◌, refl, true, false, some, inl, inr, ◌++◌,
  length, ltb, arith, Bool-cases, length-append, take-append, drop-append,
}
use native.Mathlib.Nat.{pow-suc}
use mathlib.Core.List.{append_assoc}
use ozymandias.Base.Bytes.{Bytes}
use ozymandias.Head.{
  put_groups, put_uvarint, get_groups, get_uvarint, put_le, get_le, put_string, reading, uvarint,
  string_of, str,
}

get_groups-put_groups :
    (more x : ℕ) (rest : Bytes)
    → x < 2 * 128 ^ more
    → get_groups more (put_groups more x ++ rest) ≡ some (x, rest)
unfolding get_groups put_groups
get_groups-put_groups zero x rest h =
    let small : ltb x 2 ≡ true = ground (arith, h) in rw small refl
get_groups-put_groups (suc more) x rest h =
    let bound = pow-suc 128 more in
    elim (Bool-cases (ltb x 128)) [
      | inl one ↦ rw (one, one) refl
      | inr many ↦
          let wide : ltb (x % 128 + 128) 128 ≡ false = ground arith in
          let later = get_groups-put_groups more (x / 128) rest (omega (arith, h, bound)) in
          let same : (x % 128 + 128) % 128 + 128 * (x / 128) ≡ x = omega arith in
          rw (many, wide, later, same) refl
    ]

pub get_uvarint-put_uvarint :
    (x : ℕ) (rest : Bytes) → x < 2 ^ 64 → get_uvarint (put_uvarint x ++ rest) ≡ some (x, rest)
unfolding get_uvarint put_uvarint
get_uvarint-put_uvarint x rest h = get_groups-put_groups 9 x rest (omega (arith, h))

length-put_groups : (more x : ℕ) → 1 ≤ length (put_groups more x)
unfolding put_groups
length-put_groups zero x = omega arith
length-put_groups (suc more) x = elim (Bool-cases (ltb x 128)) [
  | inl one ↦ rw one (omega arith)
  | inr many ↦ rw many (omega arith)
]

pub length-put_uvarint : (x : ℕ) → 1 ≤ length (put_uvarint x)
unfolding put_uvarint
length-put_uvarint x = length-put_groups 9 x

pub length-put_le : (w x : ℕ) → length (put_le w x) ≡ w
unfolding put_le
length-put_le zero x = refl
length-put_le (suc w) x = omega (arith, length-put_le w (x / 256))

pub get_le-put_le : (w x : ℕ) → x < 256 ^ w → get_le (put_le w x) ≡ x
unfolding get_le put_le
get_le-put_le zero x h = omega (arith, h)
get_le-put_le (suc w) x h =
    let bound = pow-suc 256 w in
    let rest = get_le-put_le w (x / 256) (omega (arith, h, bound)) in omega (arith, rest)

pub uvarint-put_uvarint :
    (x : ℕ) (rest : Bytes)
    → x < 2 ^ 64
    → uvarint (reading (put_uvarint x ++ rest)) ≡ (x, reading rest)
unfolding uvarint
uvarint-put_uvarint x rest h = rw (get_uvarint-put_uvarint x rest h) refl

pub str-put_string :
    (s rest : Bytes) → length s < 2 ^ 64 → str (reading (put_string s ++ rest)) ≡ (s, reading rest)
unfolding str put_string string_of
str-put_string s rest h =
    let there : ltb (length (s ++ rest)) (length s) ≡ false =
      ground (arith, length-append s rest) in
    rw
      (
        append_assoc (put_uvarint (length s)) s rest,
        uvarint-put_uvarint (length s) (s ++ rest) h,
        there,
        take-append s rest (length s) refl,
        drop-append s rest (length s) refl,
      )
      refl

pub length-put_string : (s : Bytes) → 1 ≤ length (put_string s)
unfolding put_string
length-put_string s =
    omega (arith, length-put_uvarint (length s), length-append (put_uvarint (length s)) s)
