-- ===== src/Base/Wire.antt =====
-- encoding/binary's BigEndian: a number as a fixed count of bytes, the highest first.
use ozymandias.Base.Tests.{leb, if◌then◌else◌, Bool-cases}
use ozymandias.Base.Lists.{length, length-append}
use ozymandias.Base.Bytes.{Bytes, bytes_le, bytes_eq, bytes_eq_iff}
use Prim.Native.Nat.{ℕ, zero, suc, ◌+◌, ◌*◌, ◌/◌, ◌%◌, ◌^◌, ◌<◌}
use mathlib.Core.Path.{◌≡◌, refl, sym, ap, ◌∙◌}
use mathlib.Core.List.{[], ◌∷◌, ◌++◌}
use mathlib.Core.Logic.{◌≢◌, inl, inr}
use mathlib.Core.Bool.{true, false, false≢true}
use native.Mathlib.Omega.{arith}
use native.Mathlib.Nat.{pow-suc}

unfoldable pub put_be : ℕ → ℕ → Bytes
put_be zero n = []
put_be (suc w) n = put_be w (n / 256) ++ (n % 256) ∷ []

unfoldable pub get_be_from : ℕ → Bytes → ℕ
get_be_from acc [] = acc
get_be_from acc (x ∷ xs) = get_be_from (acc * 256 + x) xs

unfoldable pub get_be : Bytes → ℕ
unfolding get_be_from
get_be bs = get_be_from 0 bs

pub length-put_be : (w n : ℕ) → length (put_be w n) ≡ w
unfolding put_be
length-put_be zero n = refl
length-put_be (suc w) n =
    omega (arith, length-put_be w (n / 256), length-append (put_be w (n / 256)) ((n % 256) ∷ []))

get_be_from-snoc :
    (acc : ℕ) (xs : Bytes) (a : ℕ) → get_be_from acc (xs ++ a ∷ []) ≡ get_be_from acc xs * 256 + a
unfolding get_be_from
get_be_from-snoc acc [] a = refl
get_be_from-snoc acc (x ∷ xs) a = get_be_from-snoc (acc * 256 + x) xs a

pub get_be-put_be : (w n : ℕ) → n < 256 ^ w → get_be (put_be w n) ≡ n
unfolding put_be get_be get_be_from
get_be-put_be zero n h = omega (arith, h)
get_be-put_be (suc w) n h =
    let bound = pow-suc 256 w in
    let rest = get_be-put_be w (n / 256) (omega (arith, h, bound)) in
    get_be_from-snoc 0 (put_be w (n / 256)) (n % 256) ∙ omega (arith, rest)

bytes_le-snoc :
    (xs ys : Bytes) (a b : ℕ)
    → length xs ≡ length ys
    → bytes_le (xs ++ a ∷ []) (ys ++ b ∷ []) ≡ (if bytes_eq xs ys then leb a b else bytes_le xs ys)
unfolding bytes_le bytes_eq
bytes_le-snoc [] [] a b h = ground arith
bytes_le-snoc [] (y ∷ ys) a b h = absurd (omega (arith, h))
bytes_le-snoc (x ∷ xs) [] a b h = absurd (omega (arith, h))
bytes_le-snoc (x ∷ xs) (y ∷ ys) a b h = ground (arith, bytes_le-snoc xs ys a b (omega (arith, h)))

put_be-injective : (w a b : ℕ) → a < 256 ^ w → b < 256 ^ w → put_be w a ≡ put_be w b → a ≡ b
put_be-injective w a b ha hb e = sym (get_be-put_be w a ha) ∙ ap get_be e ∙ get_be-put_be w b hb

same_bytes : (w : ℕ) {a b : ℕ} → a ≡ b → bytes_eq (put_be w a) (put_be w b) ≡ true
same_bytes w e = (bytes_eq_iff _ _).1 (ap (put_be w) e)

-- Bytes in this order compare as the numbers do.
pub bytes_le-put_be :
    (w a b : ℕ) → a < 256 ^ w → b < 256 ^ w → bytes_le (put_be w a) (put_be w b) ≡ leb a b
unfolding put_be
bytes_le-put_be zero a b ha hb = (unfold bytes_le in ground (arith, ha, hb))
bytes_le-put_be (suc w) a b ha hb =
    let bound = pow-suc 256 w in
    let sa : a / 256 < 256 ^ w = omega (arith, ha, bound) in
    let sb : b / 256 < 256 ^ w = omega (arith, hb, bound) in
    let rest = bytes_le-put_be w (a / 256) (b / 256) sa sb in
    let e =
      bytes_le-snoc (put_be w (a / 256)) (put_be w (b / 256)) (a % 256) (b % 256)
        (length-put_be w (a / 256) ∙ sym (length-put_be w (b / 256))) in
    elim (Bool-cases (bytes_eq (put_be w (a / 256)) (put_be w (b / 256)))) [
      | inl same ↦
          let top = put_be-injective w (a / 256) (b / 256) sa sb ((bytes_eq_iff _ _).0 same) in
          rw (e, same) (ground (arith, top))
      | inr other ↦
          let differ : a / 256 ≢ b / 256 = λ q. absurd (false≢true (sym other ∙ same_bytes w q)) in
          rw (e, other, rest) (ground (arith, differ))
    ]

-- A difference in the first bytes decides.
pub bytes_le-append_false :
    (xs ys t u : Bytes)
    → length xs ≡ length ys
    → bytes_le xs ys ≡ false
    → bytes_le (xs ++ t) (ys ++ u) ≡ false
unfolding bytes_le
bytes_le-append_false [] [] t u h e = cc
bytes_le-append_false [] (y ∷ ys) t u h e = cc
bytes_le-append_false (x ∷ xs) [] t u h e = absurd (omega (arith, h))
bytes_le-append_false (x ∷ xs) (y ∷ ys) t u h e =
    ground (arith, e, bytes_le-append_false xs ys t u (omega (arith, h)))

pub bytes_le-same_front : (p xs ys : Bytes) → bytes_le (p ++ xs) (p ++ ys) ≡ bytes_le xs ys
unfolding bytes_le
bytes_le-same_front [] xs ys = refl
bytes_le-same_front (b ∷ p) xs ys = ground (arith, bytes_le-same_front p xs ys)
