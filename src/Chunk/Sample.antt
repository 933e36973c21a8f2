-- ===== src/Chunk/Sample.antt =====
-- The bits that stand for one sample, and the state that the next one is encoded against.
pub mod Write
pub mod Read
use ozymandias.Base.{
  ℕ, zero, suc, ◌+◌, ◌%◌, ◌^◌, ◌<◌, ◌≡◌, refl, bit_xor, Bool, true, false, List, [], ◌++◌,
  if◌then◌else◌, ◌==◌, ltb, leb, arith, inl, inr, Bool-cases,
}
use ozymandias.Base.Word.{IsU64, sub64}
use ozymandias.Base.Word.Bitwise.{bit_xor-lt}
use ozymandias.Chunk.Bits.{bits_of}
use ozymandias.Chunk.Stream.Varint.{varint_bits}
use ozymandias.Chunk.Coder.{Coder, trailing_zeros}
use ozymandias.Chunk.Appender.{fits_window}
use ozymandias.Chunk.Value.{HasWindow, leading_of, value_window, value_bits}
use ozymandias.Chunk.Value.Zeros.{value_window-HasWindow}
use ozymandias.Chunk.Change.{dod_bits}

-- The state between two samples: words, and no window or one that holds a bit.
pub record IsCoder (s : Coder) : Type 0 where
  pub window : HasWindow s
  pub time : IsU64 s.t
  pub value : IsU64 s.v
  pub change : IsU64 s.delta

-- The state with the next time in it.
abbrev pub moved : Coder → ℕ → Coder
moved s t = record s { t = t; delta = sub64 t s.t }

unfoldable pub time_bits : ℕ → Coder → ℕ → List Bool
time_bits zero s t = varint_bits t
time_bits (suc zero) s t = varint_bits (sub64 t s.t)
time_bits (suc (suc n)) s t = dod_bits (sub64 (sub64 t s.t) s.delta)

-- The bits of sample number `n`.
unfoldable pub sample_bits : ℕ → Coder → ℕ → ℕ → List Bool
sample_bits zero s t v = time_bits 0 s t ++ bits_of 64 v
sample_bits (suc n) s t v = time_bits (suc n) s t ++ value_bits (moved s t) (bit_xor v s.v)

abbrev pub later_coder : Coder → ℕ → ℕ → Coder
later_coder s t v = record (value_window (moved s t) (bit_xor v s.v)) { v = v }

unfoldable pub next_coder : ℕ → Coder → ℕ → ℕ → Coder
next_coder zero s t v = record s { t = t; v = v }
next_coder (suc n) s t v = later_coder s t v

if_ways :
    (P : Coder → Type 0) (a b : Bool) (s s' : Coder)
    → P s
    → P s'
    → P (if a then s else if b then s else s')
if_ways P true b s s' h h' = h
if_ways P false true s s' h h' = h
if_ways P false false s s' h h' = h'

-- A window keeps what else stands in the state.
window_of :
    (s : Coder) (x : ℕ) → ((value_window s x).t ≡ s.t) × ((value_window s x).delta ≡ s.delta)
unfolding value_window
window_of s x =
    if_ways (λ c. (c.t ≡ s.t) × (c.delta ≡ s.delta)) (x == 0)
      (fits_window s (leading_of x) (trailing_zeros x)) s
      (record s { leading = leading_of x; trailing = trailing_zeros x }) (refl, refl) (refl, refl)

if_time :
    (t : ℕ) (a b : Bool) (s s' : Coder)
    → (if a then record s { t = t } else if b then record s { t = t } else record s' { t = t })
      ≡ record (if a then s else if b then s else s') { t = t }
if_time t true b s s' = refl
if_time t false true s s' = refl
if_time t false false s s' = refl

-- The time plays no part in the value's bits and in its window.
pub value_window-time :
    (s : Coder) (t x : ℕ)
    → value_window (record s { t = t }) x ≡ record (value_window s x) { t = t }
unfolding value_window fits_window
value_window-time s t x = if_time t (x == 0) (fits_window s (leading_of x) (trailing_zeros x)) s _

pub value_bits-time : (s : Coder) (t x : ℕ) → value_bits (record s { t = t }) x ≡ value_bits s x
unfolding value_bits fits_window
value_bits-time s t x = refl

later-IsCoder : (s : Coder) (t v : ℕ) → IsCoder s → IsU64 t → IsU64 v → IsCoder (later_coder s t v)
later-IsCoder s t v h ht hv =
    let x : ℕ = bit_xor v s.v in
    let (et, ed) = window_of (moved s t) x in
    record {
      window = value_window-HasWindow (moved s t) x (bit_xor-lt 64 v s.v hv h.value) h.window;
      time = rw et ht;
      value = hv;
      change = rw ed (omega arith);
    }

pub next_coder-IsCoder :
    (n : ℕ) (s : Coder) (t v : ℕ) → IsCoder s → IsU64 t → IsU64 v → IsCoder (next_coder n s t v)
unfolding next_coder
next_coder-IsCoder zero s t v h ht hv = record {
  window = h.window;
  time = ht;
  value = hv;
  change = h.change;
}
next_coder-IsCoder (suc n) s t v h ht hv = later-IsCoder s t v h ht hv

pub next_coder-t : (n : ℕ) (s : Coder) (t v : ℕ) → (next_coder n s t v).t ≡ t
unfolding next_coder
next_coder-t zero s t v = refl
next_coder-t (suc n) s t v = (window_of (moved s t) (bit_xor v s.v)).0

pub next_coder-v : (n : ℕ) (s : Coder) (t v : ℕ) → (next_coder n s t v).v ≡ v
unfolding next_coder
next_coder-v zero s t v = refl
next_coder-v (suc n) s t v = refl
