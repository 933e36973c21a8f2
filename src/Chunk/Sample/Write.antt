-- ===== src/Chunk/Sample/Write.antt =====
-- `Append` adds the bits of the sample behind those of the samples before it.
use ozymandias.Base.{
  ℕ, zero, suc, ◌+◌, ◌%◌, ◌^◌, ◌<◌, ◌≡◌, ◌≢◌, refl, ap, sym, ◌∙◌, bit_xor, Bool, true, List, ◌++◌,
  arith,
}
use mathlib.Core.Path.{subst}
use mathlib.Core.List.{append_assoc}
use native.Mathlib.Nat.{mod-eq_of_lt}
use ozymandias.Base.Word.{IsU64, sub64, signed_lt}
use ozymandias.Chunk.Bits.{bits_of}
use ozymandias.Chunk.Stream.{Writer, write_bits, write_varint}
use ozymandias.Chunk.Stream.Write.{Holds}
use ozymandias.Chunk.Stream.WriteBits.{write_bits-Holds}
use ozymandias.Chunk.Stream.Varint.{varint_bits, write_varint-Holds}
use ozymandias.Chunk.Coder.{Coder, num_samples}
use ozymandias.Chunk.Appender.{Appender, Appended, done, append, commit, write_value, write_dod}
use ozymandias.Chunk.Value.{value_bits}
use ozymandias.Chunk.Value.Write.{write_value-Holds}
use ozymandias.Chunk.Change.{dod_bits, write_dod-Holds}
use ozymandias.Chunk.Sealed.{header, put_count-Holds}
use ozymandias.Chunk.Sample.{
  IsCoder, moved, time_bits, sample_bits, later_coder, next_coder, value_window-time,
  value_bits-time,
}

-- The chunk of the appender counts `n` samples and holds these bits behind its header.
pub record Encodes (a : Appender) (n : ℕ) (s : Coder) (bits : List Bool) : Type 0 where
  pub held : Holds (header n) a.c.b bits
  pub state : a.coder ≡ s

-- What `append` returns for a sample that it takes.
abbrev pub Takes : Appended → ℕ → Coder → List Bool → Type 0
Takes r n s bits = (a' : Appender) × (r ≡ done a') × Encodes a' n s bits

commit-Takes :
    (a : Appender) (n t v : ℕ) (p : Writer × Coder) (s : Coder) {bits : List Bool}
    → Holds (header n) p.0 bits
    → record { t = t; v = v; delta = p.1.delta; leading = p.1.leading; trailing = p.1.trailing } ≡ s
    → Takes (commit a n t v p) (n + 1) s bits
unfolding commit
commit-Takes a n t v p s g e =
    (_, refl, record { held = put_count-Holds (n + 1) n p.0 g; state = e })

append_first :
    (a : Appender) (t v : ℕ)
    → num_samples a.c ≡ 0
    → append a t v ≡ commit a 0 t v (write_bits (write_varint a.c.b t) v 64, a.coder)
unfolding append
append_first a t v e = rw e refl

append_second :
    (a : Appender) (t v : ℕ)
    → num_samples a.c ≡ 1
    → signed_lt a.coder.t t ≡ true
    → append a t v
      ≡ commit a 1 t v (
          write_value
            (record a.coder { delta = sub64 t a.coder.t })
            v
            (write_varint a.c.b (sub64 t a.coder.t)))
unfolding append
append_second a t v e o = rw (e, o) refl

append_more :
    (a : Appender) (n t v : ℕ)
    → num_samples a.c ≡ suc (suc n)
    → suc (suc n) < 120
    → signed_lt a.coder.t t ≡ true
    → append a t v
      ≡ commit a (suc (suc n)) t v (
          write_value
            (record a.coder { delta = sub64 t a.coder.t })
            v
            (write_dod a.c.b (sub64 (sub64 t a.coder.t) a.coder.delta)))
unfolding append
append_more a n t v e l o = rw (e, o) (ground (arith, o))

-- The value behind the time, in a chunk that has samples.
value-Takes :
    (a : Appender) (n t v : ℕ) (w : Writer) {bits : List Bool}
    → IsCoder a.coder
    → IsU64 v
    → Holds (header n) w bits
    → Takes
        (commit a n t v (write_value (record a.coder { delta = sub64 t a.coder.t }) v w))
        (n + 1)
        (later_coder a.coder t v)
        (bits ++ value_bits (moved a.coder t) (bit_xor v a.coder.v))
value-Takes a n t v w {bits} h hv g =
    let s : Coder = record a.coder { delta = sub64 t a.coder.t } in
    let x : ℕ = bit_xor v a.coder.v in
    let (held, set) = write_value-Holds (header n) s v w h.window hv h.value g in
    commit-Takes a n t v (write_value s v w) (later_coder a.coder t v)
      (subst (λ b. Holds (header n) (write_value s v w).0 (bits ++ b)) (sym (value_bits-time s t x))
        held)
      (ap
          (λ (c : Coder). record {
            t = t;
            v = v;
            delta = c.delta;
            leading = c.leading;
            trailing = c.trailing;
          })
          set
        ∙ ap (λ (c : Coder). record c { v = v }) (sym (value_window-time s t x)))

add_behind :
    (n : ℕ) (a : Appender) {s : Coder} {r : Appended} (bits p q : List Bool)
    → Takes r n s ((bits ++ p) ++ q)
    → Takes r n s (bits ++ (p ++ q))
add_behind n a {s} {r} bits p q = subst (Takes r n s) (append_assoc bits p q)

-- A sample that comes after the last one, in a chunk that has room, is added.
pub append-Takes :
    (a : Appender) (n t v : ℕ) (bits : List Bool)
    → num_samples a.c ≡ n
    → n < 120
    → (n ≢ 0 → signed_lt a.coder.t t ≡ true)
    → IsCoder a.coder
    → IsU64 t
    → IsU64 v
    → Holds (header n) a.c.b bits
    → Takes (append a t v) (n + 1) (next_coder n a.coder t v) (bits ++ sample_bits n a.coder t v)
unfolding sample_bits time_bits next_coder
append-Takes a zero t v bits e l o h ht hv g =
    let word : v % 2 ^ 64 ≡ v = mod-eq_of_lt hv in
    let w : Writer = write_bits (write_varint a.c.b t) v 64 in
    rw (append_first a t v e) (
      add_behind 1 a bits (varint_bits t) (bits_of 64 v) (
        commit-Takes a 0 t v (w, a.coder) (record a.coder { t = t; v = v })
          (subst (λ y. Holds (header 0) w ((bits ++ varint_bits t) ++ bits_of 64 y)) word
            (write_bits-Holds (header 0) 64 v (write_varint a.c.b t) (omega arith) hv
              (write_varint-Holds (header 0) t a.c.b ht g)))
          refl))
append-Takes a (suc zero) t v bits e l o h ht hv g =
    let d : ℕ = sub64 t a.coder.t in
    rw (append_second a t v e (o (omega arith))) (
      add_behind 2 a bits (varint_bits d) (value_bits (moved a.coder t) (bit_xor v a.coder.v)) (
        value-Takes a 1 t v (write_varint a.c.b d) h hv
          (write_varint-Holds (header 1) d a.c.b (omega arith) g)))
append-Takes a (suc (suc n)) t v bits e l o h ht hv g =
    let dd : ℕ = sub64 (sub64 t a.coder.t) a.coder.delta in
    rw (append_more a n t v e l (o (omega arith))) (
      add_behind (suc (suc n) + 1) a bits (dod_bits dd)
        (value_bits (moved a.coder t) (bit_xor v a.coder.v))
        (value-Takes a (suc (suc n)) t v (write_dod a.c.b dd) h hv
          (write_dod-Holds (header (suc (suc n))) dd a.c.b (omega arith) g)))
