-- ===== src/Chunk/Sample/Read.antt =====
-- `Next` decodes the bits of the sample, and goes on with the state of the appender.
use ozymandias.Base.{ℕ, zero, suc, ◌≡◌, refl, ◌∙◌, bit_xor, Bool, List, ◌++◌, arith}
use mathlib.Core.Path.{subst}
use mathlib.Core.List.{append_assoc}
use ozymandias.Base.Word.{IsU64, add64, sub64}
use ozymandias.Chunk.Bits.{bits_of}
use ozymandias.Chunk.Stream.{Reader, ok, read_bits, read_varint}
use ozymandias.Chunk.Stream.Read.{Reads}
use ozymandias.Chunk.Stream.ReadBits.{read_bits-number}
use ozymandias.Chunk.Stream.Varint.{read_varint-Reads}
use ozymandias.Chunk.Coder.{Coder}
use ozymandias.Chunk.Iterator.{read_dod, read_value, decode}
use ozymandias.Chunk.Value.{value_bits}
use ozymandias.Chunk.Value.Read.{Gives, read_value-Reads}
use ozymandias.Chunk.Change.{read_dod-Reads}
use ozymandias.Chunk.Sample.{IsCoder, moved, time_bits, sample_bits, next_coder}

decode_first :
    (s : Coder) (r r1 r2 : Reader) (t v : ℕ)
    → read_varint r ≡ ok (t, r1)
    → read_bits 64 r1 ≡ ok (v, r2)
    → decode 0 s r ≡ ok (record s { t = t; v = v }, r2)
unfolding decode
decode_first s r r1 r2 t v e1 e2 = rw (e1, e2) refl

moved_back : (s : Coder) (t : ℕ) → IsCoder s → IsU64 t → add64 s.t (sub64 t s.t) ≡ t
moved_back s t h ht = let hs = h.time in omega (arith, hs)

delta_back :
    (s : Coder) (t : ℕ)
    → IsCoder s
    → IsU64 t
    → add64 s.delta (sub64 (sub64 t s.t) s.delta) ≡ sub64 t s.t
delta_back s t h ht = let hs = h.change in omega (arith, hs)

decode_second :
    (s : Coder) (r r1 : Reader) (t d : ℕ)
    → read_varint r ≡ ok (d, r1)
    → add64 s.t d ≡ t
    → decode 1 s r ≡ read_value (record s { t = t; delta = d }) r1
unfolding decode
decode_second s r r1 t d e1 e2 = rw (e1, e2) refl

decode_more :
    (n : ℕ) (s : Coder) (r r1 : Reader) (t d dd : ℕ)
    → read_dod r ≡ ok (dd, r1)
    → add64 s.delta dd ≡ d
    → add64 s.t d ≡ t
    → decode (suc (suc n)) s r ≡ read_value (record s { t = t; delta = d }) r1
unfolding decode
decode_more n s r r1 t d dd e1 e2 e3 = rw (e1, e2, e3) (ground arith)

pub decode-Reads :
    (n : ℕ) (s : Coder) (t v : ℕ) (r : Reader) (bits : List Bool)
    → IsCoder s
    → IsU64 t
    → IsU64 v
    → Reads r (sample_bits n s t v ++ bits)
    → Gives (decode n s r) (next_coder n s t v) bits
unfolding sample_bits time_bits next_coder
decode-Reads zero s t v r bits h ht hv g =
    let (r1, e1, g1) =
      read_varint-Reads t r _ ht (subst (Reads r) (append_assoc _ (bits_of 64 v) bits) g) in
    let (r2, e2, g2) = read_bits-number 64 v r1 bits (omega arith) hv g1 in
    (r2, decode_first s r r1 r2 t v e1 e2, g2)
decode-Reads (suc zero) s t v r bits h ht hv g =
    let d : ℕ = sub64 t s.t in
    let (r1, e1, g1) =
      read_varint-Reads d r _ (omega arith)
        (subst (Reads r) (append_assoc _ (value_bits (moved s t) (bit_xor v s.v)) bits) g) in
    let (r2, e2, g2) = read_value-Reads (moved s t) v r1 h.window hv h.value g1 in
    (r2, decode_second s r r1 t d e1 (moved_back s t h ht) ∙ e2, g2)
decode-Reads (suc (suc n)) s t v r bits h ht hv g =
    let d : ℕ = sub64 t s.t in
    let dd : ℕ = sub64 d s.delta in
    let (r1, e1, g1) =
      read_dod-Reads dd r (omega arith)
        (subst (Reads r) (append_assoc _ (value_bits (moved s t) (bit_xor v s.v)) bits) g) in
    let (r2, e2, g2) = read_value-Reads (moved s t) v r1 h.window hv h.value g1 in
    (r2, decode_more n s r r1 t d dd e1 (delta_back s t h ht) (moved_back s t h ht) ∙ e2, g2)
