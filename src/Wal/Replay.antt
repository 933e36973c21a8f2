-- ===== src/Wal/Replay.antt =====
-- What a replay reads from files of whole records, and from a last one with a torn tail.
use ozymandias.Base.{
  ℕ, ◌+◌, ◌-◌, ◌^◌, ◌≤◌, ◌<◌, ◌≡◌, refl, sym, ap, ◌∙◌, Bool, true, false, ◌||◌, none, some, List,
  [], ◌∷◌, ◌++◌, length, take, drop, ltb, leb, ◌==◌, arith, ◌⊎◌, inl, inr, length-append,
  Bool-cases, take_all, length-take, take-append, drop-append, take-append_more,
}
use mathlib.Core.List.{append_assoc}
use ozymandias.Base.Bytes.{Bytes}
use ozymandias.Base.Wire.{put_be, get_be, get_be_from, length-put_be, get_be-put_be}
use ozymandias.Wal.Frame.{
  header_size, max_record_size, Record, IsRecord, header, frame, length-header, length-frame,
}
use ozymandias.Wal.Reader.{
  FileName, Position, Reader, consumed, Damage, short_header, short_payload, Read, got, at_end,
  over, read_payload, read_record, torn, segment_number, is_empty, ends_at,
}

abbrev pub position : FileName → ℕ → Position
position name n = record { file = some name; offset = n; number = segment_number name }

-- The reader has read `done` bytes of the file; `bs` are left.
pub record IsOpen (fs : List (FileName × Bytes)) (name : FileName) (s : Bool) (done : ℕ)
    (bs : Bytes) (r : Reader) : Type 0 where
  pub rest : r.files ≡ fs
  pub ahead : r.br ≡ some bs
  pub sized : r.size ≡ done + length bs
  pub behind : r.off ≡ done
  pub is_last : r.last ≡ is_empty fs
  pub strictness : r.strict ≡ s
  pub sound : r.err ≡ none
  pub at_position : r.end ≡ position name done

module _ (crc : Bytes → ℕ) where
  -- A cut inside the frame of a record.
  pub record IsTorn (bs : Bytes) : Type 0 where
    pub whole : Record
    pub kept : ℕ
    pub accepted : IsRecord whole
    pub cut : kept < length (frame crc whole)
    pub same : bs ≡ take kept (frame crc whole)

-- The reader has moved over a record.
abbrev pub Moved : List (FileName × Bytes) → FileName → Bool → ℕ → Bytes → Record → Read → Type 0
Moved fs name s done rest x answer =
    (r : Reader) × (answer ≡ got r) × (r.rec ≡ x) × IsOpen fs name s done rest r

-- The replay stops quietly at the end of the last record.
abbrev pub Stopped : FileName → ℕ → Read → Type 0
Stopped name done answer =
    (answer ≡ at_end)
    ⊎ ((r : Reader) × (answer ≡ over r) × (r.err ≡ none) × (r.end ≡ position name done))

module _ (crc : Bytes → ℕ) (crc_lt : (bs : Bytes) → crc bs < 2 ^ 32) where
  header_fields :
      (x : Record)
      → IsRecord x
      → (get_be (take 4 (header crc x)) ≡ length x.payload)
        × (get_be (take 1 (drop 4 (header crc x))) ≡ x.kind)
        × (get_be (drop 5 (header crc x)) ≡ crc x.payload)
  unfolding header
  header_fields x h =
      let first = put_be 4 (length x.payload) in
      let last = put_be 4 (crc x.payload) in
      let l = length-put_be 4 (length x.payload) in
      let cut : first ++ x.kind ∷ last ≡ (first ++ x.kind ∷ []) ++ last =
        sym (append_assoc first (x.kind ∷ []) last) in
      let five : length (first ++ x.kind ∷ []) ≡ 5 =
        omega (arith, l, length-append first (x.kind ∷ [])) in
      let size : length x.payload < 256 ^ 4 = (let w = h.within in omega (arith, w)) in
      let sum : crc x.payload < 256 ^ 4 = omega (arith, crc_lt x.payload) in
      (
        rw (take-append first (x.kind ∷ last) 4 l) (get_be-put_be 4 (length x.payload) size),
        rw (drop-append first (x.kind ∷ last) 4 l) (unfold get_be get_be_from in omega arith),
        rw (cut, drop-append (first ++ x.kind ∷ []) last 5 five)
            (get_be-put_be 4 (crc x.payload) sum),
      )

  pub read_header :
      (r : Reader) (x : Record) (rest : Bytes)
      → IsRecord x
      → read_record crc r (header crc x ++ rest)
        ≡ read_payload crc r (length x.payload) x.kind (crc x.payload) rest
  unfolding read_record
  read_header r x rest h =
      let fields = header_fields x h in
      let l = length-header crc x in
      let known : ((x.kind == 0) || ltb max_record_size (length x.payload)) ≡ false =
        (let k = h.set in let w = h.within in ground (arith, k, w)) in
      rw
        (
          take-append (header crc x) rest header_size l,
          drop-append (header crc x) rest header_size l,
          l,
          fields.0,
          fields.1,
          fields.2,
          known,
        )
        refl

  abbrev moved : Reader → Record → Bytes → Reader
  moved r x rest = record r {
    br = some rest;
    off = r.off + header_size + length x.payload;
    rec = x;
    end = record {
      file = r.end.file;
      offset = r.off + header_size + length x.payload;
      number = r.end.number;
    };
  }

  read_whole :
      (r : Reader) (x : Record) (rest : Bytes)
      → read_payload crc r (length x.payload) x.kind (crc x.payload) (x.payload ++ rest)
        ≡ got (moved r x rest)
  unfolding read_payload
  read_whole r x rest =
      let here : ltb (length x.payload) (length x.payload) ≡ false = ground arith in
      let good : (crc x.payload == crc x.payload) ≡ true = ground arith in
      rw
        (
          take-append x.payload rest (length x.payload) refl,
          drop-append x.payload rest (length x.payload) refl,
          here,
          good,
        )
        refl

  pub read_frame :
      {fs : List (FileName × Bytes)} {name : FileName} {s : Bool} {done : ℕ} {r : Reader}
      (x : Record) (rest : Bytes)
      → IsRecord x
      → IsOpen fs name s done (frame crc x ++ rest) r
      → Moved fs name s
          (done + length (frame crc x))
          rest
          x
          (read_record crc r (frame crc x ++ rest))
  unfolding frame
  read_frame {done = done} {r = r} x rest h o =
      let l = length-frame crc x in
      let far : r.off + header_size + length x.payload ≡ done + length (frame crc x) =
        (let b = o.behind in omega (arith, b, l)) in
      let e = append_assoc (header crc x) x.payload rest in
      (
        moved r x rest,
        rw (e, read_header r x (x.payload ++ rest) h) (read_whole r x rest),
        refl,
        record {
          rest = o.rest;
          ahead = refl;
          sized = (let z = o.sized in omega (arith, z, length-append (frame crc x) rest));
          behind = far;
          is_last = o.is_last;
          strictness = o.strictness;
          sound = o.sound;
          at_position = λ i. record {
            file = (o.at_position i).file;
            offset = far i;
            number = (o.at_position i).number;
          };
        },
      )

  torn_quiet :
      (r : Reader) (cause : Damage) (damage_ends : ℕ)
      → r.last ≡ true
      → r.strict ≡ false
      → r.size ≤ damage_ends
      → torn r cause damage_ends ≡ r
  unfolding torn ends_at
  torn_quiet r cause damage_ends l s e =
      let near : leb r.size damage_ends ≡ true = ground (arith, e) in rw (l, s, near) refl

  -- Fewer bytes than a header.
  torn_header :
      {name : FileName} {done : ℕ} {r : Reader} (bs : Bytes)
      → length bs < header_size
      → IsOpen [] name false done bs r
      → Stopped name done (read_record crc r bs)
  unfolding read_record
  torn_header {name} {done} {r} bs few o =
      let all : take header_size bs ≡ bs = take_all header_size bs (omega (arith, few)) in
      let short : ltb (length bs) header_size ≡ true = ground (arith, few) in
      elim (Bool-cases (length bs == 0)) [
        | inl nothing ↦ inl (rw (all, nothing) refl)
        | inr some_bytes ↦
            let quiet =
              torn_quiet (consumed r []) (short_header (length bs)) (r.off + length bs) o.is_last
                o.strictness (let z = o.sized in let b = o.behind in omega (arith, z, b)) in
            inr (consumed r [], rw (all, some_bytes, short, quiet) refl, o.sound, o.at_position)
      ]

  -- A header with less than its payload.
  torn_payload :
      {name : FileName} {done : ℕ} {r : Reader} (x : Record) (bs : Bytes)
      → IsRecord x
      → length bs < length x.payload
      → IsOpen [] name false done (header crc x ++ bs) r
      → Stopped name done (read_record crc r (header crc x ++ bs))
  unfolding read_payload
  torn_payload {name} {done} {r} x bs h few o =
      let all : take (length x.payload) bs ≡ bs = take_all _ bs (omega (arith, few)) in
      let short : ltb (length bs) (length x.payload) ≡ true = ground (arith, few) in
      let quiet =
        torn_quiet (consumed r []) (short_payload (length bs) (length x.payload))
          (r.off + header_size + length bs) o.is_last o.strictness
          (let z = o.sized in
            let b = o.behind in
            omega (arith, z, b, length-append (header crc x) bs, length-header crc x)) in
      inr (consumed r [], rw (read_header r x bs h, all, short, quiet) refl, o.sound, o.at_position)

  pub read_torn :
      {name : FileName} {done : ℕ} {r : Reader} (bs : Bytes)
      → IsTorn crc bs
      → IsOpen [] name false done bs r
      → Stopped name done (read_record crc r bs)
  unfolding frame
  read_torn bs t o = elim (Bool-cases (ltb t.kept header_size)) [
    | inl early ↦
        let size = length-take t.kept (frame crc t.whole) (let c = t.cut in omega (arith, c)) in
        torn_header bs (let s = ap length t.same in ground (arith, s, size, early)) o
    | inr late ↦
        let l = length-header crc t.whole in
        let e =
          t.same
          ∙ take-append_more (header crc t.whole) t.whole.payload t.kept
              (ground (arith, l, late)) in
        let size =
          length-take (t.kept - length (header crc t.whole)) t.whole.payload
            (let c = t.cut in let f = length-frame crc t.whole in omega (arith, c, f, l)) in
        rw e (
          torn_payload t.whole (take (t.kept - length (header crc t.whole)) t.whole.payload)
            t.accepted
            (let c = t.cut in
              let f = length-frame crc t.whole in ground (arith, c, f, l, size, late))
            (rw e at o))
  ]
