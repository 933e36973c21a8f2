-- ===== src/Wal/Reader.antt =====
-- internal/tsdb/wal/reader.go: the replay of a directory, record by record. A directory is the
-- numbered files that `listNumbered` finds, in the order of their numbers; that they can be opened
-- and read is assumed.
use ozymandias.Base.{
  ℕ, zero, suc, ◌+◌, Bool, true, false, not, ◌&&◌, ◌||◌, Option, none, some, List, [], ◌∷◌, ◌++◌,
  length, take, drop, if◌then◌else◌, ltb, leb, ◌==◌, map,
}
use ozymandias.Base.Bytes.{Bytes}
use ozymandias.Base.Wire.{get_be}
use ozymandias.Wal.Frame.{header_size, max_record_size, Record}

-- `checkpoint.%08d` and `%08d.wal`
pub data FileName : Type 0 where
  checkpoint : ℕ → FileName
  segment : ℕ → FileName

-- `Segment` is -1, here `none`, for a checkpoint.
pub record Position : Type 0 where
  pub file : Option FileName
  pub offset : ℕ
  pub number : Option ℕ

-- What `torn` is told.
pub data Damage : Type 0 where
  short_header : ℕ → Damage
  implausible_header : ℕ → ℕ → Damage
  short_payload : ℕ → ℕ → Damage
  crc_mismatch : ℕ → ℕ → Damage

-- `ErrCorrupt`, with the file and the offset.
pub record Corrupt : Type 0 where
  pub file : Option FileName
  pub offset : ℕ
  pub cause : Damage

-- `files` are those from `idx` on, with what they hold; `br` is what is left of the open file, and
-- `size` what `Stat` says of it.
pub record Reader : Type 0 where
  pub files : List (FileName × Bytes)
  pub br : Option Bytes
  pub size : ℕ
  pub off : ℕ
  pub last : Bool
  pub strict : Bool
  pub rec : Record
  pub err : Option Corrupt
  pub end : Position

pub record Dir : Type 0 where
  pub checkpoints : List (ℕ × Bytes)
  pub segments : List (ℕ × Bytes)

abbrev pub as_checkpoint : ℕ × Bytes → FileName × Bytes
as_checkpoint (n, bs) = (checkpoint n, bs)

abbrev pub as_segment : ℕ × Bytes → FileName × Bytes
as_segment (n, bs) = (segment n, bs)

unfoldable pub start_reader : Bool → List (FileName × Bytes) → Reader
start_reader strict files = record {
  files = files;
  br = none;
  size = 0;
  off = 0;
  last = false;
  strict = strict;
  rec = record { kind = 0; payload = [] };
  err = none;
  end = record { file = none; offset = 0; number = none };
}

-- `NewReader`
unfoldable pub new_reader : Dir → Reader
new_reader d = start_reader false (map as_checkpoint d.checkpoints ++ map as_segment d.segments)

unfoldable pub segment_number : FileName → Option ℕ
segment_number (checkpoint n) = none
segment_number (segment n) = some n

abbrev pub is_empty : List (FileName × Bytes) → Bool
is_empty [] = true
is_empty (f ∷ fs) = false

-- `openNext`
unfoldable pub open_next : Reader → FileName × Bytes → List (FileName × Bytes) → Reader
open_next r (name, bs) rest = record r {
  files = rest;
  br = some bs;
  size = length bs;
  off = 0;
  last = is_empty rest;
  end = record { file = some name; offset = 0; number = segment_number name };
}

-- `endsAt`
unfoldable pub ends_at : Reader → ℕ → Bool
ends_at r damage_ends = leb r.size damage_ends

unfoldable pub torn : Reader → Damage → ℕ → Reader
unfolding ends_at
torn r cause damage_ends =
    if r.last && not r.strict && ends_at r damage_ends
    then r
    else record r { err = some (record { file = r.end.file; offset = r.off; cause = cause }) }

-- What `readRecord` answers: a record, the clean end of the file, or the end of the replay.
pub data Read : Type 0 where
  got : Reader → Read
  at_end : Read
  over : Reader → Read

abbrev pub consumed : Reader → Bytes → Reader
consumed r rest = record r { br = some rest }

module _ (crc : Bytes → ℕ) where
  -- The payload, behind a plausible header.
  unfoldable pub read_payload : Reader → ℕ → ℕ → ℕ → Bytes → Read
  unfolding torn
  read_payload r len kind want rest =
      let payload = take len rest in
      let n = length payload in
      if ltb n len
      then over (torn (consumed r []) (short_payload n len) (r.off + header_size + n))
      else if crc payload == want
      then got (record r {
        br = some (drop len rest);
        off = r.off + header_size + len;
        rec = record { kind = kind; payload = payload };
        end = record {
          file = r.end.file;
          offset = r.off + header_size + len;
          number = r.end.number;
        };
      })
      else over (
          torn (consumed r (drop len rest)) (crc_mismatch (crc payload) want)
            (r.off + header_size + len))

  -- `readRecord`, on what is left of the file.
  unfoldable pub read_record : Reader → Bytes → Read
  unfolding torn read_payload
  read_record r bs =
      let hdr = take header_size bs in
      let rest = drop header_size bs in
      let n = length hdr in
      let len = get_be (take 4 hdr) in
      let kind = get_be (take 1 (drop 4 hdr)) in
      if n == 0
      then at_end
      else if ltb n header_size
      then over (torn (consumed r []) (short_header n) (r.off + n))
      else if kind == 0 || ltb max_record_size len
      then over (
          torn (consumed r rest) (implausible_header kind len)
            (r.off + header_size + max_record_size))
      else read_payload r len kind (get_be (drop 5 hdr)) rest

  -- The answer of `Next`, with the reader that it leaves.
  pub data Next : Type 0 where
    more : Reader → Next
    finished : Reader → Next

  abbrev closed : Reader → Reader
  closed r = record r { br = none }

  -- The loop of `Next` from where no file is open.
  unfoldable pub skip_to : List (FileName × Bytes) → Reader → Next
  unfolding read_record open_next
  skip_to [] r = finished r
  skip_to ((name, bs) ∷ fs) r =
      let r' = open_next r (name, bs) fs in
      elim (read_record r' bs) [
        | got r'' ↦ more r''
        | at_end ↦ skip_to fs (closed r')
        | over r'' ↦ finished r''
      ]

  -- `Next`
  unfoldable pub next : Reader → Next
  unfolding read_record skip_to
  next r = elim r.br [
    | none ↦ skip_to r.files r
    | some bs ↦ elim (read_record r bs) [
      | got r' ↦ more r'
      | at_end ↦ skip_to r.files (closed r)
      | over r' ↦ finished r'
    ]
  ]

  -- A replay, `for r.Next() { … }`: the records, and the reader at the end.
  unfoldable pub drain : ℕ → Reader → Option (List Record × Reader)
  unfolding next
  drain zero r = none
  drain (suc fuel) r = elim (next r) [
    | finished r' ↦ some ([], r')
    | more r' ↦ elim (drain fuel r') [ none ↦ none | some (rs, e) ↦ some (r'.rec ∷ rs, e) ]
  ]

abbrev pub bytes_of : List (FileName × Bytes) → ℕ
bytes_of [] = 0
bytes_of ((name, bs) ∷ fs) = length bs + bytes_of fs

-- Each record takes a byte at least.
unfoldable pub replay : (Bytes → ℕ) → List (FileName × Bytes) → Bool → Option (List Record × Reader)
unfolding drain start_reader
replay crc files strict = drain crc (suc (bytes_of files)) (start_reader strict files)
