-- ===== src/Trace/Tests.antt =====
-- Keys of one environment and service, at two times.
use ozymandias.Base.{◌≡◌, ◌↔◌, refl, true, false, ◌&&◌, some, [], ◌∷◌, arith}
use ozymandias.Base.Bytes.{Bytes, bytes_le}
use ozymandias.Base.Wire.{put_be}
use ozymandias.Trace.{
  clean, pair_prefix, prefix_entry, entry_key, split_suffix, split_pair, edge_key, split_edge_key,
  successor,
}
use ozymandias.Trace.Range.{has_prefix, is_before, successor_scan}
use ozymandias.Trace.Split.{HasNoNul, split-entry_key, split_edge_key-edge_key}
use ozymandias.Trace.Newest.{newest_first, pair_scan}

abbrev trace_id : Bytes
trace_id = 1 ∷ 2 ∷ 3 ∷ 4 ∷ 5 ∷ 6 ∷ 7 ∷ 8 ∷ 9 ∷ 10 ∷ 11 ∷ 12 ∷ 13 ∷ 14 ∷ 15 ∷ 16 ∷ []

abbrev span_id : Bytes
span_id = 1 ∷ 0 ∷ 0 ∷ 0 ∷ 0 ∷ 0 ∷ 0 ∷ 255 ∷ []

-- "prod", and "a" with a NUL byte behind it.
abbrev prod : Bytes
prod = 112 ∷ 114 ∷ 111 ∷ 100 ∷ []

abbrev odd_name : Bytes
odd_name = 97 ∷ 0 ∷ []

last_byte_wraps : successor (115 ∷ 1 ∷ 255 ∷ 255 ∷ []) ≡ some (115 ∷ 2 ∷ [])
unfolding successor
last_byte_wraps = refl

successor_scan_example :
    (bytes_le (115 ∷ 255 ∷ []) (115 ∷ 255 ∷ 3 ∷ [])
      && is_before (115 ∷ 255 ∷ 3 ∷ []) (successor (115 ∷ 255 ∷ [])))
    ≡ has_prefix (115 ∷ 255 ∷ []) (115 ∷ 255 ∷ 3 ∷ [])
successor_scan_example = successor_scan (115 ∷ 255 ∷ []) (115 ∷ 255 ∷ 3 ∷ []) (omega arith)

split-entry_key_example :
    (split_suffix (entry_key prod odd_name 1700 trace_id span_id) ≡ some (1700, trace_id, span_id))
    × (split_pair (entry_key prod odd_name 1700 trace_id span_id) true
        ≡ some (clean prod, clean odd_name))
    × (HasNoNul prod → HasNoNul odd_name → (clean prod ≡ prod) × (clean odd_name ≡ odd_name))
split-entry_key_example =
    split-entry_key prod odd_name 1700 trace_id span_id (omega arith) refl refl

split_edge_key-edge_key_example :
    split_edge_key (edge_key 472222 prod odd_name prod)
    ≡ some (472222, clean prod, clean odd_name, clean prod)
split_edge_key-edge_key_example = split_edge_key-edge_key 472222 prod odd_name prod (omega arith)

newest_first_example :
    bytes_le
      (entry_key prod odd_name 1700 trace_id span_id)
      (entry_key prod odd_name 1701 trace_id span_id)
    ≡ false
newest_first_example =
    newest_first prod odd_name 1700 1701 trace_id trace_id span_id span_id (omega arith)
      (omega arith) refl refl refl refl

pair_scan_example :
    ((bytes_le (pair_prefix prefix_entry prod prod) (entry_key prod odd_name 1700 trace_id span_id)
        && is_before
            (entry_key prod odd_name 1700 trace_id span_id)
            (successor (pair_prefix prefix_entry prod prod)))
      ≡ true)
    ↔ ((clean prod ≡ clean prod) × (clean prod ≡ clean odd_name))
unfolding entry_key put_be
pair_scan_example = pair_scan prod prod prod odd_name 1700 trace_id span_id (omega arith)
