-- ===== src/Trace.antt =====
-- internal/tracestore/keys.go: the keys under which spans and their index entries are stored, the
-- readers of a key, and the end of a range scan. A time is an int64 in its two's complement pattern.
-- The FNV hash of a lower-cased resource is a parameter.
pub mod Range
pub mod Split
pub mod Newest
mod Tests
use ozymandias.Base.{
  ℕ, zero, suc, ◌+◌, ◌-◌, ◌*◌, ◌/◌, ◌%◌, ◌^◌, Bool, true, false, not, ◌&&◌, ◌||◌, Option, none,
  some, List, [], ◌∷◌, ◌++◌, length, take, drop, map, if◌then◌else◌, ltb, leb, ◌==◌,
}
use mathlib.Core.Option
use ozymandias.Base.Bytes.{Bytes}
use ozymandias.Base.Wire.{put_be, get_be}

abbrev pub prefix_span : ℕ
prefix_span = b's'

abbrev pub prefix_entry : ℕ
prefix_entry = b'e'

abbrev pub prefix_resource : ℕ
prefix_resource = b'r'

abbrev pub prefix_error : ℕ
prefix_error = b'x'

abbrev pub prefix_edge : ℕ
prefix_edge = b'g'

abbrev pub prefix_seen : ℕ
prefix_seen = b't'

abbrev pub prefix_service : ℕ
prefix_service = b'v'

abbrev pub trace_len : ℕ
trace_len = 16

abbrev pub span_len : ℕ
span_len = 8

abbrev pub suffix_len : ℕ
suffix_len = 8 + trace_len + span_len

unfoldable pub invert : ℕ → ℕ
invert ts = 2 ^ 64 - 1 - ts

unfoldable pub uninvert : ℕ → ℕ
uninvert u = 2 ^ 64 - 1 - u

-- `clean`; a string without the separator comes out as it is.
unfoldable pub clean : Bytes → Bytes
clean [] = []
clean (b ∷ bs) = (if b == 0 then b'_' else b) ∷ clean bs

unfoldable pub hex_digit : ℕ → Option ℕ
hex_digit c =
    if leb b'0' c && leb c b'9'
    then some (c - b'0')
    else if leb b'a' c && leb c b'f'
    then some (c - b'a' + 10)
    else if leb b'A' c && leb c b'F'
    then some (c - b'A' + 10)
    else none

abbrev pair_of : Option ℕ → Option ℕ → Option Bytes → Option Bytes
pair_of (some h) (some l) (some rest) = some ((16 * h + l) ∷ rest)
pair_of h l rest = none

-- `hex.DecodeString`
unfoldable pub hex_decode : Bytes → Option Bytes
unfolding hex_digit
hex_decode [] = some []
hex_decode (h ∷ []) = none
hex_decode (h ∷ l ∷ s) = pair_of (hex_digit h) (hex_digit l) (hex_decode s)

-- `decodeID`
unfoldable pub decode_id : Bytes → ℕ → Option Bytes
unfolding hex_decode
decode_id s n = if length s == 2 * n then hex_decode s else none

-- `copy` of a slice onto the front of another.
unfoldable pub copy : Bytes → Bytes → Bytes
copy [] src = []
copy (d ∷ dst) [] = d ∷ dst
copy (d ∷ dst) (b ∷ src) = b ∷ copy dst src

unfoldable pub zeros : ℕ → Bytes
zeros zero = []
zeros (suc n) = 0 ∷ zeros n

unfoldable pub span_key : Bytes → Bytes → Bytes
span_key trace span = prefix_span ∷ trace ++ span

unfoldable pub trace_prefix : Bytes → Bytes
trace_prefix trace = prefix_span ∷ trace

-- `pairPrefix`
unfoldable pub pair_prefix : ℕ → Bytes → Bytes → Bytes
unfolding clean
pair_prefix kind env service = kind ∷ (clean env ++ 0 ∷ (clean service ++ 0 ∷ []))

-- `suffix`
unfoldable pub suffix : ℕ → Bytes → Bytes → Bytes
unfolding invert copy zeros
suffix start trace span =
    let ids = copy (zeros (trace_len + span_len)) trace in
    put_be 8 (invert start) ++ (take trace_len ids ++ copy (drop trace_len ids) span)

unfoldable pub entry_key : Bytes → Bytes → ℕ → Bytes → Bytes → Bytes
unfolding pair_prefix suffix
entry_key env service start trace span =
    pair_prefix prefix_entry env service ++ suffix start trace span

unfoldable pub error_key : Bytes → Bytes → ℕ → Bytes → Bytes → Bytes
unfolding pair_prefix suffix
error_key env service start trace span =
    pair_prefix prefix_error env service ++ suffix start trace span

unfoldable pub resource_prefix : Bytes → Bytes → Bytes → Bytes
unfolding pair_prefix
resource_prefix env service h = pair_prefix prefix_resource env service ++ h

-- `resourceHash` by the hash, and `resourceKey`
unfoldable pub resource_key : (Bytes → ℕ) → Bytes → Bytes → Bytes → ℕ → Bytes → Bytes → Bytes
unfolding resource_prefix suffix
resource_key hash env service resource start trace span =
    resource_prefix env service (put_be 8 (hash resource)) ++ suffix start trace span

-- `splitSuffix`
unfoldable pub split_suffix : Bytes → Option (ℕ × Bytes × Bytes)
unfolding uninvert
split_suffix key =
    if ltb (length key) (suffix_len + 1)
    then none
    else (let s = drop (length key - suffix_len) key in
        some (uninvert (get_be (take 8 s)), take trace_len (drop 8 s), drop (8 + trace_len) s))

-- `bytes.IndexByte` of the separator
unfoldable pub index_nul : Bytes → Option ℕ
index_nul [] = none
index_nul (b ∷ bs) = if b == 0 then some 0 else Option.map suc (index_nul bs)

-- What is left of the service when the separator that closes it is taken off.
unfoldable pub closed_service : Bytes → Option Bytes
closed_service [] = none
closed_service (b ∷ []) = if b == 0 then some [] else none
closed_service (b ∷ c ∷ bs) = Option.map (λ s. b ∷ s) (closed_service (c ∷ bs))

unfoldable pub split_at : Bool → Bytes → Option ℕ → Option (Bytes × Bytes)
unfolding closed_service
split_at has_suffix body none = none
split_at has_suffix body (some i) =
    let env = take i body in
    let rest = drop (i + 1) body in
    if has_suffix then Option.map (λ s. (env, s)) (closed_service rest) else some (env, rest)

-- `splitPair`
unfoldable pub split_pair : Bytes → Bool → Option (Bytes × Bytes)
unfolding index_nul split_at
split_pair key has_suffix =
    if ltb (length key) 2
    then none
    else (let body = drop 1 key in
        if has_suffix
        then (if ltb (length body) suffix_len
            then none
            else (let front = take (length body - suffix_len) body in
                split_at has_suffix front (index_nul front)))
        else split_at has_suffix body (index_nul body))

unfoldable pub service_key : Bytes → Bytes → Bytes
unfolding clean
service_key env service = prefix_service ∷ (clean env ++ 0 ∷ clean service)

-- `hourOf` of a time that is not negative.
unfoldable pub hour_of : ℕ → ℕ
hour_of us = us / 3600000000 % 2 ^ 32

unfoldable pub edge_key : ℕ → Bytes → Bytes → Bytes → Bytes
unfolding clean
edge_key hour env parent child =
    prefix_edge ∷ (put_be 4 hour ++ (clean env ++ 0 ∷ (clean parent ++ 0 ∷ clean child)))

abbrev onto_first : ℕ → List Bytes → List Bytes
onto_first b [] = (b ∷ []) ∷ []
onto_first b (p ∷ ps) = (b ∷ p) ∷ ps

-- `bytes.Split` at the separator
unfoldable pub split_nul : Bytes → List Bytes
split_nul [] = [] ∷ []
split_nul (b ∷ bs) = let rest = split_nul bs in if b == 0 then [] ∷ rest else onto_first b rest

abbrev three_parts : ℕ → List Bytes → Option (ℕ × Bytes × Bytes × Bytes)
three_parts hour (env ∷ parent ∷ child ∷ []) = some (hour, env, parent, child)
three_parts hour parts = none

-- `splitEdgeKey`
unfoldable pub split_edge_key : Bytes → Option (ℕ × Bytes × Bytes × Bytes)
unfolding split_nul
split_edge_key key =
    if ltb (length key) (1 + 4 + 2)
    then none
    else three_parts (get_be (take 4 (drop 1 key))) (split_nul (drop 5 key))

unfoldable pub seen_key : ℕ → Bytes → Bytes
seen_key hour trace = prefix_seen ∷ put_be 4 hour ++ trace

abbrev stepped : ℕ → Option Bytes → Option Bytes
stepped b (some s) = some (b ∷ s)
stepped b none = if ltb b 0xff then some ((b + 1) ∷ []) else none

-- `successor`: its loop from the last byte takes the last one that is below 0xFF.
unfoldable pub successor : Bytes → Option Bytes
successor [] = none
successor (b ∷ bs) = stepped b (successor bs)
