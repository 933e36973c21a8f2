-- ===== src/Trace/Newest.antt =====
-- The order of the index: within one environment and service the newest entry comes first, and a scan
-- of one pair meets no entry of another.
use ozymandias.Base.{
  ℕ, ◌^◌, ◌<◌, ◌≡◌, ◌↔◌, refl, sym, ap, ◌∙◌, true, false, ◌&&◌, [], ◌∷◌, ◌++◌, length, All, arith,
  leb,
}
use mathlib.Core.Path.{ap₂}
use mathlib.Core.List.{append_assoc}
use ozymandias.Base.Bytes.{Bytes, bytes_le}
use ozymandias.Base.Wire.{
  put_be, length-put_be, bytes_le-put_be, bytes_le-append_false, bytes_le-same_front,
}
use ozymandias.Trace.{
  trace_len, span_len, invert, clean, suffix, pair_prefix, prefix_entry, entry_key, successor,
}
use ozymandias.Trace.Split.{HasNoNul, clean-HasNoNul, suffix_lem}
use ozymandias.Trace.Range.{has_prefix, is_before, successor_scan}

-- Of two entries of one environment and service, the one that starts later has the smaller key.
pub newest_first :
    (env service : Bytes) (older newer : ℕ) (trace trace' span span' : Bytes)
    → older < newer
    → newer < 2 ^ 64
    → length trace ≡ trace_len
    → length trace' ≡ trace_len
    → length span ≡ span_len
    → length span' ≡ span_len
    → bytes_le (entry_key env service older trace span) (entry_key env service newer trace' span')
      ≡ false
unfolding entry_key
newest_first env service older newer trace trace' span span' h small ht ht' hs hs' =
    let flipped : leb (invert older) (invert newer) ≡ false =
      unfold invert in ground (arith, h, small) in
    let o : invert older < 256 ^ 8 = unfold invert in omega arith in
    let n : invert newer < 256 ^ 8 = unfold invert in omega arith in
    let starts = bytes_le-put_be 8 (invert older) (invert newer) o n ∙ flipped in
    rw
      (
        bytes_le-same_front,
        suffix_lem older trace span ht hs,
        suffix_lem newer trace' span' ht' hs',
      )
      (bytes_le-append_false (put_be 8 (invert older)) (put_be 8 (invert newer)) (trace ++ span)
        (trace' ++ span') (length-put_be 8 (invert older) ∙ sym (length-put_be 8 (invert newer)))
        starts)

-- What a separator closes is found by its prefix alone.
prefix_closed :
    (a a' b b' : Bytes)
    → HasNoNul a
    → HasNoNul a'
    → has_prefix (a ++ 0 ∷ b) (a' ++ 0 ∷ b') ≡ true
    → (a ≡ a') × (has_prefix b b' ≡ true)
prefix_closed [] [] b b' h h' e = (refl, e)
prefix_closed [] (x ∷ a') b b' h (n, h') e = ground (arith, n, e)
prefix_closed (x ∷ a) [] b b' (n, h) h' e = ground (arith, n, e)
prefix_closed (x ∷ a) (y ∷ a') b b' (n, h) (n', h') e =
    let same : x ≡ y = ground (arith, e) in
    let rest = prefix_closed a a' b b' h h' (ground (arith, e)) in
    (ap₂ (λ u v. u ∷ v) same rest.0, rest.1)

prefix_self : (a b : Bytes) → has_prefix a (a ++ b) ≡ true
prefix_self [] b = refl
prefix_self (x ∷ a) b = ground (arith, prefix_self a b)

-- An entry's key, name by name.
regrouped :
    (env service : Bytes) (start : ℕ) (trace span : Bytes)
    → entry_key env service start trace span
      ≡ prefix_entry ∷ (clean env ++ 0 ∷ (clean service ++ 0 ∷ suffix start trace span))
unfolding entry_key pair_prefix
regrouped env service start trace span =
    let s = suffix start trace span in
    ap (λ t. prefix_entry ∷ t)
      (append_assoc (clean env) (0 ∷ (clean service ++ 0 ∷ [])) s
        ∙ ap (λ t. clean env ++ 0 ∷ t) (append_assoc (clean service) (0 ∷ []) s))

found :
    (env service env' service' s : Bytes)
    → has_prefix
        (pair_prefix prefix_entry env service)
        (prefix_entry ∷ (clean env' ++ 0 ∷ (clean service' ++ 0 ∷ s)))
      ≡ true
    → (clean env ≡ clean env') × (clean service ≡ clean service')
unfolding pair_prefix
found env service env' service' s e =
    let first =
      prefix_closed (clean env) (clean env') (clean service ++ 0 ∷ []) (clean service' ++ 0 ∷ s)
        (clean-HasNoNul env) (clean-HasNoNul env') e in
    let second =
      prefix_closed (clean service) (clean service') [] s (clean-HasNoNul service)
        (clean-HasNoNul service') first.1 in
    (first.0, second.0)

pair_prefix-same :
    (kind : ℕ) (env service env' service' : Bytes)
    → clean env ≡ clean env'
    → clean service ≡ clean service'
    → pair_prefix kind env service ≡ pair_prefix kind env' service'
unfolding pair_prefix
pair_prefix-same kind env service env' service' e s =
    ap₂ (λ a b. kind ∷ (a ++ 0 ∷ (b ++ 0 ∷ []))) e s

has_prefix-entry_key :
    (env service : Bytes) (start : ℕ) (trace span : Bytes)
    → has_prefix (pair_prefix prefix_entry env service) (entry_key env service start trace span)
      ≡ true
unfolding entry_key
has_prefix-entry_key env service start trace span =
    prefix_self (pair_prefix prefix_entry env service) (suffix start trace span)

-- A scan from the prefix of one environment and service to its successor takes an entry exactly if it
-- is of these two, their names read with each NUL byte replaced.
pub pair_scan :
    (env service env' service' : Bytes) (start : ℕ) (trace span : Bytes)
    → All (λ (b : ℕ). b < 256) (entry_key env' service' start trace span)
    → ((bytes_le (pair_prefix prefix_entry env service) (entry_key env' service' start trace span)
          && is_before
              (entry_key env' service' start trace span)
              (successor (pair_prefix prefix_entry env service)))
        ≡ true)
      ↔ ((clean env ≡ clean env') × (clean service ≡ clean service'))
pair_scan env service env' service' start trace span bytes =
    let p = pair_prefix prefix_entry env service in
    let k = entry_key env' service' start trace span in
    let scan = successor_scan p k bytes in
    (
      λ e.
          found env service env' service' (suffix start trace span)
            (ap (has_prefix p) (sym (regrouped env' service' start trace span)) ∙ sym scan ∙ e),
      λ same.
          scan
          ∙ ap (λ f. has_prefix f k)
              (pair_prefix-same prefix_entry env service env' service' same.0 same.1)
          ∙ has_prefix-entry_key env' service' start trace span,
    )
