-- ===== src/Trace/Split.antt =====
-- What is read back from a key: the environment, the service, the start and the ids that it was made
-- of, whatever bytes the names hold.
use ozymandias.Base.{
  ℕ, zero, suc, ◌+◌, ◌-◌, ◌^◌, ◌<◌, ◌≤◌, ◌≡◌, refl, sym, ap, ◌∙◌, true, false, some, [], ◌∷◌, ◌++◌,
  length, drop, All, arith, ltb, ◌==◌, length-append, take-append, drop-append,
}
use mathlib.Core.List.{append_assoc, append-nil}
use mathlib.Core.Option
use ozymandias.Base.Bytes.{Bytes}
use ozymandias.Base.Wire.{put_be, get_be, length-put_be, get_be-put_be}
use ozymandias.Trace.{
  trace_len, span_len, suffix_len, invert, uninvert, clean, copy, zeros, suffix, pair_prefix,
  entry_key, split_suffix, split_pair, index_nul, closed_service, split_at, edge_key,
  split_edge_key, split_nul, prefix_entry,
}

abbrev pub HasNoNul : Bytes → Type 0
HasNoNul = All (λ (b : ℕ). (b == 0) ≡ false)

pub clean-HasNoNul : (s : Bytes) → HasNoNul (clean s)
unfolding clean
clean-HasNoNul [] = tt
clean-HasNoNul (b ∷ bs) = (ground arith, clean-HasNoNul bs)

pub clean_same : (s : Bytes) → HasNoNul s → clean s ≡ s
unfolding clean
clean_same [] h = refl
clean_same (b ∷ bs) (a, h) = rw a (ap (λ t. b ∷ t) (clean_same bs h))

copy-zeros :
    (n : ℕ) (src : Bytes) → length src ≤ n → copy (zeros n) src ≡ src ++ zeros (n - length src)
unfolding copy zeros
copy-zeros zero [] h = refl
copy-zeros zero (b ∷ src) h = absurd (omega (arith, h))
copy-zeros (suc n) [] h = let e : suc n ≡ suc n - 0 = omega arith in ap zeros e
copy-zeros (suc n) (b ∷ src) h =
    ap (λ t. b ∷ t) (copy-zeros n src (omega (arith, h)) ∙ ap (λ m. src ++ zeros m) (omega arith))

pub suffix_lem :
    (start : ℕ) (trace span : Bytes)
    → length trace ≡ trace_len
    → length span ≡ span_len
    → suffix start trace span ≡ put_be 8 (invert start) ++ (trace ++ span)
unfolding suffix zeros
suffix_lem start trace span ht hs =
    let ids = copy-zeros (trace_len + span_len) trace (omega (arith, ht)) in
    let rest : (trace_len + span_len) - length trace ≡ span_len = omega (arith, ht) in
    let last = copy-zeros span_len span (omega (arith, hs)) in
    let nothing : span_len - length span ≡ 0 = omega (arith, hs) in
    rw
      (
        ids,
        rest,
        take-append trace (zeros span_len) trace_len ht,
        drop-append trace (zeros span_len) trace_len ht,
        last,
        nothing,
        append-nil,
      )
      refl

pub length-suffix :
    (start : ℕ) (trace span : Bytes)
    → length trace ≡ trace_len
    → length span ≡ span_len
    → length (suffix start trace span) ≡ suffix_len
length-suffix start trace span ht hs =
    ap length (suffix_lem start trace span ht hs)
    ∙ omega (
      arith,
      ht,
      hs,
      length-append trace span,
      length-put_be 8 (invert start),
      length-append (put_be 8 (invert start)) (trace ++ span),
    )

split_suffix-suffix :
    (front : Bytes) (start : ℕ) (trace span : Bytes)
    → 0 < length front
    → start < 2 ^ 64
    → length trace ≡ trace_len
    → length span ≡ span_len
    → split_suffix (front ++ suffix start trace span) ≡ some (start, trace, span)
unfolding split_suffix
split_suffix-suffix front start trace span some_front small ht hs =
    let s = suffix start trace span in
    let len = length-suffix start trace span ht hs in
    let sum = length-append front s in
    let long : ltb (length (front ++ s)) (suffix_len + 1) ≡ false =
      ground (arith, sum, len, some_front) in
    let cut : length front ≡ length (front ++ s) - suffix_len = omega (arith, sum, len) in
    let first = put_be 8 (invert start) in
    let l8 = length-put_be 8 (invert start) in
    let back : get_be (put_be 8 (invert start)) ≡ invert start =
      get_be-put_be 8 (invert start) (unfold invert in omega (arith, small)) in
    let undone : uninvert (invert start) ≡ start = unfold invert uninvert in omega (arith, small) in
    let regroup = sym (append_assoc first trace span) in
    let l24 : length (first ++ trace) ≡ 8 + trace_len =
      omega (arith, l8, ht, length-append first trace) in
    rw
      (
        long,
        drop-append front s (length (front ++ s) - suffix_len) cut,
        suffix_lem start trace span ht hs,
        take-append first (trace ++ span) 8 l8,
        drop-append first (trace ++ span) 8 l8,
        take-append trace span trace_len ht,
        back,
      )
      (rw (regroup, drop-append (first ++ trace) span (8 + trace_len) l24)
        (ap (λ n. some (n, trace, span)) undone))

index_nul-append : (a b : Bytes) → HasNoNul a → index_nul (a ++ 0 ∷ b) ≡ some (length a)
unfolding index_nul
index_nul-append [] b h = refl
index_nul-append (x ∷ a) b (n, h) = rw (n, index_nul-append a b h) refl

closed_service-append : (s : Bytes) → closed_service (s ++ 0 ∷ []) ≡ some s
unfolding closed_service
closed_service-append [] = refl
closed_service-append (x ∷ []) = refl
closed_service-append (x ∷ y ∷ s) = ap (Option.map (λ t. x ∷ t)) (closed_service-append (y ∷ s))

split_pair-key :
    (kind : ℕ) (env service tail : Bytes)
    → length tail ≡ suffix_len
    → split_pair (pair_prefix kind env service ++ tail) true ≡ some (clean env, clean service)
unfolding split_pair split_at pair_prefix
split_pair-key kind env service tail ht =
    let e = clean env in
    let s = clean service in
    let front = e ++ 0 ∷ (s ++ 0 ∷ []) in
    let sum = length-append front tail in
    let some_front : 0 < length front = omega (arith, length-append e (0 ∷ (s ++ 0 ∷ []))) in
    let long : ltb (suc (length (front ++ tail))) 2 ≡ false = ground (arith, sum, ht) in
    let room : ltb (length (front ++ tail)) suffix_len ≡ false = ground (arith, sum, ht) in
    let cut : length front ≡ length (front ++ tail) - suffix_len = omega (arith, sum, ht) in
    let found = index_nul-append e (s ++ 0 ∷ []) (clean-HasNoNul env) in
    let behind : drop (length e + 1) front ≡ s ++ 0 ∷ [] =
      ap (drop (length e + 1)) (sym (append_assoc e (0 ∷ []) (s ++ 0 ∷ [])))
      ∙ drop-append (e ++ 0 ∷ []) (s ++ 0 ∷ []) (length e + 1)
          (omega (arith, length-append e (0 ∷ []))) in
    rw (long, room, take-append front tail (length (front ++ tail) - suffix_len) cut, found)
      (rw (take-append e (0 ∷ (s ++ 0 ∷ [])) (length e) refl, behind, closed_service-append s) refl)

-- The key of an entry gives back its start and ids, and its environment and service with each NUL
-- byte replaced; names without one come back as they are.
pub split-entry_key :
    (env service : Bytes) (start : ℕ) (trace span : Bytes)
    → start < 2 ^ 64
    → length trace ≡ trace_len
    → length span ≡ span_len
    → (split_suffix (entry_key env service start trace span) ≡ some (start, trace, span))
      × (split_pair (entry_key env service start trace span) true ≡ some (clean env, clean service))
      × (HasNoNul env → HasNoNul service → (clean env ≡ env) × (clean service ≡ service))
unfolding entry_key
split-entry_key env service start trace span small ht hs = (
  split_suffix-suffix (pair_prefix prefix_entry env service) start trace span
      (unfold pair_prefix in omega arith) small ht hs,
  split_pair-key prefix_entry env service (suffix start trace span)
      (length-suffix start trace span ht hs),
  λ e s. (clean_same env e, clean_same service s),
)

split_nul-append : (a b : Bytes) → HasNoNul a → split_nul (a ++ 0 ∷ b) ≡ a ∷ split_nul b
unfolding split_nul
split_nul-append [] b h = refl
split_nul-append (x ∷ a) b (n, h) = rw (n, split_nul-append a b h) refl

split_nul-last : (a : Bytes) → HasNoNul a → split_nul a ≡ a ∷ []
unfolding split_nul
split_nul-last [] h = refl
split_nul-last (x ∷ a) (n, h) = rw (n, split_nul-last a h) refl

-- The key of an edge gives back its hour and its three names, each with its NUL bytes replaced.
pub split_edge_key-edge_key :
    (hour : ℕ) (env parent child : Bytes)
    → hour < 2 ^ 32
    → split_edge_key (edge_key hour env parent child)
      ≡ some (hour, clean env, clean parent, clean child)
unfolding split_edge_key edge_key
split_edge_key-edge_key hour env parent child small =
    let e = clean env in
    let p = clean parent in
    let c = clean child in
    let names = e ++ 0 ∷ (p ++ 0 ∷ c) in
    let first = put_be 4 hour in
    let l4 = length-put_be 4 hour in
    let back = get_be-put_be 4 hour (omega (arith, small)) in
    let long : ltb (suc (length (first ++ names))) (1 + 4 + 2) ≡ false = ground (
      arith,
      l4,
      length-append first names,
      length-append e (0 ∷ (p ++ 0 ∷ c)),
      length-append p (0 ∷ c),
    ) in
    let parts : split_nul names ≡ e ∷ p ∷ c ∷ [] =
      split_nul-append e (p ++ 0 ∷ c) (clean-HasNoNul env)
      ∙ ap (λ t. e ∷ t)
          (split_nul-append p c (clean-HasNoNul parent)
            ∙ ap (λ t. p ∷ t) (split_nul-last c (clean-HasNoNul child))) in
    rw (long, take-append first names 4 l4, drop-append first names 4 l4, back, parts) refl
