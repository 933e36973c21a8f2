-- ===== src/LogHub/Feed.antt =====
-- What `Publish` does to every subscription, and to the counters.
use ozymandias.Base.{
  ℕ, zero, suc, ◌+◌, ◌-◌, ◌≡◌, refl, ap, sym, ◌∙◌, Bool, true, false, List, [], ◌∷◌, ◌++◌, map,
  length, length-append, take, if◌then◌else◌, ◌==◌, arith, Bool-cases, inl, inr,
}
use mathlib.Core.List.{append_assoc, append-nil}
use ozymandias.LogHub.{Subscription, Hub, has_room, offer, offer_all, publish_all, publish}

module _ {ℓ} {A : Type ℓ} where
  abbrev pub matching : (A → Bool) → List A → List A
  matching f [] = []
  matching f (l ∷ ls) = if f l then l ∷ matching f ls else matching f ls

  abbrev pub room : Subscription A → ℕ
  room s = s.capacity - length s.channel

  abbrev with_parts : Subscription A → List A → ℕ → Subscription A
  with_parts s c d = record s { channel = c; dropped = d }

  abbrev pub fed_with : List A → Subscription A → Subscription A
  fed_with ms s = with_parts s (s.channel ++ take (room s) ms) (s.dropped + (length ms - room s))

  -- The first logs that match and fit are in the channel, in order, and the others are counted.
  abbrev pub fed : List A → Subscription A → Subscription A
  fed ls s = fed_with (matching s.filter ls) s

  -- What all of the subscriptions have counted as dropped, and hold.
  abbrev pub all_dropped : List (Subscription A) → ℕ
  all_dropped [] = 0
  all_dropped (s ∷ ss) = s.dropped + all_dropped ss

  abbrev pub all_held : List (Subscription A) → ℕ
  all_held [] = 0
  all_held (s ∷ ss) = length s.channel + all_held ss

  parts :
      (s : Subscription A) {c c' : List A} {d d' : ℕ}
      → c ≡ c'
      → d ≡ d'
      → with_parts s c d ≡ with_parts s c' d'
  parts s e f = rw (e, f) refl

  take-nil : (n : ℕ) → take {A = A} n [] ≡ []
  take-nil zero = refl
  take-nil (suc n) = refl

  fed-none : (s : Subscription A) → fed [] s ≡ s
  fed-none s =
      parts s (ap (λ t. s.channel ++ t) (take-nil (room s)) ∙ append-nil s.channel) (omega arith)

  offer_skip : (l : A) (s : Subscription A) → s.filter l ≡ false → offer l s ≡ s
  unfolding offer
  offer_skip l s f = rw f refl

  offer_send :
      (l : A) (s : Subscription A)
      → s.filter l ≡ true
      → has_room s ≡ true
      → offer l s ≡ with_parts s (s.channel ++ l ∷ []) s.dropped
  unfolding offer
  offer_send l s f r = rw (f, r) refl

  offer_drop :
      (l : A) (s : Subscription A)
      → s.filter l ≡ true
      → has_room s ≡ false
      → offer l s ≡ with_parts s s.channel (s.dropped + 1)
  unfolding offer
  offer_drop l s f r = rw (f, r) refl

  room_for : (s : Subscription A) → has_room s ≡ true → room s ≡ suc (room s - 1)
  unfolding has_room
  room_for s r = ground (arith, r)

  no_room : (s : Subscription A) → has_room s ≡ false → room s ≡ 0
  unfolding has_room
  no_room s r = ground (arith, r)

  sent :
      (l : A) (ms : List A) (s : Subscription A) (n : ℕ)
      → room s ≡ suc n
      → fed_with ms (with_parts s (s.channel ++ l ∷ []) s.dropped) ≡ fed_with (l ∷ ms) s
  sent l ms s n r =
      let less : s.capacity - length (s.channel ++ l ∷ []) ≡ n =
        omega (arith, r, length-append s.channel (l ∷ [])) in
      parts s
        (ap (λ k. (s.channel ++ l ∷ []) ++ take k ms) less
          ∙ append_assoc s.channel (l ∷ []) (take n ms)
          ∙ ap (λ k. s.channel ++ take k (l ∷ ms)) (sym r))
        (omega (arith, less, r))

  lost :
      (l : A) (ms : List A) (s : Subscription A)
      → room s ≡ 0
      → fed_with ms (with_parts s s.channel (s.dropped + 1)) ≡ fed_with (l ∷ ms) s
  lost l ms s r =
      parts s (ap (λ k. s.channel ++ take k ms) r ∙ ap (λ k. s.channel ++ take k (l ∷ ms)) (sym r))
        (omega (arith, r))

  -- One log, and then the others.
  fed-offer : (l : A) (ls : List A) (s : Subscription A) → fed ls (offer l s) ≡ fed (l ∷ ls) s
  fed-offer l ls s =
      let ms : List A = matching s.filter ls in
      elim (Bool-cases (s.filter l)) [
        | inr f ↦ rw (offer_skip l s f, f) refl
        | inl f ↦ elim (Bool-cases (has_room s)) [
          | inl r ↦ rw (offer_send l s f r, f) (sent l ms s (room s - 1) (room_for s r))
          | inr r ↦ rw (offer_drop l s f r, f) (lost l ms s (no_room s r))
        ]
      ]

  offer_all-subs :
      (l : A) (ss : List (Subscription A)) (d p : ℕ) → (offer_all l ss d p).0 ≡ map (offer l) ss
  unfolding offer_all
  offer_all-subs l [] d p = refl
  offer_all-subs l (s ∷ ss) d p = ap (λ t. offer l s ∷ t) (offer_all-subs l ss _ _)

  map-fed-none : (ss : List (Subscription A)) → map (fed []) ss ≡ ss
  map-fed-none [] = refl
  map-fed-none (s ∷ ss) = rw (fed-none s, map-fed-none ss) refl

  map-fed-offer :
      (l : A) (ls : List A) (ss : List (Subscription A))
      → map (fed ls) (map (offer l) ss) ≡ map (fed (l ∷ ls)) ss
  map-fed-offer l ls [] = refl
  map-fed-offer l ls (s ∷ ss) = rw (fed-offer l ls s, map-fed-offer l ls ss) refl

  publish_all-subs :
      (ls : List A) (ss : List (Subscription A)) (d p : ℕ)
      → (publish_all ls ss d p).0 ≡ map (fed ls) ss
  unfolding publish_all
  publish_all-subs [] ss d p = sym (map-fed-none ss)
  publish_all-subs (l ∷ ls) ss d p =
      let here = offer_all-subs l ss d p in
      publish_all-subs ls (offer_all l ss d p).0 _ _
      ∙ ap (map (fed ls)) here
      ∙ map-fed-offer l ls ss

  no_subs : (ss : List (Subscription A)) → (length ss == 0) ≡ true → ss ≡ []
  no_subs [] e = refl
  no_subs (s ∷ ss) e = absurd (ground (arith, e))

  publish_idle :
      (h : Hub A) (ls : List A)
      → (length h.subs == 0) ≡ true
      → publish h ls ≡ record h { published = h.published + length ls }
  unfolding publish
  publish_idle h ls e = rw e refl

  publish_busy :
      (h : Hub A) (ls : List A)
      → (length h.subs == 0) ≡ false
      → publish h ls ≡ record h {
        subs = (publish_all ls h.subs h.delivered h.hub_dropped).0;
        published = h.published + length ls;
        delivered = (publish_all ls h.subs h.delivered h.hub_dropped).1;
        hub_dropped = (publish_all ls h.subs h.delivered h.hub_dropped).2;
      }
  unfolding publish
  publish_busy h ls e = rw e refl

  -- After `Publish`, every channel holds what it held and behind it, in the order of the logs, the
  -- first matching ones that fit its capacity; the matching ones that do not fit are counted as
  -- dropped by their subscription, which is otherwise as it was.
  pub publish-fed : (h : Hub A) (ls : List A) → (publish h ls).subs ≡ map (fed ls) h.subs
  publish-fed h ls = elim (Bool-cases (length h.subs == 0)) [
    | inl idle ↦
        rw (publish_idle h ls idle)
          (no_subs h.subs idle ∙ ap (map (fed ls)) (sym (no_subs h.subs idle)))
    | inr busy ↦ rw (publish_busy h ls busy) (publish_all-subs ls h.subs h.delivered h.hub_dropped)
  ]

  -- The counters of the hub move as those of the subscriptions.
  abbrev Balanced : List (Subscription A) × ℕ × ℕ → List (Subscription A) × ℕ × ℕ → Type 0
  Balanced a b =
      (b.1 + all_held a.0 ≡ a.1 + all_held b.0) × (b.2 + all_dropped a.0 ≡ a.2 + all_dropped b.0)

  offer-Balanced :
      (l : A) (s : Subscription A) (d p : ℕ)
      → ((if s.filter l then (if has_room s then d + 1 else d) else d) + length s.channel
          ≡ d + length (offer l s).channel)
        × ((if s.filter l then (if has_room s then p else p + 1) else p) + s.dropped
            ≡ p + (offer l s).dropped)
  offer-Balanced l s d p = elim (Bool-cases (s.filter l)) [
    | inr f ↦ rw (offer_skip l s f, f) (refl, refl)
    | inl f ↦ elim (Bool-cases (has_room s)) [
      | inl r ↦
          rw (offer_send l s f r, f, r) (omega (arith, length-append s.channel (l ∷ [])), refl)
      | inr r ↦ rw (offer_drop l s f r, f, r) (refl, omega arith)
    ]
  ]

  offer_all-Balanced :
      (l : A) (ss : List (Subscription A)) (d p : ℕ) → Balanced (ss, d, p) (offer_all l ss d p)
  unfolding offer_all
  offer_all-Balanced l [] d p = (refl, refl)
  offer_all-Balanced l (s ∷ ss) d p =
      let d' : ℕ = if s.filter l then (if has_room s then d + 1 else d) else d in
      let p' : ℕ = if s.filter l then (if has_room s then p else p + 1) else p in
      let (held, dropped) = offer-Balanced l s d p in
      let (all_h, all_d) = offer_all-Balanced l ss d' p' in
      (omega (arith, held, all_h), omega (arith, dropped, all_d))

  publish_all-Balanced :
      (ls : List A) (ss : List (Subscription A)) (d p : ℕ)
      → Balanced (ss, d, p) (publish_all ls ss d p)
  unfolding publish_all
  publish_all-Balanced [] ss d p = (refl, refl)
  publish_all-Balanced (l ∷ ls) ss d p =
      let (h1, d1) = offer_all-Balanced l ss d p in
      let (h2, d2) =
        publish_all-Balanced ls (offer_all l ss d p).0 (offer_all l ss d p).1
          (offer_all l ss d p).2 in
      (omega (arith, h1, h2), omega (arith, d1, d2))

  -- `Publish` counts every log that it puts into a channel as delivered, and every one that a
  -- subscription counts as dropped as dropped, and nothing else.
  pub publish_counts :
      (h : Hub A) (ls : List A)
      → ((publish h ls).delivered + all_held h.subs ≡ h.delivered + all_held (publish h ls).subs)
        × ((publish h ls).hub_dropped + all_dropped h.subs
            ≡ h.hub_dropped + all_dropped (publish h ls).subs)
        × ((publish h ls).published ≡ h.published + length ls)
  publish_counts h ls = elim (Bool-cases (length h.subs == 0)) [
    | inl idle ↦ rw (publish_idle h ls idle) (refl, refl, refl)
    | inr busy ↦
        let (held, dropped) = publish_all-Balanced ls h.subs h.delivered h.hub_dropped in
        rw (publish_busy h ls busy) (held, dropped, refl)
  ]
