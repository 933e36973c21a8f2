-- ===== src/LogHub/Bounded.antt =====
-- No sequence of calls fills a hub or a channel beyond its bound.
use ozymandias.Base.{
  ℕ, zero, suc, ◌≤◌, ◌≡◌, refl, ap, sym, ◌∙◌, Bool, true, false, Option, none, some, List, [], ◌∷◌,
  map, All, length, length-append, take, if◌then◌else◌, leb, ◌==◌, arith, Bool-cases, inl, inr,
}
use mathlib.Core.Path.{subst}
use ozymandias.Base.Int.{ℤ, pos, pos_part, leb_ℤ}
use ozymandias.LogHub.{
  default_buffer, Subscription, Hub, new_hub, subscribe, unsubscribed, close, take_dropped, receive,
  publish,
}
use ozymandias.LogHub.Feed.{fed, fed_with, room, matching, publish-fed}

module _ {ℓ} {A : Type ℓ} where
  -- One subscription of the hub is changed by its reader.
  abbrev pub on_sub :
      ℕ → (Subscription A → Subscription A) → List (Subscription A) → List (Subscription A)
  on_sub id f [] = []
  on_sub id f (s ∷ ss) = if s.id == id then f s ∷ ss else s ∷ on_sub id f ss

  abbrev pub received : Subscription A → Subscription A
  received s = elim (receive s) [ none ↦ s | some p ↦ p.1 ]

  abbrev pub reported : Subscription A → Subscription A
  reported s = (take_dropped s).1

  -- The hubs that calls of `New`, `Subscribe`, `Close`, `Publish` and `TakeDropped`, and readers of
  -- the channels, produce.
  pub data Reach : Hub A → Type ℓ where
    created : (n : ℤ) → Reach (new_hub n)
    subscribed :
        {h h' : Hub A} (id : ℕ) (f : A → Bool) (buffer : ℤ)
        → Reach h
        → subscribe h id f buffer ≡ some h'
        → Reach h'
    closed : {h : Hub A} (id : ℕ) → Reach h → Reach (close h id)
    published : {h : Hub A} (ls : List A) → Reach h → Reach (publish h ls)
    read : {h : Hub A} (id : ℕ) → Reach h → Reach (record h { subs = on_sub id received h.subs })
    asked : {h : Hub A} (id : ℕ) → Reach h → Reach (record h { subs = on_sub id reported h.subs })

  pub record Fits (s : Subscription A) : Type 0 where
    pub in_capacity : length s.channel ≤ s.capacity
    pub in_dropped : s.taken ≤ s.dropped

  pub record IsBounded (h : Hub A) : Type 0 where
    pub few : length h.subs ≤ h.max_subs
    pub each : All Fits h.subs

  length-take : (n : ℕ) (xs : List A) → length (take n xs) ≤ n
  length-take zero xs = omega arith
  length-take (suc n) [] = omega arith
  length-take (suc n) (x ∷ xs) = omega (arith, length-take n xs)

  fed_with-Fits : (ms : List A) (s : Subscription A) → Fits s → Fits (fed_with ms s)
  fed_with-Fits ms s h =
      let c = h.in_capacity in
      let t = h.in_dropped in
      record {
        in_capacity =
            omega (arith, c, length-append s.channel (take (room s) ms), length-take (room s) ms);
        in_dropped = omega (arith, t);
      }

  receive_some :
      (s : Subscription A) (x : A) (xs : List A)
      → s.channel ≡ x ∷ xs
      → received s ≡ record s { channel = xs }
  unfolding receive
  receive_some s x xs e = rw (received, e) refl

  -- What reading a channel `c` of the subscription leaves.
  abbrev read_from : Subscription A → List A → Subscription A
  read_from s c =
      let got : Option (A × Subscription A) = elim c [
        | [] ↦ none
        | x ∷ xs ↦ some (x, record s { channel = xs })
      ] in
      elim got [ none ↦ s | some p ↦ p.1 ]

  receive_none : (s : Subscription A) → s.channel ≡ [] → received s ≡ s
  unfolding receive
  receive_none s e = ap (read_from s) e

  received_from : (s : Subscription A) (c : List A) → s.channel ≡ c → Fits s → Fits (received s)
  received_from s [] e h = subst Fits (sym (receive_none s e)) h
  received_from s (x ∷ xs) e h =
      let c = h.in_capacity in
      let len : length s.channel ≡ suc (length xs) = ap length e in
      subst Fits (sym (receive_some s x xs e))
        (record { in_capacity = omega (arith, c, len); in_dropped = h.in_dropped })

  received-Fits : (s : Subscription A) → Fits s → Fits (received s)
  received-Fits s h = received_from s s.channel refl h

  reported-Fits : (s : Subscription A) → Fits s → Fits (reported s)
  unfolding take_dropped
  reported-Fits s h = record { in_capacity = h.in_capacity; in_dropped = omega arith }

  on_sub-Fits :
      (id : ℕ) (f : Subscription A → Subscription A)
      → ((s : Subscription A) → Fits s → Fits (f s))
      → (ss : List (Subscription A)) → All Fits ss
      → All Fits (on_sub id f ss) × (length (on_sub id f ss) ≡ length ss)
  on_sub-Fits id f k [] h = (tt, refl)
  on_sub-Fits id f k (s ∷ ss) (a, h) =
      let (rest, len) = on_sub-Fits id f k ss h in
      elim (Bool-cases (s.id == id)) [
        | inl here ↦ rw here ((k s a, h), refl)
        | inr there ↦ rw there ((a, rest), ap suc len)
      ]

  map-Fits :
      (ls : List A) (ss : List (Subscription A))
      → All Fits ss
      → All Fits (map (fed ls) ss) × (length (map (fed ls) ss) ≡ length ss)
  map-Fits ls [] h = (tt, refl)
  map-Fits ls (s ∷ ss) (a, h) =
      let (rest, len) = map-Fits ls ss h in
      ((fed_with-Fits (matching s.filter ls) s a, rest), ap suc len)

  unsubscribed-Fits :
      (id : ℕ) (ss : List (Subscription A))
      → All Fits ss
      → All Fits (unsubscribed id ss) × (length (unsubscribed id ss) ≤ length ss)
  unfolding unsubscribed
  unsubscribed-Fits id [] h = (tt, omega arith)
  unsubscribed-Fits id (s ∷ ss) (a, h) =
      let (rest, len) = unsubscribed-Fits id ss h in
      elim (Bool-cases (s.id == id)) [
        | inl here ↦ rw here (rest, omega (arith, len))
        | inr there ↦ rw there ((a, rest), omega (arith, len))
      ]

  subscribe_full :
      (h : Hub A) (id : ℕ) (f : A → Bool) (buffer : ℤ)
      → leb h.max_subs (length h.subs) ≡ true
      → subscribe h id f buffer ≡ none
  unfolding subscribe
  subscribe_full h id f buffer e = rw e refl

  subscribe_room :
      (h : Hub A) (id : ℕ) (f : A → Bool) (buffer : ℤ)
      → leb h.max_subs (length h.subs) ≡ false
      → (s : Subscription A) × (subscribe h id f buffer ≡ some (record h { subs = s ∷ h.subs }))
        × Fits s
  unfolding subscribe
  subscribe_room h id f buffer e =
      let s : Subscription A = record {
        id = id;
        channel = [];
        capacity = if leb_ℤ buffer (pos 0) then default_buffer else pos_part buffer;
        filter = f;
        dropped = 0;
        taken = 0;
      } in
      (s, rw e refl, record { in_capacity = omega arith; in_dropped = omega arith })

  subscribe-IsBounded :
      (h h' : Hub A) (id : ℕ) (f : A → Bool) (buffer : ℤ)
      → IsBounded h
      → subscribe h id f buffer ≡ some h'
      → IsBounded h'
  subscribe-IsBounded h h' id f buffer b e = elim (Bool-cases (leb h.max_subs (length h.subs))) [
    | inl full ↦
        let bad : none ≡ some h' = sym (subscribe_full h id f buffer full) ∙ e in absurd (cc)
    | inr free ↦
        let (s, found, fits) = subscribe_room h id f buffer free in
        let it : some (record h { subs = s ∷ h.subs }) ≡ some h' = sym found ∙ e in
        let this : record h { subs = s ∷ h.subs } ≡ h' = cc in
        subst IsBounded this (record { few = ground (arith, free); each = (fits, b.each) })
  ]

  publish-max_subs : (h : Hub A) (ls : List A) → (publish h ls).max_subs ≡ h.max_subs
  unfolding publish
  publish-max_subs h ls = elim (Bool-cases (length h.subs == 0)) [
    | inl idle ↦ rw idle refl
    | inr busy ↦ rw busy refl
  ]

  changed-IsBounded :
      (h : Hub A) (ss : List (Subscription A))
      → IsBounded h
      → All Fits ss
      → length ss ≤ length h.subs
      → IsBounded (record h { subs = ss })
  changed-IsBounded h ss b a l = let few = b.few in record { few = omega (arith, few, l); each = a }

  -- Whatever calls are made, a hub never has more subscriptions than it allows, no channel holds
  -- more than its capacity, and no subscription has reported more drops than it counted.
  pub Reach-IsBounded : {h : Hub A} → Reach h → IsBounded h
  unfolding new_hub close
  Reach-IsBounded (created n) = record { few = omega arith; each = tt }
  Reach-IsBounded (subscribed {h} {h'} id f buffer r e) =
      subscribe-IsBounded h h' id f buffer (Reach-IsBounded r) e
  Reach-IsBounded (closed {h} id r) =
      let b = Reach-IsBounded r in
      let (a, l) = unsubscribed-Fits id h.subs b.each in
      changed-IsBounded h (unsubscribed id h.subs) b a l
  Reach-IsBounded (published {h} ls r) =
      let b = Reach-IsBounded r in
      let (a, l) = map-Fits ls h.subs b.each in
      let few = b.few in
      let subs = publish-fed h ls in
      record {
        few = omega (arith, few, l, ap length subs, publish-max_subs h ls);
        each = subst (All Fits) (sym subs) a;
      }
  Reach-IsBounded (read {h} id r) =
      let b = Reach-IsBounded r in
      let (a, l) = on_sub-Fits id received received-Fits h.subs b.each in
      changed-IsBounded h (on_sub id received h.subs) b a (omega (arith, l))
  Reach-IsBounded (asked {h} id r) =
      let b = Reach-IsBounded r in
      let (a, l) = on_sub-Fits id reported reported-Fits h.subs b.each in
      changed-IsBounded h (on_sub id reported h.subs) b a (omega (arith, l))
