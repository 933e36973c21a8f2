-- ===== src/LogHub.antt =====
-- internal/loghub/hub.go: published logs are offered to the subscribers whose filter matches. A log
-- is any value, and a compiled filter a function. A channel is the list of what it holds; the
-- hub's set of subscriptions is a list, each with the number that stands for its pointer. The lock
-- makes every call one step.
pub mod Feed
pub mod Bounded
mod Tests
use ozymandias.Base.{
  ℕ, zero, suc, ◌+◌, ◌-◌, Bool, true, false, not, Option, none, some, List, [], ◌∷◌, ◌++◌, length,
  if◌then◌else◌, ltb, leb, ◌==◌,
}
use ozymandias.Base.Int.{ℤ, pos, pos_part, leb_ℤ}

abbrev pub default_buffer : ℕ
default_buffer = 1000

abbrev pub max_subscribers : ℕ
max_subscribers = 64

pub record Subscription {ℓ} (A : Type ℓ) : Type ℓ where
  pub id : ℕ
  pub channel : List A
  pub capacity : ℕ
  pub filter : A → Bool
  pub dropped : ℕ
  pub taken : ℕ

pub record Hub {ℓ} (A : Type ℓ) : Type ℓ where
  pub subs : List (Subscription A)
  pub max_subs : ℕ
  pub published : ℕ
  pub delivered : ℕ
  pub hub_dropped : ℕ

module _ {ℓ} {A : Type ℓ} where
  unfoldable pub new_hub : ℤ → Hub A
  new_hub n = record {
    subs = [];
    max_subs = if leb_ℤ n (pos 0) then max_subscribers else pos_part n;
    published = 0;
    delivered = 0;
    hub_dropped = 0;
  }

  -- `Subscribe`; `none` where the hub is full.
  unfoldable pub subscribe : Hub A → ℕ → (A → Bool) → ℤ → Option (Hub A)
  subscribe h id f buffer =
      let s : Subscription A = record {
        id = id;
        channel = [];
        capacity = if leb_ℤ buffer (pos 0) then default_buffer else pos_part buffer;
        filter = f;
        dropped = 0;
        taken = 0;
      } in
      if leb h.max_subs (length h.subs) then none else some (record h { subs = s ∷ h.subs })

  unfoldable pub unsubscribed : ℕ → List (Subscription A) → List (Subscription A)
  unsubscribed id [] = []
  unsubscribed id (s ∷ ss) = let rest = unsubscribed id ss in if s.id == id then rest else s ∷ rest

  unfoldable pub close : Hub A → ℕ → Hub A
  close h id = record h { subs = unsubscribed id h.subs }

  -- `TakeDropped`: the count, and the subscription after it.
  unfoldable pub take_dropped : Subscription A → ℕ × Subscription A
  take_dropped s = (s.dropped - s.taken, record s { taken = s.dropped })

  -- A reader takes the oldest log of the channel.
  unfoldable pub receive : Subscription A → Option (A × Subscription A)
  receive s = elim s.channel [ [] ↦ none | x ∷ xs ↦ some (x, record s { channel = xs }) ]

  unfoldable pub has_room : Subscription A → Bool
  has_room s = ltb (length s.channel) s.capacity

  -- One round of the inner loop of `Publish`.
  unfoldable pub offer : A → Subscription A → Subscription A
  offer l s =
      if not (s.filter l)
      then s
      else if has_room s
      then record s { channel = s.channel ++ l ∷ [] }
      else record s { dropped = s.dropped + 1 }

  -- The inner loop, with the hub's counters.
  unfoldable pub offer_all : A → List (Subscription A) → ℕ → ℕ → List (Subscription A) × ℕ × ℕ
  offer_all l [] del drp = ([], del, drp)
  offer_all l (s ∷ ss) del drp =
      let del' = if s.filter l then (if has_room s then del + 1 else del) else del in
      let drp' = if s.filter l then (if has_room s then drp else drp + 1) else drp in
      let (rest, d, p) = offer_all l ss del' drp' in (offer l s ∷ rest, d, p)

  -- The outer loop.
  unfoldable pub publish_all :
      List A → List (Subscription A) → ℕ → ℕ → List (Subscription A) × ℕ × ℕ
  publish_all [] ss del drp = (ss, del, drp)
  publish_all (l ∷ ls) ss del drp =
      let (ss', d, p) = offer_all l ss del drp in publish_all ls ss' d p

  unfoldable pub publish : Hub A → List A → Hub A
  publish h ls =
      let (ss, d, p) = publish_all ls h.subs h.delivered h.hub_dropped in
      if length h.subs == 0 then record h { published = h.published + length ls } else record h {
        subs = ss;
        published = h.published + length ls;
        delivered = d;
        hub_dropped = p;
      }
