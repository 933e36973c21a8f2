-- ===== src/LogHub/Tests.antt =====
-- A hub of two tails over numbers: one wants all of them and holds two, one wants those below 5.
use ozymandias.Base.{ℕ, ◌≡◌, refl, none, some, List, [], ◌∷◌, map, true, ltb}
use ozymandias.Base.Int.{pos}
use ozymandias.LogHub.{
  Subscription, Hub, new_hub, subscribe, unsubscribed, close, has_room, offer, offer_all,
  publish_all, publish,
}
use ozymandias.LogHub.Feed.{fed, publish-fed}
use ozymandias.LogHub.Bounded.{created, subscribed, published, IsBounded, Reach-IsBounded}

abbrev everything : Subscription ℕ
everything = record {
  id = 1;
  channel = [];
  capacity = 2;
  filter = λ n. true;
  dropped = 0;
  taken = 0;
}

abbrev small_ones : Subscription ℕ
small_ones = record {
  id = 2;
  channel = [];
  capacity = 9;
  filter = λ n. ltb n 5;
  dropped = 0;
  taken = 0;
}

abbrev two_tails : Hub ℕ
two_tails = record {
  subs = everything ∷ small_ones ∷ [];
  max_subs = 2;
  published = 0;
  delivered = 0;
  hub_dropped = 0;
}

abbrev some_logs : List ℕ
some_logs = 3 ∷ 8 ∷ 4 ∷ []

published_logs : publish two_tails some_logs ≡ record {
  subs =
      record everything { channel = 3 ∷ 8 ∷ []; dropped = 1 }
      ∷ record small_ones { channel = 3 ∷ 4 ∷ [] }
      ∷ [];
  max_subs = 2;
  published = 3;
  delivered = 4;
  hub_dropped = 1;
}
unfolding has_room offer offer_all publish_all publish
published_logs = refl

-- A third tail finds no place, and one of the two that closes makes place.
full_hub : subscribe two_tails 3 (λ n. true) (pos 5) ≡ none
unfolding subscribe
full_hub = refl

closed_one : (close two_tails 1).subs ≡ small_ones ∷ []
unfolding close unsubscribed
closed_one = refl

publish-fed_example : (publish two_tails some_logs).subs ≡ map (fed some_logs) two_tails.subs
publish-fed_example = publish-fed two_tails some_logs

abbrev tail_hub : Hub ℕ
tail_hub = record {
  subs = everything ∷ [];
  max_subs = 64;
  published = 0;
  delivered = 0;
  hub_dropped = 0;
}

tail_hub_made : subscribe (new_hub (pos 0)) 1 (λ (n : ℕ). true) (pos 2) ≡ some tail_hub
unfolding new_hub subscribe
tail_hub_made = refl

Reach-IsBounded_example : IsBounded (publish tail_hub some_logs)
Reach-IsBounded_example =
    Reach-IsBounded
      (published some_logs (subscribed 1 (λ (n : ℕ). true) (pos 2) (created (pos 0)) tail_hub_made))
