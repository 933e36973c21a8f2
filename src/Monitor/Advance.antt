-- ===== src/Monitor/Advance.antt =====
-- internal/monitor/advance.go: one evaluation's values applied to all groups of a monitor.
-- The map of states is an association list whose keys are distinct; `slices.Sort` on strings is an
-- insertion sort. A key and a group's tags are texts as bytes.
pub mod Count
pub mod Forgotten
use ozymandias.Base.{
  ℕ, ◌+◌, ◌*◌, ◌^◌, Bool, true, false, not, ◌&&◌, Option, none, some, List, [], ◌∷◌, ◌++◌, map,
  if◌then◌else◌, ◌==◌,
}
use ozymandias.Base.Int.{pos, leb_ℤ}
use ozymandias.Base.Float.{nan, float_zero}
use ozymandias.Base.Bytes.{Bytes, bytes_eq, bytes_le}
use ozymandias.Monitor.State.{Group, Observation, Config, Outcome, notify_none, new, step, sub_time}

abbrev pub Tags : Type 0
Tags = List (Bytes × Bytes)

-- 24 hours in nanoseconds.
abbrev pub group_ttl : ℕ
group_ttl = 24 * 3600 * 10 ^ 9

pub record Tracked : Type 0 where
  pub state : Group
  pub group : Tags

-- `eval.Value`
pub record Value : Type 0 where
  pub key : Bytes
  pub group : Tags
  pub present : Bool
  pub skipped : Bool
  pub value : ℕ
  pub data_ts : ℕ

pub record GroupStep : Type 0 where
  pub key : Bytes
  pub group : Tags
  pub prev : Group
  pub next : Group
  pub res : Outcome
  pub value : ℕ
  pub deleted : Bool

-- What one evaluation hands to every group.
pub record Evaluation : Type 0 where
  pub config : Config
  pub absent_is_zero : Bool
  pub now : ℕ
  pub window_end : ℕ

abbrev pub States : Type 0
States = List (Bytes × Tracked)

unfoldable pub lookup : Bytes → States → Option Tracked
lookup k [] = none
lookup k ((j, t) ∷ m) = if bytes_eq j k then some t else lookup k m

unfoldable pub absent : Bytes → Tags → Group → Evaluation → GroupStep
absent key g prev e =
    let zero_value : Observation = record {
      now = e.now;
      window_end = e.window_end;
      present = e.absent_is_zero;
      value = float_zero;
      data_ts = 0;
    } in
    let (next, res) = step prev zero_value e.config in
    if not (prev.last_data == 0) && leb_ℤ (pos group_ttl) (sub_time e.window_end prev.last_data)
    then record {
      key = key;
      group = g;
      prev = prev;
      next = prev;
      res = record { from_status = prev.status; to_status = prev.status; notify = notify_none };
      value = nan;
      deleted = true;
    }
    else record {
      key = key;
      group = g;
      prev = prev;
      next = next;
      res = res;
      value = if e.absent_is_zero then float_zero else nan;
      deleted = false;
    }

-- The end of the first loop's body: a value that is there, over the state to step from.
unfoldable pub valued : Value → Group → Evaluation → GroupStep
valued v prev e =
    let obs : Observation = record {
      now = e.now;
      window_end = e.window_end;
      present = true;
      value = v.value;
      data_ts = v.data_ts;
    } in
    let (next, res) = step prev obs e.config in
    record {
      key = v.key;
      group = v.group;
      prev = prev;
      next = next;
      res = res;
      value = v.value;
      deleted = false;
    }

-- The first loop's body after the skip.
unfoldable pub unskipped : Option Tracked → Value → Evaluation → Option GroupStep
unskipped none v e = if not v.present then none else some (valued v (new e.now) e)
unskipped (some t) v e =
    if not v.present then some (absent v.key v.group t.state e) else some (valued v t.state e)

unfoldable pub one_value : States → Evaluation → Value → Option GroupStep
unfolding lookup unskipped
one_value states e v = if v.skipped then none else unskipped (lookup v.key states) v e

unfoldable pub all_values : States → Evaluation → List Value → List GroupStep
unfolding one_value
all_values states e [] = []
all_values states e (v ∷ vs) = elim (one_value states e v) [
  | none ↦ all_values states e vs
  | some s ↦ s ∷ all_values states e vs
]

unfoldable pub seen : Bytes → List Value → Bool
seen k [] = false
seen k (v ∷ vs) = if bytes_eq v.key k then true else seen k vs

unfoldable pub unseen_keys : States → List Value → List Bytes
unfolding seen
unseen_keys [] vals = []
unseen_keys ((k, t) ∷ m) vals =
    let rest = unseen_keys m vals in if seen k vals then rest else k ∷ rest

unfoldable pub insert_key : Bytes → List Bytes → List Bytes
insert_key k [] = k ∷ []
insert_key k (j ∷ js) = if bytes_le k j then k ∷ j ∷ js else j ∷ insert_key k js

unfoldable pub sort_keys : List Bytes → List Bytes
unfolding insert_key
sort_keys [] = []
sort_keys (k ∷ ks) = insert_key k (sort_keys ks)

-- The second loop's body; every key it meets is one of `states`.
unfoldable pub one_absent : States → Evaluation → Bytes → List GroupStep
one_absent states e k = elim (lookup k states) [
  | none ↦ []
  | some t ↦ absent k t.group t.state e ∷ []
]

unfoldable pub all_absent : States → Evaluation → List Bytes → List GroupStep
unfolding one_absent
all_absent states e [] = []
all_absent states e (k ∷ ks) = one_absent states e k ++ all_absent states e ks

unfoldable pub advance : States → List Value → Evaluation → List GroupStep
advance states vals e =
    all_values states e vals ++ all_absent states e (sort_keys (unseen_keys states vals))
