-- ===== src/Monitor/Advance/Count.antt =====
-- Which groups an evaluation steps, and how often.
use ozymandias.Base.{
  ℕ, ◌+◌, ◌≡◌, refl, inl, inr, Bool, true, false, not, ◌&&◌, ◌||◌, Option, none, some, List, [],
  ◌∷◌, ◌++◌, if◌then◌else◌, arith, Option-cases,
}
use ozymandias.Base.Bytes.{Bytes, bytes_eq, bytes_eq_iff}
use ozymandias.Monitor.Advance.{
  Value, GroupStep, Evaluation, States, Tracked, lookup, absent, valued, unskipped, all_values,
  seen, unseen_keys, insert_key, sort_keys, one_absent, all_absent, advance,
}

abbrev pub one_if : Bool → ℕ
one_if true = 1
one_if false = 0

-- How many steps are about the group of a key.
abbrev pub tally : Bytes → List GroupStep → ℕ
tally k [] = 0
tally k (s ∷ ss) = one_if (bytes_eq s.key k) + tally k ss

abbrev pub tally_keys : Bytes → List Bytes → ℕ
tally_keys k [] = 0
tally_keys k (j ∷ js) = one_if (bytes_eq j k) + tally_keys k js

abbrev pub is_known : Bytes → States → Bool
is_known k [] = false
is_known k ((j, t) ∷ m) = bytes_eq j k || is_known k m

-- The keys of the values are distinct, and so are those of a map.
abbrev pub DistinctValues : List Value → Type 0
DistinctValues [] = Unit {0}
DistinctValues (v ∷ vs) = (seen v.key vs ≡ false) × DistinctValues vs

abbrev pub DistinctKeys : States → Type 0
DistinctKeys [] = Unit {0}
DistinctKeys ((k, t) ∷ m) = (is_known k m ≡ false) × DistinctKeys m

-- What is owed to a key: one step if it has a value, or if it is known and was not skipped.
abbrev pub owed : Bytes → Bool → List Value → ℕ
owed k known [] = one_if known
owed k known (v ∷ vs) =
    if bytes_eq v.key k then one_if (not v.skipped && (v.present || known)) else owed k known vs

tally-append : (k : Bytes) (xs ys : List GroupStep) → tally k (xs ++ ys) ≡ tally k xs + tally k ys
tally-append k [] ys = omega arith
tally-append k (x ∷ xs) ys = omega (arith, tally-append k xs ys)

key-absent :
    (k : Bytes) (v : List (Bytes × Bytes)) (e : Evaluation) (t : Tracked)
    → (absent k v t.state e).key ≡ k
unfolding absent
key-absent k v e t = ground arith

abbrev is_found : Option Tracked → Bool
is_found none = false
is_found (some t) = true

is_known-eq-found : (k : Bytes) (m : States) → is_known k m ≡ is_found (lookup k m)
unfolding lookup
is_known-eq-found k [] = refl
is_known-eq-found k ((j, t) ∷ m) = ground (arith, is_known-eq-found k m)

-- One value makes at most one step, which is about its own key.
tally-unskipped :
    (k : Bytes) (o : Option Tracked) (e : Evaluation) (v : Value) (rest : List GroupStep)
    → tally k
        (elim (if v.skipped then none else unskipped o v e) [ none ↦ rest | some s ↦ s ∷ rest ])
      ≡ (if bytes_eq v.key k then one_if (not v.skipped && (v.present || is_found o)) else 0)
        + tally k rest
unfolding unskipped valued
tally-unskipped k none e v rest = ground arith
tally-unskipped k (some t) e v rest = ground (arith, key-absent v.key v.group e t)

tally-all_values :
    (k : Bytes) (m : States) (e : Evaluation) (v : Value) (vs : List Value)
    → tally k (all_values m e (v ∷ vs))
      ≡ (if bytes_eq v.key k then one_if (not v.skipped && (v.present || is_known v.key m)) else 0)
        + tally k (all_values m e vs)
unfolding all_values
tally-all_values k m e v vs =
    rw (is_known-eq-found v.key m) (tally-unskipped k (lookup v.key m) e v (all_values m e vs))

-- A key that no value has gets no step from the first loop, and any other what it is owed.
tally_values-unseen :
    (k : Bytes) (m : States) (e : Evaluation) (vs : List Value)
    → seen k vs ≡ false
    → tally k (all_values m e vs) ≡ 0
unfolding seen
tally_values-unseen k m e [] h = unfold all_values in refl
tally_values-unseen k m e (v ∷ vs) h =
    ground (arith, tally-all_values k m e v vs, tally_values-unseen k m e vs)

same_key : (a b : Bytes) → bytes_eq a b ≡ true → a ≡ b
same_key a b h = (bytes_eq_iff a b).0 h

tally_values-seen :
    (k : Bytes) (m : States) (e : Evaluation) (vs : List Value)
    → DistinctValues vs
    → seen k vs ≡ true
    → tally k (all_values m e vs) ≡ owed k (is_known k m) vs
unfolding seen
tally_values-seen k m e [] d h = cc
tally_values-seen k m e (v ∷ vs) d h = ground (
  arith,
  same_key v.key k,
  tally-all_values k m e v vs,
  tally_values-unseen v.key m e vs,
  tally_values-seen k m e vs,
)

tally-insert_key :
    (k j : Bytes) (js : List Bytes) → tally_keys k (insert_key j js) ≡ tally_keys k (j ∷ js)
unfolding insert_key
tally-insert_key k j [] = refl
tally-insert_key k j (i ∷ js) = ground (arith, tally-insert_key k j js)

tally-sort_keys : (k : Bytes) (js : List Bytes) → tally_keys k (sort_keys js) ≡ tally_keys k js
unfolding sort_keys
tally-sort_keys k [] = refl
tally-sort_keys k (j ∷ js) =
    omega (arith, tally-insert_key k j (sort_keys js), tally-sort_keys k js)

-- A key of the map that no value has is met once by the second loop.
tally-unseen_keys_unknown :
    (k : Bytes) (m : States) (vs : List Value)
    → is_known k m ≡ false
    → tally_keys k (unseen_keys m vs) ≡ 0
unfolding unseen_keys
tally-unseen_keys_unknown k [] vs h = refl
tally-unseen_keys_unknown k ((j, t) ∷ m) vs h = ground (arith, tally-unseen_keys_unknown k m vs)

tally-unseen_keys :
    (k : Bytes) (m : States) (vs : List Value)
    → DistinctKeys m
    → tally_keys k (unseen_keys m vs) ≡ one_if (not (seen k vs) && is_known k m)
unfolding unseen_keys
tally-unseen_keys k [] vs d = ground arith
tally-unseen_keys k ((j, t) ∷ m) vs d =
    ground (arith, same_key j k, tally-unseen_keys_unknown j m vs, tally-unseen_keys k m vs)

tally-one_absent :
    (k j : Bytes) (m : States) (e : Evaluation)
    → tally k (one_absent m e j) ≡ one_if (bytes_eq j k && is_known j m)
unfolding one_absent
tally-one_absent k j m e = elim (Option-cases (lookup j m)) [
  | inl h ↦ ground (arith, h, is_known-eq-found j m)
  | inr (t, h) ↦ ground (arith, h, is_known-eq-found j m, key-absent j t.group e t)
]

tally-all_absent :
    (k : Bytes) (js : List Bytes) (m : States) (e : Evaluation)
    → tally k (all_absent m e js) ≡ (if is_known k m then tally_keys k js else 0)
unfolding all_absent
tally-all_absent k [] m e = ground arith
tally-all_absent k (j ∷ js) m e = ground (
  arith,
  same_key j k,
  tally-append k (one_absent m e j) (all_absent m e js),
  tally-one_absent k j m e,
  tally-all_absent k js m e,
)

owed-unseen :
    (k : Bytes) (known : Bool) (vs : List Value)
    → seen k vs ≡ false
    → owed k known vs ≡ one_if known
unfolding seen
owed-unseen k known [] h = refl
owed-unseen k known (v ∷ vs) h = ground (arith, owed-unseen k known vs)

-- Where the keys of the values and of the map are distinct, every group gets exactly the steps that
-- it is owed: one if it has a value, one if it is known and its value is absent or missing, and none
-- if it was skipped, or is unknown and has no value.
pub tally-advance :
    (k : Bytes) (m : States) (vs : List Value) (e : Evaluation)
    → DistinctKeys m
    → DistinctValues vs
    → tally k (advance m vs e) ≡ owed k (is_known k m) vs
unfolding advance
tally-advance k m vs e dm dv = ground (
  arith,
  tally-append k (all_values m e vs) (all_absent m e (sort_keys (unseen_keys m vs))),
  tally-all_absent k (sort_keys (unseen_keys m vs)) m e,
  tally-sort_keys k (unseen_keys m vs),
  tally-unseen_keys k m vs dm,
  tally_values-unseen k m e vs,
  tally_values-seen k m e vs dv,
  owed-unseen k (is_known k m) vs,
)
