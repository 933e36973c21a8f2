-- ===== src/Monitor/Advance/Forgotten.antt =====
-- Which groups an evaluation forgets.
use ozymandias.Base.{
  ◌+◌, ◌≤◌, ◌≡◌, ◌≢◌, true, false, not, Option, none, some, List, [], ◌∷◌, ◌++◌, All, if◌then◌else◌,
  arith, Bool,
}
use ozymandias.Base.Bytes.{Bytes}
use ozymandias.Monitor.State.{Group, notify_none, sub_time}
use ozymandias.Monitor.Advance.{
  Tags, group_ttl, Value, GroupStep, Evaluation, States, Tracked, lookup, absent, valued, unskipped,
  one_value, all_values, unseen_keys, sort_keys, one_absent, all_absent, advance,
}

-- What a forgotten group guarantees.
pub record IsForgotten (s : GroupStep) (e : Evaluation) : Type 0 where
  pub unchanged : s.next ≡ s.prev
  pub had_data : s.prev.last_data ≢ 0
  pub aged : s.prev.last_data + group_ttl ≤ e.window_end
  pub untold : s.res.notify ≡ notify_none

IsForgotten-absent :
    (k : Bytes) (g : Tags) (prev : Group) (e : Evaluation)
    → (absent k g prev e).deleted ≡ true
    → IsForgotten (absent k g prev e) e
unfolding absent sub_time
IsForgotten-absent k g prev e h = ground arith

abbrev pub ForgetsOld : Evaluation → GroupStep → Type 0
ForgetsOld e s = s.deleted ≡ true → IsForgotten s e

ForgetsOld-valued : (v : Value) (prev : Group) (e : Evaluation) → ForgetsOld e (valued v prev e)
unfolding valued
ForgetsOld-valued v prev e h = absurd (cc)

-- What holds of every step that a loop may add holds of the list with it.
All-optional :
    (e : Evaluation) (o : Option GroupStep) (rest : List GroupStep)
    → All (ForgetsOld e) (elim o [ none ↦ [] | some s ↦ s ∷ [] ])
    → All (ForgetsOld e) rest
    → All (ForgetsOld e) (elim o [ none ↦ rest | some s ↦ s ∷ rest ])
All-optional e none rest h hs = hs
All-optional e (some s) rest h hs = (h.0, hs)

All-append :
    (e : Evaluation) (xs ys : List GroupStep)
    → All (ForgetsOld e) xs
    → All (ForgetsOld e) ys
    → All (ForgetsOld e) (xs ++ ys)
All-append e [] ys hx hy = hy
All-append e (x ∷ xs) ys hx hy = (hx.0, All-append e xs ys hx.1 hy)

abbrev Forgets : Evaluation → Option GroupStep → Type 0
Forgets e o = All (ForgetsOld e) (elim o [ none ↦ [] | some s ↦ s ∷ [] ])

Forgets-if :
    (e : Evaluation) (b : Bool) (x y : Option GroupStep)
    → Forgets e x
    → Forgets e y
    → Forgets e (if b then x else y)
Forgets-if e true x y hx hy = hx
Forgets-if e false x y hx hy = hy

Forgets-unskipped : (o : Option Tracked) (v : Value) (e : Evaluation) → Forgets e (unskipped o v e)
unfolding unskipped
Forgets-unskipped none v e = Forgets-if e (not v.present) none _ tt (ForgetsOld-valued v _ e, tt)
Forgets-unskipped (some t) v e =
    Forgets-if e (not v.present) _ _ (IsForgotten-absent v.key v.group t.state e, tt)
      (ForgetsOld-valued v t.state e, tt)

Forgets-one_value : (m : States) (v : Value) (e : Evaluation) → Forgets e (one_value m e v)
unfolding one_value
Forgets-one_value m v e = Forgets-if e v.skipped none _ tt (Forgets-unskipped (lookup v.key m) v e)

Forgets-all_values :
    (m : States) (e : Evaluation) (vs : List Value) → All (ForgetsOld e) (all_values m e vs)
unfolding all_values
Forgets-all_values m e [] = tt
Forgets-all_values m e (v ∷ vs) =
    All-optional e (one_value m e v) (all_values m e vs) (Forgets-one_value m v e)
      (Forgets-all_values m e vs)

Forgets-one_absent :
    (m : States) (e : Evaluation) (k : Bytes) → All (ForgetsOld e) (one_absent m e k)
unfolding one_absent
Forgets-one_absent m e k =
    elim (lookup k m)
      as (λ o.
        All (ForgetsOld e) (elim o [ none ↦ [] | some t ↦ absent k t.group t.state e ∷ [] ])) [
          | none ↦ tt
          | some t ↦ (IsForgotten-absent k t.group t.state e, tt)
        ]

Forgets-all_absent :
    (m : States) (e : Evaluation) (ks : List Bytes) → All (ForgetsOld e) (all_absent m e ks)
unfolding all_absent
Forgets-all_absent m e [] = tt
Forgets-all_absent m e (k ∷ ks) =
    All-append e (one_absent m e k) (all_absent m e ks) (Forgets-one_absent m e k)
      (Forgets-all_absent m e ks)

-- Every step of an evaluation that forgets its group leaves the state as it was, tells nobody, and
-- is of a group whose newest data is at least 24 hours older than the end of the window.
pub advance-ForgetsOld :
    (m : States) (vs : List Value) (e : Evaluation) → All (ForgetsOld e) (advance m vs e)
unfolding advance
advance-ForgetsOld m vs e =
    All-append e (all_values m e vs) (all_absent m e (sort_keys (unseen_keys m vs)))
      (Forgets-all_values m e vs) (Forgets-all_absent m e (sort_keys (unseen_keys m vs)))
