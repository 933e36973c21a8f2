-- ===== src/Monitor/Levels/Order.antt =====
-- What the checks of `levels` guarantee of the thresholds that pass them.
use ozymandias.Base.{ℕ, ◌≡◌, ◌⊎◌, inl, inr, true, false, some, arith}
use ozymandias.Monitor.Levels.{
  Op, Levels, Query, Thresholds, compare, breach, filled, bad_order, before, below, above, levels,
  is_some,
}

-- A value that is past `b` is past every level on the healthy side of `b`.
compare-before :
    (op : Op) (v a b : ℕ)
    → (above op ≡ true) ⊎ (below op ≡ true)
    → before op a b ≡ true
    → compare op v b ≡ true
    → compare op v a ≡ true
unfolding before compare above below
compare-before Op.op_gt v a b d h c = ground arith
compare-before Op.op_ge v a b d h c = ground arith
compare-before Op.op_lt v a b d h c = ground arith
compare-before Op.op_le v a b d h c = ground arith
compare-before Op.op_eq v a b d h c = ground arith
compare-before Op.op_ne v a b d h c = ground arith

-- The three levels that a breach implies, in the order in which a rising value meets them.
pub record IsOrdered (lv : Levels) : Type 0 where
  pub recovery : (v : ℕ) → breach lv v lv.critical ≡ true → breach lv v lv.critical_recovery ≡ true
  pub warned :
      (v : ℕ)
      → lv.has_warning ≡ true
      → breach lv v lv.critical ≡ true
      → breach lv v lv.warning ≡ true
  pub warning_recovery :
      (v : ℕ)
      → lv.has_warning ≡ true
      → breach lv v lv.warning ≡ true
      → breach lv v lv.warning_recovery ≡ true

directed-IsOrdered :
    (lv : Levels)
    → (above lv.op ≡ true) ⊎ (below lv.op ≡ true)
    → bad_order lv ≡ false
    → IsOrdered lv
unfolding bad_order breach
directed-IsOrdered lv d h = record {
  recovery = λ v c. compare-before lv.op v lv.critical_recovery lv.critical d (ground arith) c;
  warned = λ v w c. compare-before lv.op v lv.warning lv.critical d (ground arith) c;
  warning_recovery =
      λ v w c. compare-before lv.op v lv.warning_recovery lv.warning d (ground arith) c;
}

-- Either the thresholds passed the checks of a direction, or no level but the critical one is given.
level_cases :
    (q : Query) (t : Thresholds) {lv : Levels}
    → levels q t ≡ some lv
    → (lv ≡ filled q t)
      × ((((above q.op ≡ true) ⊎ (below q.op ≡ true)) × (bad_order (filled q t) ≡ false))
          ⊎ ((is_some t.critical_recovery ≡ false) × (is_some t.warning ≡ false)))
unfolding levels
level_cases q t h = ground arith

undirected-IsOrdered :
    (q : Query) (t : Thresholds)
    → is_some t.critical_recovery ≡ false
    → is_some t.warning ≡ false
    → IsOrdered (filled q t)
unfolding filled
undirected-IsOrdered q t r w = record {
  recovery = λ v c. ground arith;
  warned = λ v w' c. ground arith;
  warning_recovery = λ v w' c. ground arith;
}

filled-IsOrdered :
    (q : Query) (t : Thresholds)
    → ((above q.op ≡ true) ⊎ (below q.op ≡ true)) × (bad_order (filled q t) ≡ false)
    → IsOrdered (filled q t)
unfolding filled
filled-IsOrdered q t h = directed-IsOrdered (filled q t) h.0 h.1

-- Whenever `levels` accepts the thresholds, and for every value: one that breaches critical also
-- breaches critical_recovery, and also warning where there is a warning level; and then one that
-- breaches warning also breaches warning_recovery.
pub levels-IsOrdered :
    (q : Query) (t : Thresholds) {lv : Levels} → levels q t ≡ some lv → IsOrdered lv
levels-IsOrdered q t h =
    let (same, why) = level_cases q t h in
    rw same
      (elim why [ inl d ↦ filled-IsOrdered q t d | inr (r, w) ↦ undirected-IsOrdered q t r w ])
