-- ===== src/Monitor/Levels.antt =====
-- internal/monitor/spec: the comparison of a monitor's query, and the thresholds with their defaults.
-- A float64 is its bit pattern.
pub mod Order
use ozymandias.Base.{ℕ, Bool, true, false, not, ◌&&◌, ◌||◌, Option, none, some}
use ozymandias.Base.{if◌then◌else◌, ltb, ◌*◌, ◌^◌}
use ozymandias.Base.Float.{is_nan, magnitude, flt, fle, feq}

pub data Op : Type 0 where
  op_gt op_ge op_lt op_le op_eq op_ne : Op

unfoldable pub compare : Op → ℕ → ℕ → Bool
unfolding flt fle feq
compare op_gt v t = flt t v
compare op_ge v t = fle t v
compare op_lt v t = flt v t
compare op_le v t = fle v t
compare op_eq v t = feq v t
compare op_ne v t = not (feq v t)

unfoldable pub above : Op → Bool
above op_gt = true
above op_ge = true
above _ = false

unfoldable pub below : Op → Bool
below op_lt = true
below op_le = true
below _ = false

pub record Levels : Type 0 where
  pub op : Op
  pub critical : ℕ
  pub critical_recovery : ℕ
  pub has_warning : Bool
  pub warning : ℕ
  pub warning_recovery : ℕ

unfoldable pub breach : Levels → ℕ → ℕ → Bool
breach l v level = compare l.op v level

-- The part of a parsed query that `levels` reads.
pub record Query : Type 0 where
  pub op : Op
  pub threshold : ℕ

pub record Thresholds : Type 0 where
  pub critical : Option ℕ
  pub warning : Option ℕ
  pub critical_recovery : Option ℕ
  pub warning_recovery : Option ℕ

abbrev pub is_some : Option ℕ → Bool
is_some none = false
is_some (some _) = true

abbrev pub or_else : Option ℕ → ℕ → ℕ
or_else none d = d
or_else (some x) d = x

-- The exponent is all ones: an infinity or NaN.
unfoldable pub not_finite : Option ℕ → Bool
not_finite none = false
not_finite (some b) = not (ltb (magnitude b) (2047 * 2 ^ 52))

-- `before(a, b)`: a is on the healthy side of b, or equal.
unfoldable pub before : Op → ℕ → ℕ → Bool
unfolding fle below
before op a b = if below op then fle b a else fle a b

-- The defaults that `levels` fills.
unfoldable pub filled : Query → Thresholds → Levels
filled q t = record {
  op = q.op;
  critical = q.threshold;
  critical_recovery = or_else t.critical_recovery q.threshold;
  has_warning = is_some t.warning;
  warning = or_else t.warning 0;
  warning_recovery = or_else t.warning_recovery (or_else t.warning 0);
}

-- The checks that are made whatever the direction: each `true` is one message of `bad`.
unfoldable pub bad_thresholds : Query → Thresholds → Bool
unfolding not_finite feq
bad_thresholds q t =
    not_finite t.critical
    || not_finite t.warning
    || not_finite t.critical_recovery
    || not_finite t.warning_recovery
    || is_some t.critical && not (feq (or_else t.critical 0) q.threshold)
    || is_some t.warning_recovery && not (is_some t.warning)

unfoldable pub bad_order : Levels → Bool
unfolding before feq
bad_order lv =
    lv.has_warning && (feq lv.warning lv.critical || not (before lv.op lv.warning lv.critical))
    || not (before lv.op lv.critical_recovery lv.critical)
    || lv.has_warning && not (before lv.op lv.warning_recovery lv.warning)

-- `none` where the joined error is not nil.
unfoldable pub levels : Query → Thresholds → Option Levels
levels q t =
    if bad_thresholds q t
    then none
    else if not (above q.op) && not (below q.op)
    then if is_some t.warning || is_some t.critical_recovery || is_some t.warning_recovery
      then none
      else some (filled q t)
    else if bad_order (filled q t)
    then none
    else some (filled q t)
