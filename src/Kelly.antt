-- ===== src/Kelly.antt =====
-- src/trade_risk_engine/kelly.py
pub mod Bounds
pub mod Fraction
use verdict_risk.Prelude.{if◌then◌else◌, String, not, ◌&&◌, ◌||◌, [], ◌∷◌}
use verdict_risk.Py.Except.{Result, ◌>>=◌, ◌>>◌, value_error, ok, err}
use verdict_risk.Py.Float.{
  Float, is_nan, is_inf, lt, le, sub, mul, div, py_min, py_max, zero_float, one_float,
}
use verdict_risk.Py.Format.{join, repr}

-- One round of the loop over `p_win` and `price`: 0.0 is returned early, or an exception is raised,
-- or the loop goes on.
unfoldable pub require_probability : String → Float → Result Float → Result Float
require_probability name value next =
    if is_nan value || is_inf value
    then ok zero_float
    else if not (lt zero_float value && lt value one_float)
    then err (value_error (join (name ∷ " must be in (0, 1), got " ∷ repr value ∷ [])))
    else next

-- From a positive edge on.
unfoldable pub scale_stake : Float → Float → Float → Result Float
scale_stake edge b conservative_fraction = do
  f_star ← div edge b
  let fraction = mul f_star conservative_fraction
  ok (py_max zero_float (py_min one_float fraction))

-- From the two probabilities on.
unfoldable pub kelly_stake : Float → Float → Float → Result Float
kelly_stake p_win price conservative_fraction = do
  let p_loss = sub one_float p_win
  b ← div (sub one_float price) price
  let edge = sub (mul p_win b) p_loss
  (if le edge zero_float then ok zero_float else scale_stake edge b conservative_fraction)

unfoldable pub kelly_fraction : Float → Float → Float → Result Float
kelly_fraction p_win price conservative_fraction =
    if not (lt zero_float conservative_fraction && le conservative_fraction one_float)
    then err (
        value_error (
          join ("conservative_fraction must be in (0, 1], got " ∷ repr conservative_fraction ∷ [])))
    else require_probability "p_win" p_win
        (require_probability "price" price (kelly_stake p_win price conservative_fraction))
