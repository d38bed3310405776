-- ===== src/Provider/Boundary.antt =====
-- Which arguments make a request.

use verdict_risk.Py.Except.Ensures.{ok_of_bind, require-ok, ok_injective}
use verdict_risk.Prelude.{pos, ℕ, ◌^◌, ◌≤◌, String, ◌≡◌, refl, subst, ◌↔◌, Bool}
use verdict_risk.Py.Except.{require, overflow_error, err, ok}
use verdict_risk.Py.Number.{to_float_huge, int}
use verdict_risk.Provider.Request.{
  as_position, as_trade_outcome, as_optional_datetime, as_optional_mapping, require_finite,
  require_identifier, require_tuple_of, RequestArguments, RiskProviderRequest, request_init, number,
  position, trade_outcome,
}
use verdict_risk.Provider.Arguments.{
  IsReal, IsIdentifier, IsTupleOf, IsOptionalDatetime, IsOptionalMapping,
  as_optional_datetime_cases, as_optional_mapping_cases, require_finite-ok, require_identifier-ok,
  require_positions-ok, require_trade_outcomes-ok,
}

-- What the arguments are if they describe the request.
abbrev pub Describes : (String → Bool) → RequestArguments → RiskProviderRequest → Type 0
Describes is_blank args r =
    IsIdentifier is_blank args.run_id r.run_id
    × IsIdentifier is_blank args.target_family r.target_family
    × IsReal args.daily_realized_pnl r.daily_realized_pnl
    × IsReal args.equity r.equity
    × IsReal args.proposed_cost r.proposed_cost
    × IsReal args.expected_value r.expected_value
    × IsTupleOf position args.open_positions r.open_positions
    × IsTupleOf trade_outcome args.trade_outcomes r.trade_outcomes
    × IsOptionalDatetime args.current_time r.current_time
    × IsOptionalMapping args.advisory r.advisory

-- Construction gives a request exactly when each argument is a value of its type, and the field is
-- what it holds: a string that is not blank, an int or a float, and no bool, whose double is
-- finite, a list or a tuple of nothing but positions or trade outcomes, a datetime or None, and a
-- mapping or None.
pub request_init_iff :
    (is_blank : String → Bool) (args : RequestArguments) (r : RiskProviderRequest)
    → (request_init is_blank args ≡ ok r) ↔ Describes is_blank args r
unfolding request_init
request_init_iff is_blank args r = (
  λ h.
      let (a, ea, h) = ok_of_bind (require_identifier is_blank "run_id" args.run_id) _ r h in
      let (b, eb, h) =
        ok_of_bind (require_identifier is_blank "target_family" args.target_family) _ r h in
      let (c, ec, h) =
        ok_of_bind (require_finite "daily_realized_pnl" args.daily_realized_pnl) _ r h in
      let (d, ed, h) = ok_of_bind (require_finite "equity" args.equity) _ r h in
      let (e, ee, h) = ok_of_bind (require_finite "proposed_cost" args.proposed_cost) _ r h in
      let (f, ef, h) = ok_of_bind (require_finite "expected_value" args.expected_value) _ r h in
      let (g, eg, h) =
        ok_of_bind (require_tuple_of as_position "Position" "open_positions" args.open_positions) _
          r h in
      let (i, ei, h) =
        ok_of_bind
          (require_tuple_of as_trade_outcome "TradeOutcome" "trade_outcomes" args.trade_outcomes) _
          r h in
      let (j, ej, h) = ok_of_bind (require (as_optional_datetime args.current_time) _) _ r h in
      let (k, ek, h) = ok_of_bind (require (as_optional_mapping args.advisory) _) _ r h in
      subst (Describes is_blank args) (ok_injective _ r h) (
        (require_identifier-ok is_blank "run_id" args.run_id a).0 ea,
        (require_identifier-ok is_blank "target_family" args.target_family b).0 eb,
        (require_finite-ok "daily_realized_pnl" args.daily_realized_pnl c).0 ec,
        (require_finite-ok "equity" args.equity d).0 ed,
        (require_finite-ok "proposed_cost" args.proposed_cost e).0 ee,
        (require_finite-ok "expected_value" args.expected_value f).0 ef,
        (require_positions-ok args.open_positions g).0 eg,
        (require_trade_outcomes-ok args.trade_outcomes i).0 ei,
        (as_optional_datetime_cases args.current_time j).0
            ((require-ok (as_optional_datetime args.current_time) _ j).0 ej),
        (as_optional_mapping_cases args.advisory k).0
            ((require-ok (as_optional_mapping args.advisory) _ k).0 ek),
      ),
  λ (a, b, c, d, e, f, g, i, j, k).
      rw
        (
          (require_identifier-ok is_blank "run_id" args.run_id r.run_id).1 a,
          (require_identifier-ok is_blank "target_family" args.target_family r.target_family).1 b,
          (require_finite-ok "daily_realized_pnl" args.daily_realized_pnl r.daily_realized_pnl).1 c,
          (require_finite-ok "equity" args.equity r.equity).1 d,
          (require_finite-ok "proposed_cost" args.proposed_cost r.proposed_cost).1 e,
          (require_finite-ok "expected_value" args.expected_value r.expected_value).1 f,
          (require_positions-ok args.open_positions r.open_positions).1 g,
          (require_trade_outcomes-ok args.trade_outcomes r.trade_outcomes).1 i,
          (as_optional_datetime_cases args.current_time r.current_time).1 j,
          (as_optional_mapping_cases args.advisory r.advisory).1 k,
        )
        refl,
)

-- An int of at least 2^1024 in a field for a number raises OverflowError, which names no field,
-- and no RiskProviderError.
pub require_finite_huge :
    (name : String) (n : ℕ)
    → 2 ^ 1024 ≤ n
    → require_finite name (number (int (pos n)))
      ≡ err (overflow_error "int too large to convert to float")
unfolding require_finite
require_finite_huge name n h = rw (to_float_huge n h) refl
