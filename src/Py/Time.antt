-- ===== src/Py/Time.antt =====
-- `datetime` and `timedelta` in microseconds. A datetime counts them from `datetime.min` on its own
-- wall clock; an aware one has a `tzinfo` whose `utcoffset()` is a number. Two aware datetimes are
-- compared and subtracted as instants, as Python does for fixed offsets.
mod Tests
use verdict_risk.Py.Float.{
  Sign, plus, minus, Float, nan, infinite, finite, magnitude, nearest, round,
}
use verdict_risk.Prelude.{
  ltb, leb, if◌then◌else◌, is_some, ℤ, pos_part, neg_part, ◌-ℤ◌, pos, negsuc, ℕ, ◌+◌, ◌*◌, ◌/◌, ◌%◌,
  ◌^◌, Option, none, some,
}
use verdict_risk.Py.Except.{Result, value_error, type_error, overflow_error, ok, err}

pub record TzInfo : Type 0 where
  pub utcoffset : Option ℤ

pub record Datetime : Type 0 where
  pub ticks : ℕ
  pub tzinfo : Option TzInfo

-- `dt.utcoffset()`
abbrev pub utcoffset : Datetime → Option ℤ
utcoffset dt = elim dt.tzinfo [ none ↦ none | some tz ↦ tz.utcoffset ]

-- The point in time, an aware datetime's in UTC.
unfoldable pub instant : Datetime → ℤ
instant dt = elim (utcoffset dt) [ none ↦ pos dt.ticks | some offset ↦ pos dt.ticks -ℤ offset ]

-- `a - b` on datetimes, a `timedelta`
unfoldable pub subtract : Datetime → Datetime → Result ℤ
unfolding instant
subtract a b =
    if is_some (utcoffset a)
    then if is_some (utcoffset b) then ok (instant a -ℤ instant b) else mixed
    else if is_some (utcoffset b)
    then mixed
    else ok (instant a -ℤ instant b)
  where
    mixed : Result ℤ
    mixed = err (type_error "can't subtract offset-naive and offset-aware datetimes")

abbrev sign_of : ℤ → Sign
sign_of (pos n) = plus
sign_of (negsuc n) = minus

-- `delta.total_seconds()`: the quotient of two integers, rounded once
unfoldable pub total_seconds : ℤ → Float
total_seconds delta = round (sign_of delta) ((pos_part delta + neg_part delta) * 2 ^ 1074) (10 ^ 6)

abbrev hour_us : ℕ
hour_us = 3_600_000_000

-- The microseconds of a magnitude of hours: whole hours exactly, the rest by a float product, and the
-- sum to the nearest microsecond, ties to even.
unfoldable pub hours_to_us : ℕ → ℕ
unfolding magnitude nearest
hours_to_us m =
    let unit = 2 ^ 1074 in
    nearest (m / unit * hour_us * unit + magnitude (m % unit * hour_us) 1) unit

-- `timedelta(hours=h)`: at most 999999999 days
unfoldable pub timedelta_hours : Float → Result ℤ
unfolding hours_to_us
timedelta_hours nan = err (value_error "cannot convert float NaN to integer")
timedelta_hours (infinite s) = err (overflow_error "cannot convert float infinity to integer")
timedelta_hours (finite plus m) =
    let us = hours_to_us m in
    if leb (24 * hour_us * 10 ^ 9) us
    then err (overflow_error "days must have magnitude <= 999999999")
    else ok (pos us)
timedelta_hours (finite minus m) =
    let us = hours_to_us m in
    if ltb (24 * hour_us * 999_999_999) us
    then err (overflow_error "days must have magnitude <= 999999999")
    else ok (pos 0 -ℤ pos us)
