-- ===== src/Py/Float/Order.antt =====
-- The values of `float` and its comparisons, and the classification by `math.isnan`, `isinf` and
-- `isfinite`.
use verdict_risk.Prelude.{
  ltb, leb, ◌==◌, ℕ, ◌+◌, ◌≡◌, refl, Bool, true, false, not, ◌&&◌, ◌||◌, arith,
}

pub data Sign : Type 0 where
  plus minus : Sign

pub data Float : Type 0 where
  nan : Float
  infinite : Sign → Float
  finite : Sign → ℕ → Float

-- `math.isnan`, `math.isinf`, `math.isfinite`
unfoldable pub is_nan : Float → Bool
is_nan nan = true
is_nan (infinite s) = false
is_nan (finite s m) = false

unfoldable pub is_inf : Float → Bool
is_inf nan = false
is_inf (infinite s) = true
is_inf (finite s m) = false

unfoldable pub is_finite : Float → Bool
is_finite nan = false
is_finite (infinite s) = false
is_finite (finite s m) = true

-- Signed magnitudes; the two zeros are equal.
unfoldable pub lt_finite : Sign → ℕ → Sign → ℕ → Bool
lt_finite plus m plus n = ltb m n
lt_finite plus m minus n = false
lt_finite minus m plus n = ltb 0 (m + n)
lt_finite minus m minus n = ltb n m

unfoldable pub le_finite : Sign → ℕ → Sign → ℕ → Bool
le_finite plus m plus n = leb m n
le_finite plus m minus n = (m + n) == 0
le_finite minus m plus n = true
le_finite minus m minus n = leb n m

-- `x < y`: false when either is NaN
unfoldable pub lt : Float → Float → Bool
unfolding lt_finite
lt nan y = false
lt (infinite s) nan = false
lt (infinite plus) (infinite t) = false
lt (infinite minus) (infinite plus) = true
lt (infinite minus) (infinite minus) = false
lt (infinite plus) (finite t n) = false
lt (infinite minus) (finite t n) = true
lt (finite s m) nan = false
lt (finite s m) (infinite plus) = true
lt (finite s m) (infinite minus) = false
lt (finite s m) (finite t n) = lt_finite s m t n

-- `x <= y`
unfoldable pub le : Float → Float → Bool
unfolding le_finite
le nan y = false
le (infinite s) nan = false
le (infinite plus) (infinite plus) = true
le (infinite plus) (infinite minus) = false
le (infinite minus) (infinite t) = true
le (infinite plus) (finite t n) = false
le (infinite minus) (finite t n) = true
le (finite s m) nan = false
le (finite s m) (infinite plus) = true
le (finite s m) (infinite minus) = false
le (finite s m) (finite t n) = le_finite s m t n

-- `x == y`
unfoldable pub eq : Float → Float → Bool
unfolding le
eq x y = le x y && le y x

-- The tests of a gate: neither NaN nor infinite is finite.
pub is_finite-eq : (x : Float) → is_finite x ≡ not (is_nan x || is_inf x)
unfolding is_finite is_nan is_inf
is_finite-eq x = ground arith

pub is_nan_of_finite : (x : Float) → is_finite x ≡ true → (is_nan x ≡ false) × (is_inf x ≡ false)
unfolding is_finite is_nan is_inf
is_nan_of_finite x h = ground arith

-- Of two numbers neither of which is NaN, either the first is less or the second is at most it.
pub lt-eq-not-le : (x y : Float) → is_nan x ≡ false → is_nan y ≡ false → lt x y ≡ not (le y x)
unfolding lt le is_nan
lt-eq-not-le x y p q = ground arith

pub le_of_lt : (x y : Float) → lt x y ≡ true → le x y ≡ true
unfolding lt le
le_of_lt x y p = ground arith

pub lt-le_trans : (x y z : Float) → lt x y ≡ true → le y z ≡ true → lt x z ≡ true
unfolding lt le
lt-le_trans x y z p q = ground arith

pub le-lt_trans : (x y z : Float) → le x y ≡ true → lt y z ≡ true → lt x z ≡ true
unfolding lt le
le-lt_trans x y z p q = ground arith

pub lt-not_le : (x y : Float) → lt x y ≡ true → le y x ≡ false
unfolding lt le
lt-not_le x y p = ground arith

pub le-not_lt : (x y : Float) → le x y ≡ true → lt y x ≡ false
unfolding lt le
le-not_lt x y p = ground arith

pub le_refl : (x : Float) → is_nan x ≡ false → le x x ≡ true
unfolding le is_nan
le_refl x p = ground arith

pub le_trans : (x y z : Float) → le x y ≡ true → le y z ≡ true → le x z ≡ true
unfolding le
le_trans x y z p q = ground arith

-- A comparison that holds is between numbers.
pub not_nan_of_le : (x y : Float) → le x y ≡ true → (is_nan x ≡ false) × (is_nan y ≡ false)
unfolding le is_nan
not_nan_of_le x y p = ground arith

pub not_nan_of_lt : (x y : Float) → lt x y ≡ true → (is_nan x ≡ false) × (is_nan y ≡ false)
unfolding lt is_nan
not_nan_of_lt x y p = ground arith

-- Nothing is less than, or at most, NaN, nor the other way round.
pub lt_nan : (x : Float) → lt x nan ≡ false
unfolding lt
lt_nan x = ground arith

pub nan_lt : (x : Float) → lt nan x ≡ false
unfolding lt
nan_lt x = refl

pub nan_le : (x : Float) → le nan x ≡ false
unfolding le
nan_le x = refl
