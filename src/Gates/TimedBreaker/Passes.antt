-- ===== src/Gates/TimedBreaker/Passes.antt =====
-- The conditions under which a check passes, and what it leaves of the breaker.

use verdict_risk.Gates.TimedBreaker.Cooldown.{check_iff}
use verdict_risk.Gates.Verdict.{
  Verdict, pass, timezone_mode, same_mode, subtract_same_mode, same_mode_iff,
}
use verdict_risk.State.{RiskDecision}
use verdict_risk.Py.Time.{Datetime, instant, timedelta_hours}
use verdict_risk.Py.Except.{Result, ◌>>=◌, err, ok}
use verdict_risk.Prelude.{
  if◌then◌else◌, Bool-cases, ℤ, ◌-ℤ◌, ◌≤ℤ◌, leb_ℤ, ◌≡◌, refl, ap, ◌⊎◌, inl, inr, Bool, true, false,
  Option, none, some, arith,
}
use verdict_risk.Gates.TimedBreaker.{
  TimedCircuitBreaker, reset, check_tripped, cooled_down, settle, check_cooldown, check,
}

leaves-settle :
    (b : TimedCircuitBreaker) (d : RiskDecision) (r : Result Bool)
    → ((settle b d r).0 ≡ b) ⊎ ((settle b d r).0 ≡ reset b)
unfolding settle
leaves-settle b d (err e) = inl refl
leaves-settle b d (ok true) = inr refl
leaves-settle b d (ok false) = inl refl

leaves-check_cooldown :
    (b : TimedCircuitBreaker) (d : RiskDecision) (t now : Option Datetime)
    → ((check_cooldown b d t now).0 ≡ b) ⊎ ((check_cooldown b d t now).0 ≡ reset b)
unfolding check_cooldown
leaves-check_cooldown b d none now = inl refl
leaves-check_cooldown b d (some t) none = inl refl
leaves-check_cooldown b d (some t) (some now) =
    elim (Bool-cases (same_mode (timezone_mode now) (timezone_mode t))) [
      | inl same ↦ rw same (leaves-settle b d (cooled_down b t now))
      | inr mixed ↦ rw mixed (inl refl)
    ]

-- A check leaves the breaker as it is, or clears it.
pub check-leaves :
    (b : TimedCircuitBreaker) (d : RiskDecision) (now : Option Datetime)
    → ((check b d now).0 ≡ b) ⊎ ((check b d now).0 ≡ reset b)
unfolding check
check-leaves b d now =
    either b.tripped (check_cooldown b d b.tripped_at now) (b, ok (check_tripped b d))
      (leaves-check_cooldown b d b.tripped_at now) (inl refl)
  where
    either :
        (t : Bool) (x y : TimedCircuitBreaker × Verdict)
        → ((x.0 ≡ b) ⊎ (x.0 ≡ reset b))
        → ((y.0 ≡ b) ⊎ (y.0 ≡ reset b))
        → (((if t then x else y).0 ≡ b) ⊎ ((if t then x else y).0 ≡ reset b))
    either true x y h k = h
    either false x y h k = k

settle-passes :
    (b : TimedCircuitBreaker) (d : RiskDecision) (r : Result Bool)
    → b.tripped ≡ true
    → (settle b d r).1 ≡ pass d
    → r ≡ ok true
unfolding settle check_tripped
settle-passes b d (err e) h p = cc
settle-passes b d (ok true) h p = refl
settle-passes b d (ok false) h p = absurd (ground arith)

-- What is at most the time that went by is a number of microseconds.
within :
    (r : Result ℤ) (e : ℤ)
    → (r >>= λ c. ok (leb_ℤ c e)) ≡ ok true
    → (us : ℤ) × (r ≡ ok us) × (us ≤ℤ e)
within (err x) e h = absurd (cc)
within (ok us) e h = (us, refl, ground arith)

-- The breaker has tripped at a time, and its cooldown has gone by at another of the same mode.
abbrev Over : TimedCircuitBreaker → Option Datetime → Option Datetime → Type 0
Over b at now =
    (t : Datetime) × (n : Datetime) × (us : ℤ) × (at ≡ some t)
    × (now ≡ some n)
    × (timezone_mode n ≡ timezone_mode t)
    × (timedelta_hours b.cooldown_hours ≡ ok us)
    × (us ≤ℤ (instant n -ℤ instant t))

abbrev pub CooledDown : TimedCircuitBreaker → Option Datetime → Type 0
CooledDown b now = Over b b.tripped_at now

cooled_down-over :
    (b : TimedCircuitBreaker) (t now : Datetime)
    → timezone_mode now ≡ timezone_mode t
    → cooled_down b t now ≡ ok true
    → (us : ℤ) × (timedelta_hours b.cooldown_hours ≡ ok us) × (us ≤ℤ (instant now -ℤ instant t))
unfolding cooled_down
cooled_down-over b t now m over =
    within (timedelta_hours b.cooldown_hours) (instant now -ℤ instant t)
      (ground (arith, subtract_same_mode now t m))

check_cooldown-passes :
    (b : TimedCircuitBreaker) (d : RiskDecision) (t now : Option Datetime)
    → b.tripped ≡ true
    → (check_cooldown b d t now).1 ≡ pass d
    → Over b t now
unfolding check_cooldown check_tripped
check_cooldown-passes b d none now h p = absurd (ground arith)
check_cooldown-passes b d (some t) none h p = absurd (ground arith)
check_cooldown-passes b d (some t) (some now) h p =
    elim (Bool-cases (same_mode (timezone_mode now) (timezone_mode t))) [
      | inl same ↦
          let mode = (same_mode_iff (timezone_mode now) (timezone_mode t)).0 same in
          let over = settle-passes b d (cooled_down b t now) h (ground arith) in
          let (us, cooldown, gone) = cooled_down-over b t now mode over in
          (t, now, us, refl, refl, mode, cooldown, gone)
      | inr mixed ↦ absurd (ground arith)
    ]

-- A tripped breaker passes only when its cooldown is over.
pub check-passes_tripped :
    (b : TimedCircuitBreaker) (d : RiskDecision) (now : Option Datetime)
    → b.tripped ≡ true
    → (check b d now).1 ≡ pass d
    → CooledDown b now
unfolding check
check-passes_tripped b d now tripped e =
    check_cooldown-passes b d b.tripped_at now tripped (ground arith)

-- When its cooldown is over it passes and is cleared.
pub over-check :
    (b : TimedCircuitBreaker) (d : RiskDecision) (now : Option Datetime)
    → b.tripped ≡ true
    → CooledDown b now
    → check b d now ≡ (reset b, pass d)
over-check b d now tripped (t, n, us, at, is, mode, cooldown, gone) =
    rw is ((check_iff b d t n us tripped at mode cooldown).1 gone)

pub over-passes :
    (b : TimedCircuitBreaker) (d : RiskDecision) (now : Option Datetime)
    → b.tripped ≡ true
    → CooledDown b now
    → (check b d now).1 ≡ pass d
over-passes b d now tripped over =
    ap (λ (v : TimedCircuitBreaker × Verdict). v.1) (over-check b d now tripped over)
