-- ===== src/Runtime/Supervision/Backoff.antt =====
-- The delays of ExpBackoff of pkg/protorun/supervision.go.
use protorun.Prelude.{
  ℕ, zero, suc, ◌+◌, ◌-◌, ◌*◌, ◌/◌, ◌^◌, ◌≤◌, ◌<◌, ◌≡◌, ap, ◌∙◌, leb, if◌then◌else◌, arith,
  Bool-cases, inl, inr,
}
use protorun.Runtime.Durations.{ℤ, pos, double, at_most}
use protorun.Runtime.Supervision.{backoff_rounds, add_jitter, exp_backoff}

-- A number doubled so many times.
unfoldable pub doubled : ℕ → ℕ → ℕ
doubled zero b = b
doubled (suc n) b = doubled n (2 * b)

-- The smaller one of a number and the bound.
abbrev pub capped : ℕ → ℕ → ℕ
capped n max = if leb n max then n else max

doubled_le : (n b : ℕ) → b ≤ doubled n b
unfolding doubled
doubled_le zero b = omega arith
doubled_le (suc n) b = omega (arith, doubled_le n (2 * b))

cap : ℤ → ℤ → ℤ
cap d max = if at_most d max then d else max

double-pos : (b : ℕ) → b < 2 ^ 62 → double (pos b) ≡ pos (2 * b)
unfolding double
double-pos b lt = ground arith

backoff_rounds-capped :
    (n b m : ℕ)
    → 0 < b
    → b ≤ m
    → m < 2 ^ 62
    → cap (backoff_rounds n (pos b) (pos m)) (pos m) ≡ pos (capped (doubled n b) m)
unfolding backoff_rounds doubled cap at_most
backoff_rounds-capped zero b m p le lt = ground arith
backoff_rounds-capped (suc n) b m p le lt =
    let d = double-pos b (omega arith) in
    elim (Bool-cases (leb m (2 * b))) [
      | inl e ↦ rw d (ground (arith, doubled_le n (2 * b)))
      | inr e ↦ rw d (ground (arith, backoff_rounds-capped n (2 * b) m))
    ]

-- For a base that is positive and not above a maximum below 2 ^ 62 nanoseconds, and a drawn number within
-- the bound of the draw, the delay before an attempt is the base doubled once for each earlier attempt,
-- the maximum at most, and the number drawn: no doubling overflows, and no delay exceeds the maximum by
-- more than a quarter.
pub exp_backoff-capped :
    (b m attempt drawn : ℕ)
    → 0 < b
    → b ≤ m
    → m < 2 ^ 62
    → drawn < capped (doubled (attempt - 1) b) m / 4 + 1
    → (exp_backoff (pos b) (pos m) attempt drawn ≡ pos (capped (doubled (attempt - 1) b) m + drawn))
      × (capped (doubled (attempt - 1) b) m + drawn ≤ m + m / 4)
unfolding exp_backoff cap
exp_backoff-capped b m attempt drawn p le lt draw =
    let r = backoff_rounds-capped (attempt - 1) b m p le lt in
    let at_least = doubled_le (attempt - 1) b in
    (ap (λ d. add_jitter drawn d) r ∙ ground arith, ground arith)
