-- ===== src/Runtime/Durations.antt =====
-- Go's time.Duration, an int64 of nanoseconds, as the configurations of the protocols use it.
use protorun.Prelude.{
  ℕ, ◌+◌, ◌-◌, ◌*◌, ◌^◌, ◌<◌, ◌≡◌, refl, Bool, true, false, ltb, leb, ◌==◌, if◌then◌else◌, arith,
  Bool-cases, inl, inr, ap, sym, ◌∙◌,
}

-- `negsuc n` is -(n + 1).
pub data ℤ : Type 0 where
  pos : ℕ → ℤ
  negsuc : ℕ → ℤ

abbrev pub millisecond : ℕ
millisecond = 1000000

-- `durOr` of raft/config.go and paxos/config.go.
unfoldable pub dur_or : ℤ → ℤ → ℤ
dur_or (pos n) default = if n == 0 then default else pos n
dur_or (negsuc n) default = default

unfoldable pub at_most : ℤ → ℤ → Bool
at_most (pos m) (pos n) = leb m n
at_most (pos m) (negsuc n) = false
at_most (negsuc m) (pos n) = true
at_most (negsuc m) (negsuc n) = leb n m

-- `d * 2` on an int64.
unfoldable pub double : ℤ → ℤ
double (pos n) = if ltb (2 * n) (2 ^ 63) then pos (2 * n) else negsuc (2 ^ 64 - 2 * n - 1)
double (negsuc n) =
    if leb (2 * n + 2) (2 ^ 63) then negsuc (2 * n + 1) else pos (2 ^ 64 - (2 * n + 2))

-- The bounds [min, max) of a random delay, as both `fillDefaults` set them.
unfoldable pub window : ℤ → ℤ → ℤ × ℤ
unfolding dur_or at_most double
window least most =
    let low = dur_or least (pos (150 * millisecond)) in
    let high = dur_or most (pos (300 * millisecond)) in
    (low, if at_most high low then double low else high)

abbrev amount : ℤ → ℕ
amount (pos n) = n
amount (negsuc n) = 0

-- A delay that is positive, in nanoseconds.
abbrev pub IsPositive : ℤ → Type 0
IsPositive d = (n : ℕ) × (d ≡ pos n) × (0 < n)

pub dur_or-IsPositive : (d e : ℤ) → IsPositive e → IsPositive (dur_or d e)
unfolding dur_or
dur_or-IsPositive (pos n) e (k, eq, lt) = elim (Bool-cases (n == 0)) [
  | inl z ↦ rw z (k, eq, lt)
  | inr s ↦ rw s (n, refl, ground arith)
]
dur_or-IsPositive (negsuc n) e h = h

-- The window is never empty: the lower bound is positive and below the upper one, if it is below
-- 2 ^ 62 nanoseconds, so that its double fits.
pub window_lem :
    (least most : ℤ) (n : ℕ)
    → dur_or least (pos (150 * millisecond)) ≡ pos n
    → n < 2 ^ 62
    → (m : ℕ) × (window least most ≡ (pos n, pos m)) × (0 < n) × (n < m)
unfolding window at_most double
window_lem least most n e small =
    let (k, low, lt) = dur_or-IsPositive least (pos (150 * millisecond)) (_, refl, omega arith) in
    let (m, high, lt') = dur_or-IsPositive most (pos (300 * millisecond)) (_, refl, omega arith) in
    let same : k ≡ n = ap amount (sym low ∙ e) in
    elim (Bool-cases (leb m n)) [
      | inl above ↦
          let fits : ltb (2 * n) (2 ^ 63) ≡ true = ground arith in
          (2 * n, rw (window, e, high, above, fits) refl, omega arith, omega arith)
      | inr below ↦ (m, rw (window, e, high, below) refl, omega arith, ground arith)
    ]
