-- ===== src/Runtime/Supervision.antt =====
-- pkg/protorun/supervision.go and supervisor.go: the policy of a supervised protocol, its backoff, the
-- sliding window of its panics and the decisions of its supervisor. Clock readings are nanoseconds.
pub mod Window
pub mod Backoff
use protorun.Prelude.{
  ℕ, zero, suc, ◌+◌, ◌-◌, ◌*◌, ◌^◌, Bool, true, false, ◌||◌, List, [], ◌∷◌, ◌++◌, length, ltb, leb,
  ◌==◌, if◌then◌else◌,
}
use protorun.Runtime.Durations.{ℤ, pos, negsuc, at_most, double}

pub data Directive : Type 0 where
  resume : Directive
  restart : Directive
  stop : Directive
  escalate : Directive

-- The Backoff of a policy is its delay for each attempt, none for nil.
pub record Supervision : Type 0 where
  pub on_panic : Directive
  pub max_restarts : ℤ
  pub window : ℤ
  pub on_give_up : Directive

unfoldable pub count_or : ℤ → ℕ → ℕ
count_or (pos n) default = if n == 0 then default else n
count_or (negsuc n) default = default

unfoldable pub stop_or_escalate : Directive → Directive
stop_or_escalate Directive.resume = Directive.stop
stop_or_escalate Directive.restart = Directive.stop
stop_or_escalate Directive.stop = Directive.stop
stop_or_escalate Directive.escalate = Directive.escalate

-- A policy with its defaults.
pub record Policy : Type 0 where
  pub on_panic : Directive
  pub max_restarts : ℕ
  pub window : ℕ
  pub on_give_up : Directive

unfoldable pub with_defaults : Supervision → Policy
unfolding count_or stop_or_escalate
with_defaults s = record {
  on_panic = s.on_panic;
  max_restarts = count_or s.max_restarts 5;
  window = count_or s.window 60000000000;
  on_give_up = stop_or_escalate s.on_give_up;
}

-- `t.After(cutoff)`, the cutoff being `window` before `now`.
unfoldable pub keep_recent : ℕ → ℕ → List ℕ → List ℕ
keep_recent window now [] = []
keep_recent window now (t ∷ ts) =
    let rest = keep_recent window now ts in if ltb now (t + window) then t ∷ rest else rest

-- `recordPanic`; the count is the length.
unfoldable pub record_panic : ℕ → ℕ → List ℕ → List ℕ
unfolding keep_recent
record_panic window now times = keep_recent window now (times ++ now ∷ [])

-- The rounds of the doubling loop of `ExpBackoff`.
unfoldable pub backoff_rounds : ℕ → ℤ → ℤ → ℤ
backoff_rounds zero d max = d
backoff_rounds (suc n) d max =
    let rest = backoff_rounds n (double d) max in
    if at_most (double d) (pos 0) || at_most max (double d) then max else rest

-- `d += rand.N(d/4 + 1)` on an int64, with the number drawn.
unfoldable pub add_jitter : ℕ → ℤ → ℤ
add_jitter drawn (pos n) =
    if n == 0
    then pos n
    else if ltb (n + drawn) (2 ^ 63)
    then pos (n + drawn)
    else negsuc (2 ^ 64 - (n + drawn) - 1)
add_jitter drawn (negsuc n) = negsuc n

-- The delay before an attempt, which counts from 1.
unfoldable pub exp_backoff : ℤ → ℤ → ℕ → ℕ → ℤ
unfolding backoff_rounds add_jitter
exp_backoff base max attempt drawn =
    let d = backoff_rounds (attempt - 1) base max in
    add_jitter drawn (if at_most d max then d else max)

-- How a rebuild of the instance ends, with the clock reading before it.
pub data Rebuild : Type 0 where
  shut_down : Rebuild
  panicked : Rebuild
  came_up : Rebuild

-- What the supervisor decides; `waiting` if the rebuilds known so far do not end the loop.
pub data Verdict : Type 0 where
  restarted : ℕ → Verdict
  stopped : Verdict
  escalated : Verdict
  left : Verdict
  waiting : Verdict
  kept : Verdict

unfoldable pub give_up : Directive → Verdict
give_up Directive.resume = Verdict.stopped
give_up Directive.restart = Verdict.stopped
give_up Directive.stop = Verdict.stopped
give_up Directive.escalate = Verdict.escalated

unfoldable pub run_restart : Policy → List ℕ → List (ℕ × Rebuild) → List ℕ × Verdict
unfolding record_panic give_up
run_restart p times [] = (times, Verdict.waiting)
run_restart p times ((now, outcome) ∷ more) =
    let seen = record_panic p.window now times in
    let again = run_restart p seen more in
    if ltb p.max_restarts (length seen) then (seen, give_up p.on_give_up) else elim outcome [
      | shut_down ↦ (seen, Verdict.left)
      | panicked ↦ again
      | came_up ↦ (seen, Verdict.restarted (length seen))
    ]

-- `handle`: the directive on a reported panic.
unfoldable pub handle : Policy → List ℕ → List (ℕ × Rebuild) → List ℕ × Verdict
unfolding run_restart
handle p times rebuilds = elim p.on_panic [
  | resume ↦ (times, Verdict.kept)
  | restart ↦ run_restart p times rebuilds
  | stop ↦ (times, Verdict.stopped)
  | escalate ↦ (times, Verdict.escalated)
]
