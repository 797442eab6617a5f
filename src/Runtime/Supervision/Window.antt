-- ===== src/Runtime/Supervision/Window.antt =====
-- The window of recordPanic of pkg/protorun/supervisor.go against the whole history of panics.
use protorun.Prelude.{
  ℕ, ◌≤◌, ◌≡◌, refl, ap, ◌∙◌, sym, List, [], ◌∷◌, ◌++◌, append_assoc, append-nil, arith, dec_lt,
  filter, ◌+◌,
}
use protorun.Runtime.Supervision.{keep_recent, record_panic}

-- The panics at these times, one after the other.
abbrev pub record_all : ℕ → List ℕ → List ℕ → List ℕ
record_all window times [] = times
record_all window times (t ∷ ts) = record_all window (record_panic window t times) ts

-- The clock does not go back.
abbrev pub IsRising : ℕ → List ℕ → Type 0
IsRising t [] = Unit {0}
IsRising t (x ∷ xs) = (t ≤ x) × IsRising x xs

keep_recent-append :
    (w n : ℕ) (xs ys : List ℕ)
    → keep_recent w n (xs ++ ys) ≡ keep_recent w n xs ++ keep_recent w n ys
unfolding keep_recent
keep_recent-append w n [] ys = refl
keep_recent-append w n (x ∷ xs) ys = ground (arith, keep_recent-append w n xs ys)

keep_recent-again :
    (w m n : ℕ) (xs : List ℕ) → m ≤ n → keep_recent w n (keep_recent w m xs) ≡ keep_recent w n xs
unfolding keep_recent
keep_recent-again w m n [] le = refl
keep_recent-again w m n (x ∷ xs) le = ground (arith, keep_recent-again w m n xs le)

-- What is kept agrees, from a time on, with a longer history.
Agrees : ℕ → ℕ → List ℕ → List ℕ → Type 0
Agrees w t times history = (n : ℕ) → t ≤ n → keep_recent w n times ≡ keep_recent w n history

Agrees-panic :
    (w t x : ℕ) (times history : List ℕ)
    → t ≤ x
    → Agrees w t times history
    → Agrees w x (record_panic w x times) (history ++ x ∷ [])
unfolding Agrees record_panic
Agrees-panic w t x times history le a n le₂ =
    keep_recent-again w x n (times ++ x ∷ []) le₂
    ∙ keep_recent-append w n times (x ∷ [])
    ∙ ap (λ ys. ys ++ keep_recent w n (x ∷ [])) (a n (omega arith))
    ∙ sym (keep_recent-append w n history (x ∷ []))

record_all-recent :
    (w t now : ℕ) (panics times history : List ℕ)
    → IsRising t (panics ++ now ∷ [])
    → Agrees w t times history
    → record_panic w now (record_all w times panics)
      ≡ keep_recent w now ((history ++ panics) ++ now ∷ [])
unfolding Agrees record_panic
record_all-recent w t now [] times history r a =
    keep_recent-append w now times (now ∷ [])
    ∙ ap (λ ys. ys ++ keep_recent w now (now ∷ [])) (a now r.0)
    ∙ sym (keep_recent-append w now history (now ∷ []))
    ∙ ap (λ ys. keep_recent w now (ys ++ now ∷ [])) (sym (append-nil history))
record_all-recent w t now (x ∷ panics) times history r a =
    record_all-recent w x now panics (record_panic w x times) (history ++ x ∷ []) r.1
      (Agrees-panic w t x times history r.0 a)
    ∙ ap (λ ys. keep_recent w now (ys ++ now ∷ [])) (append_assoc history (x ∷ []) panics)

-- The times that are less than the window before `now`.
abbrev pub recent : (window now : ℕ) → List ℕ → List ℕ
recent window now times = filter (λ t. dec_lt now (t + window)) times

keep_recent-recent : (w n : ℕ) (times : List ℕ) → keep_recent w n times ≡ recent w n times
unfolding keep_recent
keep_recent-recent w n [] = refl
keep_recent-recent w n (t ∷ ts) = elim (dec_lt n (t + w)) [
  | yes lt ↦ ground (arith, keep_recent-recent w n ts)
  | no ge ↦ ground (arith, keep_recent-recent w n ts)
]

-- The supervisor keeps only the panics of its window, and still, while its clock does not go back, each
-- panic leaves it with exactly those of the whole history, the panic included, that are less than the
-- window old.
pub record_panic-window :
    (window now : ℕ) (panics : List ℕ)
    → IsRising 0 (panics ++ now ∷ [])
    → record_panic window now (record_all window [] panics) ≡ recent window now (panics ++ now ∷ [])
unfolding Agrees
record_panic-window window now panics r =
    record_all-recent window 0 now panics [] [] r (λ n le. refl)
    ∙ keep_recent-recent window now (panics ++ now ∷ [])
