-- ===== src/Raft/Log/Laws.antt =====
-- How the log operations act on positions, and when a log holds given entries.
use protorun.Prelude.{
  ℕ, zero, suc, ◌+◌, ◌-◌, ◌≤◌, ◌<◌, ◌≡◌, refl, ap, List, [], ◌∷◌, ◌++◌, some, length, take,
  get_elem?, arith, length-append, length-take, length-drop, get_elem?-append_left, append_assoc,
  take-append-drop, get_elem?-some, ◌∙◌, get_elem?-take, take_of_le, append-nil,
}
use protorun.Raft.Log.{Log, LogEntry, last_index, term_or_zero, term_at, at, slice_from}

-- The log has an entry of the same term at every index from `idx` on, for each listed entry.
abbrev pub Agrees : Log → ℕ → List LogEntry → Type 0
Agrees l idx [] = Unit {0}
Agrees l idx (e ∷ es) = (idx ≤ last_index l) × (term_at l idx ≡ e.term) × Agrees l (idx + 1) es

pub term_at-get_elem? :
    (l : Log) (i : ℕ) → i < last_index l → term_at l (i + 1) ≡ term_or_zero (get_elem? l i)
unfolding term_at
term_at-get_elem? l i h = let e : i + 1 - 1 ≡ i = omega arith in rw e (ground arith)

-- The code reads the entry at an index only where there is one.
pub at-some : (l : Log) (i : ℕ) → 1 ≤ i → i ≤ last_index l → (e : LogEntry) × (at l i ≡ some e)
unfolding at
at-some l i lo hi = let (e, p) = get_elem?-some l (i - 1) (omega arith) in (e, ground arith)

pub term_at-append_left :
    (l es : Log) (i : ℕ) → i ≤ last_index l → term_at (l ++ es) i ≡ term_at l i
unfolding term_at
term_at-append_left l es zero h = refl
term_at-append_left l es (suc i) h =
    ground (arith, length-append l es, get_elem?-append_left l es i (omega arith))

get_elem?-length : (l es : Log) (e : LogEntry) → get_elem? (l ++ e ∷ es) (length l) ≡ some e
get_elem?-length [] es e = refl
get_elem?-length (x ∷ l) es e = get_elem?-length l es e

-- A log that ends in the entries holds them.
pub Agrees-append : (l es : Log) → Agrees (l ++ es) (last_index l + 1) es
Agrees-append l [] = tt
Agrees-append l (e ∷ es) = (
  omega (arith, length-append l (e ∷ es)),
  term_at-get_elem? (l ++ e ∷ es) (length l) (omega (arith, length-append l (e ∷ es)))
      ∙ ap term_or_zero (get_elem?-length l es e),
  rw (append_assoc l (e ∷ []) es, length-append l (e ∷ [])) at (Agrees-append (l ++ e ∷ []) es),
)

-- Cutting before `n` and appending leaves what was below `n`.
pub get_elem?-take-append :
    (n : ℕ) (l es : Log) (i : ℕ)
    → i < n
    → n ≤ last_index l
    → get_elem? (take n l ++ es) i ≡ get_elem? l i
get_elem?-take-append n l es i h k =
    get_elem?-append_left (take n l) es i (omega (arith, length-take n l)) ∙ get_elem?-take n l i h

-- `term_at` reads one position only.
pub term_at-cong :
    (l l' : Log) (i : ℕ)
    → 1 ≤ i
    → i ≤ last_index l
    → i ≤ last_index l'
    → get_elem? l' (i - 1) ≡ get_elem? l (i - 1)
    → term_at l' i ≡ term_at l i
unfolding term_at
term_at-cong l l' i lo hi hi' e = ground arith

-- `sliceFrom` with what is before it makes up the log, and runs to its end.
pub take-append-slice_from : (l : Log) (n : ℕ) → 1 ≤ n → take (n - 1) l ++ slice_from l n ≡ l
unfolding slice_from
take-append-slice_from l n h =
    ground (arith, take-append-drop (n - 1) l, take_of_le (n - 1) l, append-nil l)

pub length-slice_from :
    (l : Log) (n : ℕ)
    → 1 ≤ n
    → n ≤ last_index l + 1
    → n - 1 + length (slice_from l n) ≡ last_index l
unfolding slice_from
length-slice_from l n lo hi = ground (arith, length-drop (n - 1) l)
