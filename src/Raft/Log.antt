-- ===== src/Raft/Log.antt =====
-- pkg/protocols/raft/log.go: the log with 1-based indices, as the list of its entries, and
-- `LogEntry` of storage.go. Lengths fit a uint64, as those of Go slices do.
pub mod Laws
use protorun.Prelude.{
  ℕ, ◌+◌, ◌-◌, List, [], ◌∷◌, ◌++◌, Option, none, some, Bool, ◌||◌, length, take, drop, get_elem?,
  ltb, ◌==◌, if◌then◌else◌,
}
use protorun.Wire.{Bytes}

pub record LogEntry : Type 0 where
  pub term : ℕ
  pub command : Bytes

abbrev pub Log : Type 0
Log = List LogEntry

abbrev pub last_index : Log → ℕ
last_index l = length l

-- The term of an entry that is there, and 0 where there is none.
abbrev pub term_or_zero : Option LogEntry → ℕ
term_or_zero none = 0
term_or_zero (some e) = e.term

unfoldable pub last_term : Log → ℕ
last_term l = if length l == 0 then 0 else term_or_zero (get_elem? l (length l - 1))

unfoldable pub term_at : Log → ℕ → ℕ
term_at l index =
    if index == 0 || ltb (last_index l) index then 0 else term_or_zero (get_elem? l (index - 1))

-- `l.entries[index-1]`: `none` is Go's index panic. (`index - 1` wraps at 0, and panics too.)
unfoldable pub at : Log → ℕ → Option LogEntry
at l index = if index == 0 then none else get_elem? l (index - 1)

-- The new log and the index of the entry.
unfoldable pub append : Log → LogEntry → Log × ℕ
append l e = let l' = l ++ e ∷ [] in (l', last_index l')

unfoldable pub truncate_from : Log → ℕ → Log
truncate_from l index = if ltb index 1 || ltb (last_index l) index then l else take (index - 1) l

unfoldable pub slice_from : Log → ℕ → List LogEntry
slice_from l index = if ltb index 1 || ltb (last_index l) index then [] else drop (index - 1) l
