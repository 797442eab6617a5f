-- ===== src/Raft/Storage/Memory.antt =====
-- MemoryStorage of pkg/protocols/raft/storage.go.
use protorun.Prelude.{
  ℕ, ◌-◌, ◌≡◌, refl, Bool, false, List, [], ◌∷◌, ◌++◌, length, take, ltb, if◌then◌else◌, arith,
  take_of_le, sym, append_assoc, append-nil,
}
use protorun.Transport.Host.{Host, zero_host}
use protorun.Raft.Log.{Log, LogEntry}
use protorun.Raft.Storage.{PersistentState, Storage}

pub record MemoryStorage : Type 0 where
  pub term : ℕ
  pub voted_for : Host
  pub has_voted : Bool
  pub log : Log

unfoldable pub new_memory_storage : MemoryStorage
new_memory_storage = record { term = 0; voted_for = zero_host; has_voted = false; log = [] }

unfoldable pub load : MemoryStorage → PersistentState
load m = record {
  current_term = m.term;
  voted_for = m.voted_for;
  has_voted = m.has_voted;
  log = m.log;
}

unfoldable pub save_term : MemoryStorage → ℕ → Host → Bool → MemoryStorage
save_term m term host voted = record m { term = term; voted_for = host; has_voted = voted }

-- The loop that appends a copy of each entry.
unfoldable pub append_copies : Log → List LogEntry → Log
append_copies l [] = l
append_copies l (e ∷ es) =
    append_copies (l ++ record { term = e.term; command = e.command } ∷ []) es

unfoldable pub append_entries : MemoryStorage → ℕ → List LogEntry → MemoryStorage
append_entries m from es =
    let first = if ltb from 1 then 1 else from in
    let keep = first - 1 in
    let kept = if ltb keep (length m.log) then take keep m.log else m.log in
    record m { log = append_copies kept es }

append_copies-eq : (l : Log) (es : List LogEntry) → append_copies l es ≡ l ++ es
unfolding append_copies
append_copies-eq l [] = sym (append-nil l)
append_copies-eq l (e ∷ es) = rw (append_copies-eq (l ++ e ∷ []) es, append_assoc l (e ∷ []) es)

kept-eq :
    (from : ℕ) (l : Log)
    → let keep = (if ltb from 1 then 1 else from) - 1 in
      (if ltb keep (length l) then take keep l else l) ≡ take (from - 1) l
kept-eq from l = ground (arith, take_of_le (from - 1) l)

-- `Load` after `AppendEntries` gives the log cut before `from`, with the entries behind it, whatever
-- `from` is; term and vote stay.
pub load-append_entries :
    (m : MemoryStorage) (from : ℕ) (es : List LogEntry)
    → load (append_entries m from es) ≡ record (load m) { log = take (from - 1) (load m).log ++ es }
unfolding load append_entries
load-append_entries m from es = rw (append_copies-eq _ es, kept-eq from m.log)

pub load-save_term :
    (m : MemoryStorage) (term : ℕ) (host : Host) (voted : Bool)
    → load (save_term m term host voted)
      ≡ record (load m) { current_term = term; voted_for = host; has_voted = voted }
unfolding load save_term
load-save_term m term host voted = refl

abbrev pub memory_storage : Storage MemoryStorage
memory_storage = record {
  load = load;
  save_term = save_term;
  append_entries = append_entries;
  load-save_term = load-save_term;
  load-append_entries = load-append_entries;
}
