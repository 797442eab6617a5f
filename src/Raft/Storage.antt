-- ===== src/Raft/Storage.antt =====
-- pkg/protocols/raft/storage.go: the Storage seam as an interface with the laws that its
-- documentation states, and MemoryStorage, which meets them. `clone` copies slices, so that nothing
-- is aliased; values here are never shared, so it is the identity.
pub mod Memory
use protorun.Prelude.{ℕ, ◌-◌, ◌≡◌, Bool, List, ◌++◌, take}
use protorun.Transport.Host.{Host}
use protorun.Raft.Log.{Log, LogEntry}

pub record PersistentState : Type 0 where
  pub current_term : ℕ
  pub voted_for : Host
  pub has_voted : Bool
  pub log : Log

-- The interface: `S` is the state of an implementation. The laws are what the source's comments
-- ask: `SaveTerm` records term and vote alone, `AppendEntries` replaces the suffix from `from` on.
pub record Storage (S : Type 0) : Type 0 where
  pub load : S → PersistentState
  pub save_term : S → ℕ → Host → Bool → S
  pub append_entries : S → ℕ → List LogEntry → S
  pub load-save_term :
      (s : S) (term : ℕ) (host : Host) (voted : Bool)
      → load (save_term s term host voted)
        ≡ record (load s) { current_term = term; voted_for = host; has_voted = voted }
  pub load-append_entries :
      (s : S) (from : ℕ) (es : List LogEntry)
      → load (append_entries s from es)
        ≡ record (load s) { log = take (from - 1) (load s).log ++ es }
