-- ===== src/Paxos/Storage.antt =====
-- pkg/protocols/paxos/storage.go: the durable acceptor state, the Storage seam with the law that its
-- documentation states, and MemoryStorage.
use protorun.Prelude.{ℕ, ◌≡◌, refl, Bool, true, false, [], if◌then◌else◌}
use protorun.Wire.{Bytes}

pub record PersistentState : Type 0 where
  pub promised : ℕ
  pub accepted_ballot : ℕ
  pub accepted_value : Bytes
  pub has_accepted : Bool

abbrev pub zero_state : PersistentState
zero_state = record { promised = 0; accepted_ballot = 0; accepted_value = []; has_accepted = false }

-- `Persist` records the full state, and `Load` returns what was recorded last.
pub record Storage (S : Type 0) : Type 0 where
  pub load : S → PersistentState
  pub persist : S → PersistentState → S
  pub load-persist : (s : S) (ps : PersistentState) → load (persist s ps) ≡ ps

pub record MemoryStorage : Type 0 where
  pub state : PersistentState
  pub saved : Bool

unfoldable pub new_memory_storage : MemoryStorage
new_memory_storage = record { state = zero_state; saved = false }

-- `clone` copies the bytes, which are never shared here.
unfoldable pub memory_load : MemoryStorage → PersistentState
memory_load m = if m.saved then m.state else zero_state

unfoldable pub memory_persist : MemoryStorage → PersistentState → MemoryStorage
memory_persist m ps = record { state = ps; saved = true }

pub memory_load-memory_persist :
    (m : MemoryStorage) (ps : PersistentState) → memory_load (memory_persist m ps) ≡ ps
unfolding memory_load memory_persist
memory_load-memory_persist m ps = refl

abbrev pub memory_storage : Storage MemoryStorage
memory_storage = record {
  load = memory_load;
  persist = memory_persist;
  load-persist = memory_load-memory_persist;
}
