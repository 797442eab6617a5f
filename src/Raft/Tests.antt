-- ===== src/Raft/Tests.antt =====
-- Runs of the raft model on a group of three, and the theorems at those inputs.
use protorun.Prelude.{
  or_default, bytes_beq, lookup, ◌+◌, ◌^◌, ◌<◌, ◌≡◌, refl, true, [], ◌∷◌, some, arith,
}
use protorun.Transport.Host.{Host, host_beq, host_less, bytes_less}
use protorun.Raft.Log.{LogEntry}
use protorun.Raft.Storage.Memory.{
  MemoryStorage, memory_storage, new_memory_storage, load, save_term,
}
use protorun.Raft.Messages.{AppendEntries}
use protorun.Raft.Server.{
  Server, new, applied_indices, down_from, ensure_connections, connect_peers, sort_hosts,
  insert_sorted, without,
}
use protorun.Raft.Server.Kept.{durable}
use protorun.Raft.Server.Step.{Input, got_request_vote, got_append_entries, step, init}
use protorun.Raft.Server.Handlers.{on_request_vote, adopt_term, may_grant, grant_vote}
use protorun.Raft.Server.History.{
  Reach, here, next, step-total, vote_stable, storage_mirrors, restart, applied_in_order,
}

abbrev node_a : Host
node_a = record { port = 7001; ip = 97 ∷ [] }

abbrev node_b : Host
node_b = record { port = 7002; ip = 98 ∷ [] }

abbrev node_c : Host
node_c = record { port = 7003; ip = 99 ∷ [] }

-- A server that has just started on an empty storage.
abbrev started : Server MemoryStorage
started = init memory_storage (new node_a (node_b ∷ node_c ∷ []) new_memory_storage)

-- It asked for a vote, and has voted for b in term 3.
abbrev voted : Server MemoryStorage
voted = record started {
  current_term = 3;
  voted_for = node_b;
  has_voted = true;
  log = [];
  storage = save_term new_memory_storage 3 node_b true;
}

abbrev ask_c : Input
ask_c = got_request_vote (record { term = 3; last_log_index = 9; last_log_term = 3 }) node_c

-- The state after an event, or the same state after a panic.
abbrev after : Input → Server MemoryStorage → Server MemoryStorage
after i s = or_default s (step memory_storage i s)

after-eq :
    (i : Input) (s : Server MemoryStorage)
    → s.current_term + 1 < 2 ^ 64
    → step memory_storage i s ≡ some (after i s)
after-eq i s room = let (t, e) = step-total memory_storage i s room in rw e refl

Reach-c : Reach memory_storage voted (after ask_c voted)
unfolding step on_request_vote adopt_term may_grant grant_vote
Reach-c = next ask_c here (omega arith) refl

-- The second candidate of term 3 is refused.
vote_stable_example :
    ((after ask_c voted).has_voted ≡ true) × ((after ask_c voted).voted_for ≡ node_b)
unfolding step on_request_vote adopt_term may_grant grant_vote init new host_beq
vote_stable_example = vote_stable memory_storage Reach-c refl refl

storage_mirrors_example : load (after ask_c voted).storage ≡ durable (after ask_c voted)
unfolding load save_term new_memory_storage
storage_mirrors_example = storage_mirrors memory_storage Reach-c refl

restart_example :
    durable (
      init memory_storage
        (new (after ask_c voted).self (node_b ∷ node_c ∷ []) (after ask_c voted).storage))
    ≡ durable (after ask_c voted)
unfolding load save_term new_memory_storage
restart_example = restart memory_storage (node_b ∷ node_c ∷ []) Reach-c refl

abbrev x_entry : LogEntry
x_entry = record { term = 1; command = 120 ∷ [] }

abbrev y_entry : LogEntry
y_entry = record { term = 1; command = 121 ∷ [] }

-- The leader b of term 1 sends two entries, of which the first is committed.
abbrev two_entries : AppendEntries
two_entries = record {
  term = 1;
  prev_log_index = 0;
  prev_log_term = 0;
  entries = x_entry ∷ y_entry ∷ [];
  leader_commit = 1;
}

abbrev got_two : Input
got_two = got_append_entries two_entries node_b

started_term : started.current_term ≡ 0
unfolding init new load new_memory_storage ensure_connections connect_peers sort_hosts insert_sorted
    without host_beq host_less bytes_less bytes_beq lookup
started_term = refl

Reach-two : Reach memory_storage started (after got_two started)
Reach-two =
    let room : started.current_term + 1 < 2 ^ 64 = omega (arith, started_term) in
    next got_two here room (after-eq got_two started room)

applied_in_order_example :
    applied_indices (after got_two started).trace ≡ down_from (after got_two started).last_applied
applied_in_order_example =
    applied_in_order memory_storage node_a (node_b ∷ node_c ∷ []) new_memory_storage Reach-two

step-total_example : (t : Server MemoryStorage) × (step memory_storage got_two started ≡ some t)
step-total_example = step-total memory_storage got_two started (omega (arith, started_term))
