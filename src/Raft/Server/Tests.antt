-- ===== src/Raft/Server/Tests.antt =====
-- The theorems on single operations of the raft server, at concrete inputs.
use protorun.Prelude.{
  zero, suc, ◌≤◌, ◌<◌, ◌≡◌, refl, true, false, [], ◌∷◌, ◌++◌, some, arith, take, ◌⊎◌, ok, inr, suc,
  lookup, bytes_beq,
}
use protorun.Transport.Host.{Host, host_beq}
use protorun.Raft.Log.{LogEntry, last_index, term_at}
use protorun.Raft.Log.Laws.{Agrees}
use protorun.Raft.Rules.{advance_commit_index}
use protorun.Raft.Rules.Laws.{Committable, advance_commit_index_sound}
use protorun.Raft.Storage.Memory.{MemoryStorage, memory_storage, new_memory_storage}
use protorun.Raft.Messages.{
  RequestVote, AppendEntries, marshal_append_entries, unmarshal_append_entries,
}
use protorun.Raft.Messages.Laws.{unmarshal-marshal_append_entries}
use protorun.Raft.Server.{Server, sent, new, Message, leader}
use protorun.Raft.Server.Replication.{append_conflict_free}
use protorun.Raft.Server.Handlers.{on_request_vote, on_append_entries}
use protorun.Raft.Server.Splice.{Spliced, append_conflict_free_lem}
use protorun.Raft.Server.Following.{
  newest, answer, on_append_entries-accepts, on_append_entries-rejects,
}
use protorun.Raft.Server.CatchUp.{LogMatching, on_append_entries-entries_for}
use protorun.Raft.Server.Replication.{entries_for}
use protorun.Raft.Server.Voting.{Voted, grants, vote, adoption, on_request_vote-trace}

abbrev node_a : Host
node_a = record { port = 7001; ip = 97 ∷ [] }

abbrev node_b : Host
node_b = record { port = 7002; ip = 98 ∷ [] }

abbrev x_entry : LogEntry
x_entry = record { term = 1; command = 120 ∷ [] }

abbrev y_entry : LogEntry
y_entry = record { term = 1; command = 121 ∷ [] }

abbrev z_entry : LogEntry
z_entry = record { term = 2; command = 122 ∷ [] }

-- A server of term 2 whose log ends in an entry that the leader does not have.
abbrev lagging : Server MemoryStorage
lagging = record (new node_a (node_b ∷ []) new_memory_storage) {
  current_term = 2;
  log = x_entry ∷ y_entry ∷ [];
  commit_index = 0;
  last_applied = 0;
}

abbrev replacing : AppendEntries
replacing = record {
  term = 2;
  prev_log_index = 1;
  prev_log_term = 1;
  entries = z_entry ∷ [];
  leader_commit = 2;
}

on_append_entries-accepts_example :
    (t : Server MemoryStorage) × (on_append_entries memory_storage replacing node_b lagging
      ≡ some t)
    × Spliced (x_entry ∷ y_entry ∷ []) 2 (z_entry ∷ []) t.log
    × Agrees t.log 2 (z_entry ∷ [])
    × (take 1 t.log ≡ x_entry ∷ [])
    × (t.commit_index ≡ 2)
    × (newest t.trace ≡ answer 2 2 true node_b)
unfolding term_at
on_append_entries-accepts_example =
    on_append_entries-accepts memory_storage replacing node_b lagging (omega arith) (omega arith)
      refl

-- The leader has another entry at index 2 than the server.
abbrev mismatched : AppendEntries
mismatched = record replacing { prev_log_index = 2; prev_log_term = 2 }

on_append_entries-rejects_example :
    (t : Server MemoryStorage) × (on_append_entries memory_storage mismatched node_b lagging
      ≡ some t)
    × (t.current_term ≡ 2)
    × (t.log ≡ x_entry ∷ y_entry ∷ [])
    × (t.commit_index ≡ 0)
    × (newest t.trace ≡ answer 2 0 false node_b)
unfolding term_at
on_append_entries-rejects_example =
    on_append_entries-rejects memory_storage mismatched node_b lagging
      (inr (inr λ e. absurd (omega arith)))

-- A leader that has replaced the entry that the server has at index 2.
abbrev leading : Server MemoryStorage
leading = record (new node_b (node_a ∷ []) new_memory_storage) {
  current_term = 2;
  role = leader;
  log = x_entry ∷ z_entry ∷ z_entry ∷ [];
  commit_index = 2;
  next_index = (node_a, 2) ∷ [];
}

matching : LogMatching lagging.log leading.log
unfolding term_at
matching zero lo le le' t = refl
matching (suc zero) lo le le' t = refl
matching (suc (suc zero)) lo le le' t = absurd (omega arith)
matching (suc (suc (suc i))) lo le le' t = absurd (omega arith)

on_append_entries-entries_for_example :
    (t : Server MemoryStorage) × (on_append_entries memory_storage
        (entries_for leading node_a)
        node_b
        lagging
      ≡ some t)
    × (take 3 t.log ≡ x_entry ∷ z_entry ∷ z_entry ∷ [])
    × (t.commit_index ≡ 2)
    × (newest t.trace ≡ answer 2 3 true node_b)
unfolding term_at entries_for lookup host_beq bytes_beq
on_append_entries-entries_for_example =
    on_append_entries-entries_for memory_storage leading lagging node_a node_b (omega arith)
      (omega arith) (omega arith) matching (omega arith) refl

append_conflict_free_lem_example :
    let t = append_conflict_free memory_storage 1 (z_entry ∷ []) lagging in
    Agrees t.log 2 (z_entry ∷ []) × (take 1 t.log ≡ x_entry ∷ []) × (2 ≤ last_index t.log)
append_conflict_free_lem_example =
    append_conflict_free_lem memory_storage 1 (z_entry ∷ []) lagging (omega arith)

on_request_vote-trace_example :
    let m : RequestVote = record { term = 3; last_log_index = 2; last_log_term = 1 } in
    let t = on_request_vote memory_storage m node_b lagging in
    let given = grants lagging m node_b in
    (t.trace
      ≡ sent (Message.request_vote_reply (record { term = 3; vote_granted = given })) node_b
          ∷ vote given 3 node_b
        ++ (adoption true 3 ++ lagging.trace))
    × Voted lagging 3 node_b given t
on_request_vote-trace_example =
    on_request_vote-trace memory_storage
      (record { term = 3; last_log_index = 2; last_log_term = 1 }) node_b lagging

-- Two of three members hold index 2, of the current term.
advance_commit_index_sound_example :
    let r = advance_commit_index 1 2 (x_entry ∷ z_entry ∷ z_entry ∷ []) (3 ∷ 2 ∷ 0 ∷ []) 3 in
    (r ≡ 1) ⊎ ((1 < r) × Committable (x_entry ∷ z_entry ∷ z_entry ∷ []) 2 (3 ∷ 2 ∷ 0 ∷ []) 3 r)
advance_commit_index_sound_example =
    advance_commit_index_sound 1 2 (x_entry ∷ z_entry ∷ z_entry ∷ []) (3 ∷ 2 ∷ 0 ∷ []) 3

unmarshal-marshal_append_entries_example :
    unmarshal_append_entries (marshal_append_entries replacing ++ 1 ∷ []) ≡ ok replacing
unmarshal-marshal_append_entries_example =
    unmarshal-marshal_append_entries replacing (1 ∷ []) (omega arith) (omega arith) (omega arith)
      (omega arith) (omega arith)
      (record { term_fits = omega arith; command_fits = omega arith }, tt)
