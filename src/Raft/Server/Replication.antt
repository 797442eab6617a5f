-- ===== src/Raft/Server/Replication.antt =====
-- The replication half of pkg/protocols/raft/protocol.go: sending entries, splicing them in,
-- committing and applying. A function whose loop indexes the log returns `none` where Go panics.
use protorun.Prelude.{
  ℕ, zero, suc, ◌+◌, ◌-◌, max, ◌&&◌, List, [], ◌∷◌, Option, none, some, length, ltb, leb, ◌==◌,
  if◌then◌else◌, lookup, or_default,
}
use protorun.Transport.Host.{Host, host_eq}
use protorun.Raft.Log.{Log, LogEntry, last_index, term_at, at, append, truncate_from, slice_from}
use protorun.Raft.Rules.{advance_commit_index}
use protorun.Raft.Storage.{Storage}
use protorun.Raft.Messages.{AppendEntries}
use protorun.Raft.Server.{Server, Message, saved_entries, applied, emit, send}

-- The inner loop of `appendConflictFree`, over `entries[i:]`.
unfoldable pub append_all : Log → List LogEntry → Log
append_all l [] = l
append_all l (e ∷ es) = append_all (append l (record { term = e.term; command = e.command })).0 es

module _ {S : Type 0} where
  -- The message that `sendAppendEntries` builds for a peer.
  unfoldable pub entries_for : Server S → Host → AppendEntries
  entries_for s peer =
      let ni = max (or_default 0 (lookup peer s.next_index)) 1 in
      let prev = ni - 1 in
      record {
        term = s.current_term;
        prev_log_index = prev;
        prev_log_term = term_at s.log prev;
        leader_commit = s.commit_index;
        entries = slice_from s.log ni;
      }

  unfoldable pub send_append_entries : Host → Server S → Server S
  send_append_entries peer s = send (Message.append_entries (entries_for s peer)) peer s

  unfoldable pub send_append_entries_to : List Host → Server S → Server S
  unfolding send_append_entries
  send_append_entries_to [] s = s
  send_append_entries_to (h ∷ hs) s = send_append_entries_to hs (send_append_entries h s)

  unfoldable pub broadcast_append_entries : Server S → Server S
  broadcast_append_entries s = send_append_entries_to s.peers s

  -- From the first entry that is not there: cut a conflicting suffix, append, persist the change.
  unfoldable pub splice : Storage S → ℕ → List LogEntry → Server S → Server S
  unfolding append_all
  splice st idx es s =
      let cut = if leb idx (last_index s.log) then truncate_from s.log idx else s.log in
      emit (saved_entries idx es)
        (record s { log = append_all cut es; storage = st.append_entries s.storage idx es })

  -- The outer loop, at the entry of index `idx`.
  unfoldable pub append_from : Storage S → ℕ → List LogEntry → Server S → Server S
  append_from st idx [] s = s
  append_from st idx (e ∷ es) s =
      let rest = append_from st (idx + 1) es s in
      let have = leb idx (last_index s.log) && term_at s.log idx == e.term in
      if have then rest else splice st idx (e ∷ es) s

  unfoldable pub append_conflict_free : Storage S → ℕ → List LogEntry → Server S → Server S
  append_conflict_free st prev es s = append_from st (prev + 1) es s

  -- The loop of `applyCommitted`, with `rounds` = commitIndex - lastApplied.
  unfoldable pub apply_rounds : ℕ → Server S → Option (Server S)
  apply_rounds zero s = some s
  apply_rounds (suc rounds) s =
      let index = s.last_applied + 1 in
      elim (at s.log index) [
        | none ↦ none
        | some e ↦
            apply_rounds rounds
              (emit (applied index e.term e.command) (record s { last_applied = index }))
      ]

  unfoldable pub apply_committed : Server S → Option (Server S)
  apply_committed s = apply_rounds (s.commit_index - s.last_applied) s

  -- `matches`: the leader's own last index, then each peer's match index.
  unfoldable pub match_list : Server S → List Host → List ℕ
  match_list s [] = []
  match_list s (h ∷ hs) = or_default 0 (lookup h s.match_index) ∷ match_list s hs

  unfoldable pub maybe_advance_commit : Server S → Option (Server S)
  maybe_advance_commit s =
      let matches = last_index s.log ∷ match_list s s.peers in
      let new_commit =
        advance_commit_index s.commit_index s.current_term s.log matches (length s.peers + 1) in
      if ltb s.commit_index new_commit
      then apply_committed (record s { commit_index = new_commit })
      else some s
