-- ===== src/Raft/Server/Handlers.antt =====
-- The message and request handlers of pkg/protocols/raft/protocol.go.
use protorun.Prelude.{
  ℕ, ◌+◌, ◌-◌, min, max, Bool, true, false, not, ◌&&◌, ◌||◌, [], ◌∷◌, Option, some, length, ltb,
  ◌==◌, if◌then◌else◌, lookup, insert, or_default, same,
}
use protorun.Transport.Host.{Host, host_eq}
use protorun.Wire.{Bytes}
use protorun.Raft.Log.{LogEntry, last_index, last_term, term_at, append}
use protorun.Raft.Rules.{log_is_up_to_date}
use protorun.Raft.Storage.{Storage}
use protorun.Raft.Messages.{RequestVote, RequestVoteReply, AppendEntries, AppendEntriesReply}
use protorun.Raft.Server.{
  ◌>>=◌, Server, Message, follower, saved_entries, replied, failed_not_leader, replied_debug, emit,
  send, u64, is_leader, is_candidate, reset_election_timer, set_leader, persist_term, step_down,
}
use protorun.Raft.Server.Replication.{
  append_conflict_free, apply_committed, maybe_advance_commit, send_append_entries,
  broadcast_append_entries,
}
use protorun.Raft.Server.Election.{lead_if_won}

module _ {S : Type 0} where
  -- Adopt a higher term before anything else is decided.
  unfoldable pub adopt_term : Storage S → ℕ → Server S → Server S
  adopt_term st term s = if ltb s.current_term term then step_down st term s else s

  unfoldable pub may_grant : Server S → RequestVote → Host → Bool
  may_grant s m from =
      m.term == s.current_term
      && (not s.has_voted || same s.voted_for from)
      && log_is_up_to_date m.last_log_term m.last_log_index (last_term s.log) (last_index s.log)

  unfoldable pub grant_vote : Storage S → Host → Server S → Server S
  unfolding persist_term reset_election_timer
  grant_vote st from s =
      reset_election_timer (persist_term st (record s { voted_for = from; has_voted = true }))

  unfoldable pub on_request_vote : Storage S → RequestVote → Host → Server S → Server S
  unfolding adopt_term may_grant grant_vote
  on_request_vote st m from s =
      let s₁ = adopt_term st m.term s in
      let grant = may_grant s₁ m from in
      let s₂ = if grant then grant_vote st from s₁ else s₁ in
      send (Message.request_vote_reply (record { term = s₂.current_term; vote_granted = grant }))
        from s₂

  -- A granted vote counts once for each peer.
  unfoldable pub collect_vote : Host → Server S → Server S
  collect_vote from s = lead_if_won (record s { votes_granted = insert from true s.votes_granted })

  unfoldable pub on_request_vote_reply : Storage S → RequestVoteReply → Host → Server S → Server S
  unfolding collect_vote
  on_request_vote_reply st m from s =
      if ltb s.current_term m.term
      then step_down st m.term s
      else if not (is_candidate s.role) || not (m.term == s.current_term)
      then s
      else if m.vote_granted
      then collect_vote from s
      else s

  unfoldable pub reply_entries : ℕ → ℕ → Bool → Host → Server S → Server S
  reply_entries term index done from s =
      send
        (Message.append_entries_reply (record { term = term; match_index = index; success = done }))
        from s

  -- `from` is the leader of the term: follow it.
  unfoldable pub follow : Storage S → ℕ → Host → Server S → Server S
  unfolding adopt_term set_leader reset_election_timer
  follow st term from s =
      reset_election_timer (set_leader from (record (adopt_term st term s) { role = follower }))

  unfoldable pub fails_check : Server S → AppendEntries → Bool
  fails_check s m =
      ltb (last_index s.log) m.prev_log_index
      || not (term_at s.log m.prev_log_index == m.prev_log_term)

  unfoldable pub advance_to_leader : ℕ → ℕ → Server S → Option (Server S)
  advance_to_leader leader_commit index s =
      if ltb s.commit_index leader_commit
      then apply_committed (record s { commit_index = min leader_commit index })
      else some s

  -- The check has passed: splice, commit, answer.
  unfoldable pub accept_entries : Storage S → AppendEntries → Host → Server S → Option (Server S)
  unfolding reply_entries advance_to_leader
  accept_entries st m from s =
      let s₁ = append_conflict_free st m.prev_log_index m.entries s in
      let index = m.prev_log_index + length m.entries in
      do
        s₂ ← advance_to_leader m.leader_commit index s₁
        some (reply_entries s₂.current_term index true from s₂)

  unfoldable pub on_append_entries : Storage S → AppendEntries → Host → Server S → Option (Server S)
  unfolding reply_entries follow fails_check accept_entries
  on_append_entries st m from s =
      if ltb m.term s.current_term
      then some (reply_entries s.current_term 0 false from s)
      else let s₁ = follow st m.term from s in
        if fails_check s₁ m
        then some (reply_entries s₁.current_term 0 false from s₁)
        else accept_entries st m from s₁

  -- The bookkeeping on success: the match index never falls.
  unfoldable pub record_match : Host → ℕ → Server S → Server S
  record_match from index s =
      let known = max (or_default 0 (lookup from s.match_index)) index in
      record s {
        match_index = insert from known s.match_index;
        next_index = insert from (u64 (known + 1)) s.next_index;
      }

  -- And on failure: one step back, never below 1.
  unfoldable pub back_off : Host → Server S → Server S
  back_off from s =
      let ni = or_default 0 (lookup from s.next_index) in
      if ltb 1 ni then record s { next_index = insert from (ni - 1) s.next_index } else s

  unfoldable pub on_append_entries_reply :
      Storage S → AppendEntriesReply → Host → Server S → Option (Server S)
  unfolding record_match back_off
  on_append_entries_reply st m from s =
      if ltb s.current_term m.term
      then some (step_down st m.term s)
      else if not (is_leader s.role) || not (m.term == s.current_term)
      then some s
      else if m.success
      then maybe_advance_commit (record_match from m.match_index s)
      else some (send_append_entries from (back_off from s))

  -- The leader's own append, persisted at once.
  unfoldable pub append_own : Storage S → Bytes → Server S → Server S
  append_own st command s =
      let entry : LogEntry = record { term = s.current_term; command = command } in
      let (log, index) = append s.log entry in
      emit (saved_entries index (entry ∷ []))
        (record s { log = log; storage = st.append_entries s.storage index (entry ∷ []) })

  unfoldable pub handle_propose : Storage S → Bytes → Server S → Option (Server S)
  unfolding append_own
  handle_propose st command s =
      if not (is_leader s.role)
      then some (emit (failed_not_leader s.leader s.has_leader) s)
      else let s₁ = append_own st command s in
        do
          s₂ ← maybe_advance_commit s₁
          some (broadcast_append_entries (emit (replied (last_index s₁.log) s₂.current_term) s₂))

  unfoldable pub handle_debug_state : Server S → Server S
  handle_debug_state s =
      emit
        (replied_debug (record {
          role = s.role;
          term = s.current_term;
          commit_index = s.commit_index;
          last_applied = s.last_applied;
          last_log_index = last_index s.log;
          last_log_term = last_term s.log;
          leader = s.leader;
          has_leader = s.has_leader;
        }))
        s
