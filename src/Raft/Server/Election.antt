-- ===== src/Raft/Server/Election.antt =====
-- The election half of pkg/protocols/raft/protocol.go: standing, counting votes, taking the lead.
use protorun.Prelude.{
  ℕ, ◌+◌, ◌/◌, Bool, true, false, List, [], ◌∷◌, length, leb, if◌then◌else◌, insert,
}
use protorun.Transport.Host.{Host, host_eq}
use protorun.Raft.Log.{last_index, last_term}
use protorun.Raft.Storage.{Storage}
use protorun.Raft.Messages.{RequestVote}
use protorun.Raft.Server.{
  Server, Message, leader, candidate, send, u64, reset_election_timer, clear_leader, set_leader,
  persist_term, is_leader,
}
use protorun.Raft.Server.Replication.{broadcast_append_entries}

-- `randomElectionTimeout`, for the number that `Int64N` drew below the span of the configuration.
unfoldable pub random_election_timeout : (timeout_min draw : ℕ) → ℕ
random_election_timeout timeout_min draw = timeout_min + draw

module _ {S : Type 0} where
  unfoldable pub won_election : Server S → Bool
  won_election s =
      let majority = (length s.peers + 1) / 2 + 1 in leb majority (length s.votes_granted)

  -- The loop that sets both indices of each peer.
  unfoldable pub init_indices : ℕ → List Host → Server S → Server S
  init_indices last [] s = s
  init_indices last (h ∷ hs) s = init_indices last hs (record s {
    next_index = insert h (last + 1) s.next_index;
    match_index = insert h 0 s.match_index;
  })

  unfoldable pub become_leader : Server S → Server S
  unfolding init_indices set_leader broadcast_append_entries
  become_leader s =
      let s₁ = record s {
        role = leader;
        election_armed = false;
        next_index = [];
        match_index = [];
      } in
      let s₂ = init_indices (last_index s.log) s.peers s₁ in
      let s₃ = set_leader s.self s₂ in
      broadcast_append_entries (record s₃ { heartbeat_armed = true })

  unfoldable pub send_request_votes : RequestVote → List Host → Server S → Server S
  send_request_votes rv [] s = s
  send_request_votes rv (h ∷ hs) s = send_request_votes rv hs (send (Message.request_vote rv) h s)

  -- `startElection` up to the requests: the new term, the vote for itself, the write.
  unfoldable pub stand : Storage S → Server S → Server S
  unfolding clear_leader persist_term reset_election_timer
  stand st s =
      let s₁ = clear_leader (record s {
        role = candidate;
        current_term = u64 (s.current_term + 1);
        voted_for = s.self;
        has_voted = true;
      }) in
      let s₂ = record s₁ { votes_granted = (s.self, true) ∷ [] } in
      reset_election_timer (persist_term st s₂)

  abbrev pub request_of : Server S → RequestVote
  request_of s = record {
    term = s.current_term;
    last_log_index = last_index s.log;
    last_log_term = last_term s.log;
  }

  -- The end of `startElection` and of `onRequestVoteReply`.
  unfoldable pub lead_if_won : Server S → Server S
  unfolding won_election
  lead_if_won s = if won_election s then become_leader s else s

  unfoldable pub start_election : Storage S → Server S → Server S
  unfolding stand send_request_votes lead_if_won
  start_election st s =
      let s₁ = stand st s in lead_if_won (send_request_votes (request_of s₁) s₁.peers s₁)

  unfoldable pub on_election_timeout : Storage S → Server S → Server S
  on_election_timeout st s = if is_leader s.role then s else start_election st s
