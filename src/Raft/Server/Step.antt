-- ===== src/Raft/Server/Step.antt =====
-- One event of the loop that owns a raft server: what `Start` registers, the timers, the sessions.
use protorun.Prelude.{ℕ, true, false, Option, some, if◌then◌else◌, insert, delete}
use protorun.Transport.Host.{Host, host_eq}
use protorun.Wire.{Bytes}
use protorun.Raft.Storage.{Storage}
use protorun.Raft.Messages.{RequestVote, RequestVoteReply, AppendEntries, AppendEntriesReply}
use protorun.Raft.Server.{Server, reset_election_timer, ensure_connections}
use protorun.Raft.Server.Replication.{broadcast_append_entries}
use protorun.Raft.Server.Election.{on_election_timeout}
use protorun.Raft.Server.Handlers.{
  on_request_vote, on_request_vote_reply, on_append_entries, on_append_entries_reply,
  handle_propose, handle_debug_state,
}

pub data Input : Type 0 where
  got_request_vote : RequestVote → Host → Input
  got_request_vote_reply : RequestVoteReply → Host → Input
  got_append_entries : AppendEntries → Host → Input
  got_append_entries_reply : AppendEntriesReply → Host → Input
  proposed : Bytes → Input
  asked_debug_state : Input
  election_timeout heartbeat_tick reconnect_tick : Input
  session_connected session_disconnected : Host → Input
  session_given_up : Host → ℕ → Input

module _ {S : Type 0} where
  -- `Init`: the durable state is read back.
  unfoldable pub init : Storage S → Server S → Server S
  unfolding reset_election_timer
  init st s =
      let ps = st.load s.storage in
      let s₁ = record s {
        current_term = ps.current_term;
        voted_for = ps.voted_for;
        has_voted = ps.has_voted;
        log = ps.log;
      } in
      reset_election_timer (ensure_connections s₁)

  unfoldable pub on_session_connected : Host → Server S → Server S
  on_session_connected h s = record s { sessions = insert h true s.sessions }

  unfoldable pub on_session_disconnected : Host → Server S → Server S
  on_session_disconnected h s = record s { sessions = delete h s.sessions }

  unfoldable pub on_session_given_up : Host → ℕ → Server S → Server S
  on_session_given_up h n s = record s { sessions = delete h s.sessions }

  -- A cancelled timer does not fire, and an election timer fires once.
  unfoldable pub step : Storage S → Input → Server S → Option (Server S)
  unfolding on_session_connected on_session_disconnected on_session_given_up
  step st (got_request_vote m from) s = some (on_request_vote st m from s)
  step st (got_request_vote_reply m from) s = some (on_request_vote_reply st m from s)
  step st (got_append_entries m from) s = on_append_entries st m from s
  step st (got_append_entries_reply m from) s = on_append_entries_reply st m from s
  step st (proposed command) s = handle_propose st command s
  step st asked_debug_state s = some (handle_debug_state s)
  step st election_timeout s =
      if s.election_armed
      then some (on_election_timeout st (record s { election_armed = false }))
      else some s
  step st heartbeat_tick s = if s.heartbeat_armed then some (broadcast_append_entries s) else some s
  step st reconnect_tick s = some (ensure_connections s)
  step st (session_connected h) s = some (on_session_connected h s)
  step st (session_disconnected h) s = some (on_session_disconnected h s)
  step st (session_given_up h n) s = some (on_session_given_up h n s)
