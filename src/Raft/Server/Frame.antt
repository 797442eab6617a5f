-- ===== src/Raft/Server/Frame.antt =====
-- What the loops of the server leave alone: all but the indices, the votes, what is applied, and
-- the trace.
use protorun.Prelude.{
  ℕ, zero, suc, ◌+◌, ◌≡◌, refl, List, [], ◌∷◌, some, arith, if◌then◌else◌, insert, or_default, ◌≤◌,
  false, dec_lt, lookup, ◌-◌,
}
use protorun.Transport.Host.{Host, host_eq}
use protorun.Raft.Log.{last_index}
use protorun.Raft.Messages.{RequestVote}
use protorun.Raft.Log.Laws.{at-some}
use protorun.Prelude.{max}
use protorun.Raft.Server.{
  send, Message, connected, Server, applied, emit, connect_peers, ensure_connections,
  applied_indices, down_from,
}
use protorun.Raft.Server.Replication.{
  send_append_entries, send_append_entries_to, broadcast_append_entries, apply_rounds,
  apply_committed,
}
use protorun.Raft.Server.Election.{send_request_votes, init_indices}

-- What is published as applied: the indices up to `last_applied`, each once, in order.
module _ {S : Type 0} where
  abbrev pub InOrder : Server S → Type 0
  InOrder s = applied_indices s.trace ≡ down_from s.last_applied

pub record Frame {S : Type 0} (s t : Server S) : Type 0 where
  pub self_kept : t.self ≡ s.self
  pub peers_kept : t.peers ≡ s.peers
  pub term_kept : t.current_term ≡ s.current_term
  pub voted_for_kept : t.voted_for ≡ s.voted_for
  pub has_voted_kept : t.has_voted ≡ s.has_voted
  pub log_kept : t.log ≡ s.log
  pub role_kept : t.role ≡ s.role
  pub commit_kept : t.commit_index ≡ s.commit_index
  pub storage_kept : t.storage ≡ s.storage
  pub election_kept : t.election_armed ≡ s.election_armed
  pub heartbeat_kept : t.heartbeat_armed ≡ s.heartbeat_armed
  pub order_kept : InOrder s → InOrder t

module _ {S : Type 0} where
  pub Frame-refl : (s : Server S) → Frame s s
  Frame-refl s = ground arith

  pub Frame-trans : {s t u : Server S} → Frame s t → Frame t u → Frame s u
  Frame-trans f g = ground arith

  pub send_append_entries_to-Frame :
      (hs : List Host) (s : Server S) → Frame s (send_append_entries_to hs s)
  unfolding send_append_entries_to
  send_append_entries_to-Frame [] s = Frame-refl s
  send_append_entries_to-Frame (h ∷ hs) s =
      let f = send_append_entries_to-Frame hs (send_append_entries h s) in ground arith

  pub broadcast_append_entries-Frame : (s : Server S) → Frame s (broadcast_append_entries s)
  unfolding broadcast_append_entries
  broadcast_append_entries-Frame s = send_append_entries_to-Frame s.peers s

  pub send_request_votes-Frame :
      (rv : RequestVote) (hs : List Host) (s : Server S) → Frame s (send_request_votes rv hs s)
  unfolding send_request_votes
  send_request_votes-Frame rv [] s = Frame-refl s
  send_request_votes-Frame rv (h ∷ hs) s =
      let t = send (Message.request_vote rv) h s in
      Frame-trans {t = t} (ground arith) (send_request_votes-Frame rv hs t)

  pub init_indices-Frame :
      (last : ℕ) (hs : List Host) (s : Server S) → Frame s (init_indices last hs s)
  unfolding init_indices
  init_indices-Frame last [] s = Frame-refl s
  init_indices-Frame last (h ∷ hs) s =
      let t = record s {
        next_index = insert h (last + 1) s.next_index;
        match_index = insert h 0 s.match_index;
      } in
      Frame-trans {t = t} (ground arith) (init_indices-Frame last hs t)

  pub connect_peers-Frame : (hs : List Host) (s : Server S) → Frame s (connect_peers hs s)
  unfolding connect_peers
  connect_peers-Frame [] s = Frame-refl s
  connect_peers-Frame (h ∷ hs) s =
      let t = (if or_default false (lookup h s.sessions) then s else emit (connected h) s) in
      Frame-trans {t = t} (ground arith) (connect_peers-Frame hs t)

  pub ensure_connections-Frame : (s : Server S) → Frame s (ensure_connections s)
  unfolding ensure_connections
  ensure_connections-Frame s = connect_peers-Frame s.peers s

  -- The apply loop ends, where the log has what it applies, and leaves the same alone.
  pub apply_rounds-Frame :
      (rounds : ℕ) (s : Server S)
      → s.last_applied + rounds ≤ last_index s.log
      → (t : Server S) × (apply_rounds rounds s ≡ some t)
        × Frame s t
        × (t.last_applied ≡ s.last_applied + rounds)
  unfolding apply_rounds
  apply_rounds-Frame zero s h = (s, refl, Frame-refl s, omega arith)
  apply_rounds-Frame (suc rounds) s h =
      let (e, found) = at-some s.log (s.last_applied + 1) (omega arith) (omega arith) in
      let t =
        emit (applied (s.last_applied + 1) e.term e.command)
          (record s { last_applied = s.last_applied + 1 }) in
      let (u, done, f, n) = apply_rounds-Frame rounds t (omega arith) in
      (u, rw (found, apply_rounds) done, Frame-trans {t = t} (ground arith) f, omega arith)

  pub apply_committed-Frame :
      (s : Server S)
      → s.commit_index ≤ last_index s.log
      → (t : Server S) × (apply_committed s ≡ some t)
        × Frame s t
        × (t.last_applied ≡ max s.last_applied s.commit_index)
  unfolding apply_committed
  apply_committed-Frame s h = elim (dec_lt s.last_applied s.commit_index) [
    | yes lt ↦
        let (t, done, f, n) =
          apply_rounds-Frame (s.commit_index - s.last_applied) s (omega arith) in
        (t, done, f, omega arith)
    | no ge ↦
        let e : s.commit_index - s.last_applied ≡ 0 = omega arith in
        (s, rw e (unfold apply_rounds in refl), Frame-refl s, omega arith)
  ]
