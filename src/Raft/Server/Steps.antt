-- ===== src/Raft/Server/Steps.antt =====
-- The election handlers keep what `Kept` lists.
use protorun.Raft.Server.Frame.{
  init_indices-Frame, broadcast_append_entries-Frame, send_request_votes-Frame,
}
use protorun.Raft.Log.{last_index}
use protorun.Raft.Messages.{RequestVote, RequestVoteReply}
use protorun.Raft.Server.Handlers.{
  on_request_vote, on_request_vote_reply, grant_vote, adopt_term, collect_vote, may_grant,
}
use protorun.Raft.Server.Election.{
  become_leader, on_election_timeout, start_election, init_indices, lead_if_won, stand,
  won_election, request_of,
}
use protorun.Prelude.{
  ◌+◌, ◌^◌, ◌<◌, ◌≡◌, refl, true, false, [], arith, ltb, if◌then◌else◌, if_elim, ltb→lt,
}
use protorun.Transport.Host.{Host, host_eq, host_beq_iff}
use protorun.Raft.Storage.{Storage}
use protorun.Raft.Server.{Server, leader, RequestVote, last_index, set_leader, u64, is_leader}
use protorun.Raft.Server.Kept.{
  Kept, Kept-refl, Kept-trans, Frame-Kept, Kept-of_same, set_leader-Kept, adopt_term-Kept,
  step_down-Kept, cast_vote-Kept,
}

module _ {S : Type 0} (st : Storage S) where
  pub become_leader-Kept : (s : Server S) → Kept st s (become_leader s)
  unfolding become_leader
  become_leader-Kept s =
      let s₁ = record s {
        role = leader;
        election_armed = false;
        next_index = [];
        match_index = [];
      } in
      let s₂ = init_indices (last_index s.log) s.peers s₁ in
      let s₃ = set_leader s.self s₂ in
      let s₄ = record s₃ { heartbeat_armed = true } in
      Kept-trans {t = s₁} (Kept-of_same s s₁ refl) (
        Kept-trans (Frame-Kept (init_indices-Frame (last_index s.log) s.peers s₁)) (
          Kept-trans (set_leader-Kept st s.self s₂) (
            Kept-trans {t = s₄} (Kept-of_same s₃ s₄ refl)
              (Frame-Kept (broadcast_append_entries-Frame s₄)))))

  pub lead_if_won-Kept : (s : Server S) → Kept st s (lead_if_won s)
  unfolding lead_if_won
  lead_if_won-Kept s =
      if_elim (Kept st s) (won_election s) _ _ (λ _. become_leader-Kept s) (λ _. Kept-refl s)

  -- Standing for election is a new term, if the counter does not wrap.
  pub stand-Kept : (s : Server S) → s.current_term + 1 < 2 ^ 64 → Kept st s (stand st s)
  unfolding stand
  stand-Kept s small = record {
    self_same = refl;
    term_le = omega arith;
    vote_same = λ e h. absurd (omega arith);
    stored_same =
        λ h. ground (arith, st.load-save_term s.storage (u64 (s.current_term + 1)) s.self true);
    order_same = λ h. h;
  }

  pub on_election_timeout-Kept :
      (s : Server S) → s.current_term + 1 < 2 ^ 64 → Kept st s (on_election_timeout st s)
  unfolding on_election_timeout start_election
  on_election_timeout-Kept s small =
      if_elim (Kept st s) (is_leader s.role) _ _ (λ _. Kept-refl s)
        λ _. Kept-trans (stand-Kept s small) (
          Kept-trans
            (Frame-Kept
              (send_request_votes-Frame (request_of (stand st s)) (stand st s).peers (stand st s)))
            (lead_if_won-Kept _))

  pub grant_vote-Kept :
      (m : RequestVote) (from : Host) (s : Server S)
      → may_grant s m from ≡ true
      → Kept st s (grant_vote st from s)
  unfolding grant_vote may_grant
  grant_vote-Kept m from s h =
      Kept-trans (cast_vote-Kept st from s (ground (arith, host_beq_iff s.voted_for from)))
        (Kept-of_same _ _ refl)

  pub on_request_vote-Kept :
      (m : RequestVote) (from : Host) (s : Server S) → Kept st s (on_request_vote st m from s)
  unfolding on_request_vote
  on_request_vote-Kept m from s =
      let s₁ = adopt_term st m.term s in
      let s₂ = (if may_grant s₁ m from then grant_vote st from s₁ else s₁) in
      Kept-trans {t = s₁} (adopt_term-Kept st m.term s) (
        Kept-trans {t = s₂}
          (if_elim (Kept st s₁) (may_grant s₁ m from) _ _ (grant_vote-Kept m from s₁)
            (λ _. Kept-refl s₁))
          (Kept-of_same s₂ _ refl))

  pub collect_vote-Kept : (from : Host) (s : Server S) → Kept st s (collect_vote from s)
  unfolding collect_vote
  collect_vote-Kept from s = Kept-trans (Kept-of_same s _ refl) (lead_if_won-Kept _)

  pub on_request_vote_reply-Kept :
      (m : RequestVoteReply) (from : Host) (s : Server S)
      → Kept st s (on_request_vote_reply st m from s)
  unfolding on_request_vote_reply
  on_request_vote_reply-Kept m from s =
      if_elim (Kept st s) (ltb s.current_term m.term) _ _
        (λ lt. step_down-Kept st m.term s (ltb→lt _ _ lt))
        λ _.
          if_elim (Kept st s) _ _ _ (λ _. Kept-refl s)
            λ _.
              if_elim (Kept st s) m.vote_granted _ _ (λ _. collect_vote-Kept from s)
                (λ _. Kept-refl s)
