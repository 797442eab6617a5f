-- ===== src/Raft/Server/Voting.antt =====
-- `onRequestVote` on every branch: when a vote is given, and what is written before the answer.
use protorun.Prelude.{
  ℕ, ◌≡◌, max, Bool, true, false, not, ◌&&◌, ◌||◌, List, [], ◌∷◌, ◌++◌, ltb, leb, if◌then◌else◌,
  same, arith, ◌==◌,
}
use protorun.Transport.Host.{Host, host_eq, zero_host}
use protorun.Raft.Log.{last_index, last_term}
use protorun.Raft.Rules.{log_is_up_to_date}
use protorun.Raft.Storage.{Storage}
use protorun.Raft.Messages.{RequestVote}
use protorun.Raft.Server.{
  Server, Message, Effect, sent, saved_term, step_down, follower, clear_leader, is_leader,
}
use protorun.Raft.Server.Handlers.{on_request_vote, adopt_term, may_grant, grant_vote}

-- The writes, newest first: the vote, and before it the adopted term.
abbrev pub vote : Bool → ℕ → Host → List Effect
vote given term from = if given then saved_term term from true ∷ [] else []

abbrev pub adoption : Bool → ℕ → List Effect
adoption higher term = if higher then saved_term term zero_host false ∷ [] else []

module _ {S : Type 0} where
  -- The paper's rule, in terms of the state before the message: a term that is not stale, no vote
  -- for another host in that term, and a log that is at least as up to date.
  abbrev pub grants : Server S → RequestVote → Host → Bool
  grants s m from =
      leb s.current_term m.term
      && (ltb s.current_term m.term || (not s.has_voted || same s.voted_for from))
      && (ltb (last_term s.log) m.last_log_term
          || (m.last_log_term == last_term s.log && leb (last_index s.log) m.last_log_index))

  -- The state that the message leaves: the higher of the two terms; the new vote, or the old one in an
  -- old term; a follower that knows no leader, if the term is new; the election timer is armed by a vote
  -- or a new term, which also stops a leader's heartbeats; the log and what is committed stay.
  pub record Voted (s : Server S) (term : ℕ) (from : Host) (given : Bool) (t : Server S)
      : Type 0 where
    pub term_is : t.current_term ≡ max s.current_term term
    pub has_voted_is : t.has_voted ≡ (given || (not (ltb s.current_term term) && s.has_voted))
    pub voted_for_is :
        t.voted_for
        ≡ (if given then from else if ltb s.current_term term then zero_host else s.voted_for)
    pub role_is : t.role ≡ (if ltb s.current_term term then follower else s.role)
    pub has_leader_is : t.has_leader ≡ (not (ltb s.current_term term) && s.has_leader)
    pub election_is : t.election_armed ≡ (given || (ltb s.current_term term || s.election_armed))
    pub heartbeat_is :
        t.heartbeat_armed ≡ (not (ltb s.current_term term && is_leader s.role) && s.heartbeat_armed)
    pub log_kept : t.log ≡ s.log
    pub commit_kept : t.commit_index ≡ s.commit_index
    pub applied_kept : t.last_applied ≡ s.last_applied

  module _ (st : Storage S) (m : RequestVote) (from : Host) (s : Server S) where
    -- A vote request is answered with the higher of the two terms, and with a vote exactly by the
    -- rule above. The adopted term and the vote are written, in this order, before the answer is
    -- sent; nothing else is written or sent. The term, the vote, the role, whether a leader is
    -- known and the timers are then as `Voted` says, and the log, the commit index and what is applied stay.
    pub on_request_vote-trace :
        let t = on_request_vote st m from s in
        let given = grants s m from in
        (t.trace
          ≡ sent
                (Message.request_vote_reply
                  (record { term = max s.current_term m.term; vote_granted = given }))
                from
              ∷ vote given m.term from
            ++ (adoption (ltb s.current_term m.term) m.term ++ s.trace))
        × Voted s m.term from given t
    unfolding on_request_vote adopt_term step_down grant_vote may_grant log_is_up_to_date
        clear_leader
    on_request_vote-trace = (
      ground arith,
      record {
        term_is = ground arith;
        has_voted_is = ground arith;
        voted_for_is = ground arith;
        role_is = ground arith;
        has_leader_is = ground arith;
        election_is = ground arith;
        heartbeat_is = ground arith;
        log_kept = ground arith;
        commit_kept = ground arith;
        applied_kept = ground arith;
      },
    )
