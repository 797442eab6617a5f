-- ===== src/Paxos/Node/Proposer.antt =====
-- The proposer's half of pkg/protocols/paxos/protocol.go, and the message handlers.
use protorun.Prelude.{
  ℕ, ◌+◌, true, not, ◌||◌, List, [], ◌∷◌, ◌++◌, none, some, length, leb, ◌==◌, if◌then◌else◌, Map,
  lookup, insert,
}
use protorun.Transport.Host.{Host, host_eq}
use protorun.Wire.{Bytes}
use protorun.Paxos.Rules.{PromiseInfo, majority_size, next_ballot, choose_value}
use protorun.Paxos.Storage.{Storage}
use protorun.Paxos.Messages.{Prepare, Promise, Accept, Accepted, AcceptNack}
use protorun.Paxos.Node.{
  Node, Message, replied, failed_already_decided, replied_debug, emit, send, send_all,
  observe_ballot, accept_prepare, accept_accept, record_accepted, broadcast_accepted,
}

-- `randomBackoff`, for the number that `Int64N` drew below the span of the configuration.
unfoldable pub random_backoff : (timeout_min draw : ℕ) → ℕ
random_backoff timeout_min draw = timeout_min + draw

-- The promises in hand, in the order of the peers, self last.
unfoldable pub infos_of : Map Host PromiseInfo → List Host → List PromiseInfo
infos_of promises [] = []
infos_of promises (h ∷ hs) = elim (lookup h promises) [
  | none ↦ infos_of promises hs
  | some info ↦ info ∷ infos_of promises hs
]

module _ {S : Type 0} where
  unfoldable pub begin_phase2 : Storage S → Node S → Node S
  unfolding infos_of
  begin_phase2 st s =
      if not (s.phase == 1)
      then s
      else let s₁ = record s { phase = 2 } in
        let infos = infos_of s₁.promises (s₁.peers ++ s₁.self ∷ []) in
        let value = (choose_value infos s₁.my_value).0 in
        let (s₂, ok, _) = accept_accept st s₁.my_ballot value s₁ in
        let s₃ = if ok then broadcast_accepted s₁.my_ballot value s₂ else s₂ in
        send_all (Message.accept (record { ballot = s₃.my_ballot; value = value })) s₃.peers s₃

  -- A quorum of promises starts phase 2.
  unfoldable pub phase2_if_quorum : Storage S → Node S → Node S
  unfolding begin_phase2
  phase2_if_quorum st s =
      if leb (majority_size s.size) (length s.promises) then begin_phase2 st s else s

  -- The round's ballot, and the promise to itself.
  unfoldable pub open_round : Storage S → Node S → Node S
  unfolding observe_ballot
  open_round st s =
      let s₁ = record s {
        proposing = true;
        phase = 1;
        my_ballot = next_ballot s.max_seen s.size s.index;
      } in
      let s₂ = record (observe_ballot s₁.my_ballot s₁) { promises = [] } in
      let (s₃, ok, _, info) = accept_prepare st s₂.my_ballot s₂ in
      if ok then record s₃ { promises = insert s₃.self info s₃.promises } else s₃

  unfoldable pub start_round : Storage S → Node S → Node S
  unfolding open_round send_all phase2_if_quorum
  start_round st s =
      if s.decided
      then s
      else let s₁ = open_round st s in
        let s₂ = send_all (Message.prepare (record { ballot = s₁.my_ballot })) s₁.peers s₁ in
        phase2_if_quorum st (record s₂ { retry_armed = true })

  unfoldable pub on_retry_timeout : Storage S → Node S → Node S
  on_retry_timeout st s = if s.decided || not s.proposing then s else start_round st s

  unfoldable pub on_prepare : Storage S → Prepare → Host → Node S → Node S
  on_prepare st m from s =
      let (s₁, ok, max_ballot, info) = accept_prepare st m.ballot s in
      send
        (Message.promise (record {
          ballot = m.ballot;
          ok_flag = ok;
          max_ballot = max_ballot;
          accepted_ballot = info.accepted_ballot;
          accepted_value = info.accepted_value;
          has_accepted = info.has_accepted;
        }))
        from s₁

  unfoldable pub on_accept : Storage S → Accept → Host → Node S → Node S
  on_accept st m from s =
      let (s₁, ok, max_ballot) = accept_accept st m.ballot m.value s in
      if ok
      then broadcast_accepted m.ballot m.value s₁
      else send (Message.accept_nack (record { max_ballot = max_ballot })) from s₁

  unfoldable pub on_promise : Storage S → Promise → Host → Node S → Node S
  unfolding observe_ballot phase2_if_quorum
  on_promise st m from s =
      if not m.ok_flag
      then observe_ballot m.max_ballot s
      else if s.decided
          || (not s.proposing || (not (s.phase == 1) || not (m.ballot == s.my_ballot)))
      then s
      else phase2_if_quorum st (record s {
        promises =
            insert from
              (record {
                accepted_ballot = m.accepted_ballot;
                accepted_value = m.accepted_value;
                has_accepted = m.has_accepted;
              })
              s.promises;
      })

  unfoldable pub on_accept_nack : AcceptNack → Host → Node S → Node S
  unfolding observe_ballot
  on_accept_nack m from s = observe_ballot m.max_ballot s

  unfoldable pub on_accepted : Accepted → Host → Node S → Node S
  unfolding record_accepted
  on_accepted m from s = record_accepted m.ballot m.value from s

  unfoldable pub handle_propose : Storage S → Bytes → Node S → Node S
  handle_propose st value s =
      if s.decided
      then emit (failed_already_decided s.decided_value s.decided_ballot) s
      else let s₁ = if s.proposing then s else start_round st (record s { my_value = value }) in
        emit replied s₁

  unfoldable pub handle_debug_state : Node S → Node S
  handle_debug_state s =
      emit
        (replied_debug (record {
          promised = s.promised;
          accepted_ballot = s.accepted_ballot;
          accepted_value = s.accepted_value;
          has_accepted = s.has_accepted;
          decided = s.decided;
          decided_value = s.decided_value;
          decided_ballot = s.decided_ballot;
          proposing = s.proposing;
          my_ballot = s.my_ballot;
        }))
        s
