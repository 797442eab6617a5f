-- ===== src/Paxos/Node/Events.antt =====
-- Each handler of pkg/protocols/paxos/protocol.go, and each event, keeps what `Kept` lists.
use protorun.Prelude.{
  nat_eq, refl, true, false, not, ◌||◌, List, [], ◌∷◌, if◌then◌else◌, if_elim, or_default, lookup,
  insert, ◌==◌,
}
use protorun.Transport.Host.{Host, host_eq}
use protorun.Wire.{Bytes}
use protorun.Paxos.Rules.{PromiseInfo}
use protorun.Paxos.Storage.{Storage}
use protorun.Paxos.Messages.{Prepare, Promise, Accept}
use protorun.Paxos.Node.{
  Node, Message, connected, emit, send, observe_ballot, accept_accept, broadcast_accepted, replied,
  failed_already_decided,
}
use protorun.Paxos.Node.Proposer.{
  phase2_if_quorum, start_round, on_retry_timeout, on_prepare, on_promise, on_accept, on_accepted,
  on_accept_nack, handle_propose, handle_debug_state,
}
use protorun.Paxos.Node.Step.{
  Input, got_prepare, got_promise, got_accept, got_accepted, got_accept_nack, proposed,
  asked_debug_state, retry_timeout, reconnect_tick, session_connected, session_disconnected,
  session_given_up, connect_peers, ensure_connections, on_session_connected, step,
}
use protorun.Paxos.Node.Kept.{Kept, Kept-refl, Kept-trans, Kept-of_same, observe_ballot-Kept}
use protorun.Paxos.Node.Steps.{
  accept_prepare-Kept, accept_accept-Kept, broadcast_accepted-Kept, record_accepted-Kept,
  phase2_if_quorum-Kept, start_round-Kept,
}

module _ {S : Type 0} (st : Storage S) where
  connect_peers-Kept : (hs : List Host) (s : Node S) → Kept st s (connect_peers hs s)
  unfolding connect_peers
  connect_peers-Kept [] s = Kept-refl s
  connect_peers-Kept (h ∷ hs) s =
      let t = emit (connected h) s in
      Kept-trans
        (if_elim (Kept st s) (or_default false (lookup h s.sessions)) s t (λ _. Kept-refl s)
          (λ _. Kept-of_same s t refl))
        (connect_peers-Kept hs _)

  on_retry_timeout-Kept : (s : Node S) → Kept st s (on_retry_timeout st s)
  unfolding on_retry_timeout
  on_retry_timeout-Kept s =
      if_elim (Kept st s) (s.decided || not s.proposing) s (start_round st s) (λ _. Kept-refl s)
        (λ _. start_round-Kept st s)

  on_prepare-Kept : (m : Prepare) (from : Host) (s : Node S) → Kept st s (on_prepare st m from s)
  unfolding on_prepare
  on_prepare-Kept m from s = Kept-trans (accept_prepare-Kept st m.ballot s) (Kept-of_same _ _ refl)

  on_accept-Kept : (m : Accept) (from : Host) (s : Node S) → Kept st s (on_accept st m from s)
  unfolding on_accept
  on_accept-Kept m from s =
      let r = accept_accept st m.ballot m.value s in
      let t = send (Message.accept_nack (record { max_ballot = r.2 })) from r.0 in
      Kept-trans {t = r.0} (accept_accept-Kept st m.ballot m.value s) (
        if_elim (Kept st r.0) r.1 (broadcast_accepted m.ballot m.value r.0) t
          (λ _. broadcast_accepted-Kept st m.ballot m.value r.0) (λ _. Kept-of_same r.0 t refl))

  on_promise-Kept : (m : Promise) (from : Host) (s : Node S) → Kept st s (on_promise st m from s)
  unfolding on_promise
  on_promise-Kept m from s =
      let info : PromiseInfo = record {
        accepted_ballot = m.accepted_ballot;
        accepted_value = m.accepted_value;
        has_accepted = m.has_accepted;
      } in
      let t = record s { promises = insert from info s.promises } in
      let idle =
        s.decided || (not s.proposing || (not (s.phase == 1) || not (m.ballot == s.my_ballot))) in
      if_elim (Kept st s) (not m.ok_flag) (observe_ballot m.max_ballot s)
        (if idle then s else phase2_if_quorum st t) (λ _. observe_ballot-Kept m.max_ballot s)
        λ _.
          if_elim (Kept st s) idle s (phase2_if_quorum st t) (λ _. Kept-refl s)
            λ _. Kept-trans {t = t} (Kept-of_same s t refl) (phase2_if_quorum-Kept st t)

  handle_propose-Kept : (value : Bytes) (s : Node S) → Kept st s (handle_propose st value s)
  unfolding handle_propose
  handle_propose-Kept value s =
      let failed = emit (failed_already_decided s.decided_value s.decided_ballot) s in
      let s₁ = record s { my_value = value } in
      let s₂ = (if s.proposing then s else start_round st s₁) in
      if_elim (Kept st s) s.decided failed (emit replied s₂) (λ _. Kept-of_same s failed refl)
        λ _.
          Kept-trans {t = s₂}
            (if_elim (Kept st s) s.proposing s (start_round st s₁) (λ _. Kept-refl s)
              λ _. Kept-trans {t = s₁} (Kept-of_same s s₁ refl) (start_round-Kept st s₁))
            (Kept-of_same s₂ (emit replied s₂) refl)

  on_session_connected-Kept : (h : Host) (s : Node S) → Kept st s (on_session_connected h s)
  unfolding on_session_connected
  on_session_connected-Kept h s =
      let t = record s { sessions = insert h true s.sessions } in
      let news =
        Message.accepted (record { ballot = t.accepted_ballot; value = t.accepted_value }) in
      if_elim (Kept st s) t.has_accepted (send news h t) t
        (λ _. Kept-of_same s (send news h t) refl) (λ _. Kept-of_same s t refl)

  pub ensure_connections-Kept : (s : Node S) → Kept st s (ensure_connections s)
  unfolding ensure_connections
  ensure_connections-Kept s = connect_peers-Kept s.peers s

  -- Every event keeps what `Kept` lists.
  pub step-Kept : (i : Input) (s : Node S) → Kept st s (step st i s)
  unfolding step handle_debug_state on_accept_nack on_accepted
  step-Kept (got_prepare m from) s = on_prepare-Kept m from s
  step-Kept (got_promise m from) s = on_promise-Kept m from s
  step-Kept (got_accept m from) s = on_accept-Kept m from s
  step-Kept (got_accepted m from) s = record_accepted-Kept st m.ballot m.value from s
  step-Kept (got_accept_nack m from) s = observe_ballot-Kept m.max_ballot s
  step-Kept (proposed value) s = handle_propose-Kept value s
  step-Kept asked_debug_state s = Kept-of_same s _ refl
  step-Kept retry_timeout s =
      let t = record s { retry_armed = false } in
      if_elim (Kept st s) s.retry_armed (on_retry_timeout st t) s
        (λ _. Kept-trans {t = t} (Kept-of_same s t refl) (on_retry_timeout-Kept t))
        (λ _. Kept-refl s)
  step-Kept reconnect_tick s = ensure_connections-Kept s
  step-Kept (session_connected h) s = on_session_connected-Kept h s
  step-Kept (session_disconnected h) s = Kept-of_same s _ refl
  step-Kept (session_given_up h n) s = Kept-of_same s _ refl
