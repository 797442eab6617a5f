-- ===== src/Paxos/Node/Step.antt =====
-- One event of the loop that owns a paxos participant: what `Start` registers, the timers, the
-- sessions.
use protorun.Prelude.{
  ℕ, true, false, List, [], ◌∷◌, if◌then◌else◌, lookup, insert, delete, or_default,
}
use protorun.Transport.Host.{Host, host_eq}
use protorun.Wire.{Bytes}
use protorun.Paxos.Storage.{Storage}
use protorun.Paxos.Messages.{Prepare, Promise, Accept, Accepted, AcceptNack}
use protorun.Paxos.Node.{Node, Message, connected, emit, send}
use protorun.Paxos.Node.Proposer.{
  on_retry_timeout, on_prepare, on_promise, on_accept, on_accepted, on_accept_nack, handle_propose,
  handle_debug_state,
}

pub data Input : Type 0 where
  got_prepare : Prepare → Host → Input
  got_promise : Promise → Host → Input
  got_accept : Accept → Host → Input
  got_accepted : Accepted → Host → Input
  got_accept_nack : AcceptNack → Host → Input
  proposed : Bytes → Input
  asked_debug_state retry_timeout reconnect_tick : Input
  session_connected session_disconnected : Host → Input
  session_given_up : Host → ℕ → Input

module _ {S : Type 0} where
  unfoldable pub connect_peers : List Host → Node S → Node S
  connect_peers [] s = s
  connect_peers (h ∷ hs) s =
      connect_peers hs (if or_default false (lookup h s.sessions) then s else emit (connected h) s)

  unfoldable pub ensure_connections : Node S → Node S
  ensure_connections s = connect_peers s.peers s

  unfoldable pub init : Storage S → Node S → Node S
  init st s =
      let ps = st.load s.storage in
      ensure_connections (record s {
        promised = ps.promised;
        accepted_ballot = ps.accepted_ballot;
        accepted_value = ps.accepted_value;
        has_accepted = ps.has_accepted;
        max_seen = ps.promised;
      })

  -- A fresh session hears what this node has accepted.
  unfoldable pub on_session_connected : Host → Node S → Node S
  on_session_connected h s =
      let s₁ = record s { sessions = insert h true s.sessions } in
      if s₁.has_accepted
      then send
          (Message.accepted (record { ballot = s₁.accepted_ballot; value = s₁.accepted_value })) h
          s₁
      else s₁

  unfoldable pub on_session_disconnected : Host → Node S → Node S
  on_session_disconnected h s = record s { sessions = delete h s.sessions }

  unfoldable pub on_session_given_up : Host → ℕ → Node S → Node S
  on_session_given_up h n s = record s { sessions = delete h s.sessions }

  -- A cancelled timer does not fire, and the retry timer fires once.
  unfoldable pub step : Storage S → Input → Node S → Node S
  unfolding on_session_connected on_session_disconnected on_session_given_up
  step st (got_prepare m from) s = on_prepare st m from s
  step st (got_promise m from) s = on_promise st m from s
  step st (got_accept m from) s = on_accept st m from s
  step st (got_accepted m from) s = on_accepted m from s
  step st (got_accept_nack m from) s = on_accept_nack m from s
  step st (proposed value) s = handle_propose st value s
  step st asked_debug_state s = handle_debug_state s
  step st retry_timeout s =
      if s.retry_armed then on_retry_timeout st (record s { retry_armed = false }) else s
  step st reconnect_tick s = ensure_connections s
  step st (session_connected h) s = on_session_connected h s
  step st (session_disconnected h) s = on_session_disconnected h s
  step st (session_given_up h n) s = on_session_given_up h n s
