-- ===== src/Paxos/Node/History.antt =====
-- What holds over any history of events of a paxos participant
-- (pkg/protocols/paxos/protocol.go).
use protorun.Prelude.{
  ◌≤◌, ◌≡◌, refl, true, false, if◌then◌else◌, arith, ◌∙◌, [], ◌∷◌, List, or_default, lookup,
}
use protorun.Transport.Host.{Host, host_eq}
use protorun.Paxos.Storage.{Storage}
use protorun.Paxos.Node.{Node, new, durable, emit, connected}
use protorun.Paxos.Node.Kept.{Kept, Kept-refl, Kept-trans, decisions}
use protorun.Paxos.Node.Events.{step-Kept, ensure_connections-Kept}
use protorun.Paxos.Node.Step.{Input, step, init, ensure_connections, connect_peers}

module _ {S : Type 0} (st : Storage S) where
  -- The participant after a list of events, the first one first.
  unfoldable pub run : List Input → Node S → Node S
  run [] s = s
  run (i ∷ is) s = run is (step st i s)

  run-Kept : (is : List Input) (s : Node S) → Kept st s (run is s)
  unfolding run
  run-Kept [] s = Kept-refl s
  run-Kept (i ∷ is) s = Kept-trans (step-Kept st i s) (run-Kept is (step st i s))

  -- The promised ballot and the largest ballot seen never fall, over any list of events.
  pub promise_mono :
      (is : List Input) (s : Node S)
      → (s.promised ≤ (run is s).promised) × (s.max_seen ≤ (run is s).max_seen)
  promise_mono is s = ((run-Kept is s).promised_le, (run-Kept is s).max_seen_le)

  -- An acceptor whose accepted ballot is within its promise stays so, and once it has accepted it
  -- goes on having accepted, at a ballot that does not fall.
  pub accepted_mono :
      (is : List Input) (s : Node S)
      → s.accepted_ballot ≤ s.promised
      → s.has_accepted ≡ true
      → ((run is s).has_accepted ≡ true)
        × (s.accepted_ballot ≤ (run is s).accepted_ballot)
        × ((run is s).accepted_ballot ≤ (run is s).promised)
  accepted_mono is s w h =
      let k = run-Kept is s in let a = k.accepted_le w h in (a.0, a.1, k.within w)

  -- A decision is final: after any list of events the value and the ballot are those decided first.
  pub decision_stable :
      (is : List Input) (s : Node S)
      → s.decided ≡ true
      → ((run is s).decided ≡ true)
        × ((run is s).decided_value ≡ s.decided_value)
        × ((run is s).decided_ballot ≡ s.decided_ballot)
  decision_stable is s h = (run-Kept is s).decided_same h

  -- If `Load` returns the acceptor's promise and acceptance, it does so after any list of events.
  pub storage_mirrors_acceptor :
      (is : List Input) (s : Node S)
      → st.load s.storage ≡ durable s
      → st.load (run is s).storage ≡ durable (run is s)
  storage_mirrors_acceptor is s h = (run-Kept is s).stored_same h

  abbrev loaded : Node S → Node S
  loaded s =
      let ps = st.load s.storage in
      record s {
        promised = ps.promised;
        accepted_ballot = ps.accepted_ballot;
        accepted_value = ps.accepted_value;
        has_accepted = ps.has_accepted;
        max_seen = ps.promised;
      }

  connect_peers-durable :
      (hs : List Host) (s : Node S)
      → (durable (connect_peers hs s) ≡ durable s) × ((connect_peers hs s).storage ≡ s.storage)
  unfolding connect_peers
  connect_peers-durable [] s = (refl, refl)
  connect_peers-durable (h ∷ hs) s =
      let t = (if or_default false (lookup h s.sessions) then s else emit (connected h) s) in
      let rest = connect_peers-durable hs t in ground (arith, rest)

  -- A participant that restarts on the storage of one reached from a participant whose storage held
  -- its state has the same promise and the same acceptance.
  pub restart_acceptor :
      (peers : List Host) (is : List Input) (s : Node S)
      → st.load s.storage ≡ durable s
      → durable (init st (new s.self peers (run is s).storage)) ≡ durable (run is s)
  unfolding new init ensure_connections
  restart_acceptor peers is s h =
      let fresh = loaded (new s.self peers (run is s).storage) in
      (connect_peers-durable fresh.peers fresh).0 ∙ (run-Kept is s).stored_same h

  -- After any list of events of a fresh participant, the decisions it has published are its
  -- decision, once, if it has decided, and none otherwise.
  pub published_once :
      (self : Host) (peers : List Host) (storage : S) (is : List Input)
      → let t = run is (init st (new self peers storage)) in
        decisions t.trace ≡ (if t.decided then (t.decided_value, t.decided_ballot) ∷ [] else [])
  unfolding new init
  published_once self peers storage is =
      let s = loaded (new self peers storage) in
      let k = Kept-trans (ensure_connections-Kept st s) (run-Kept is (ensure_connections s)) in
      (k.told_same (refl, refl)).1
