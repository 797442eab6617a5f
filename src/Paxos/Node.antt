-- ===== src/Paxos/Node.antt =====
-- pkg/protocols/paxos/protocol.go: the state of a participant, its effects, and the acceptor and
-- learner parts. The fields are those of `Protocol`; `retry_armed` says whether the retry timer is
-- pending. What a handler does to the outside goes to `trace`, newest first. The Storage is any
-- implementation of the interface, with its own state in the field `storage`.
pub mod Proposer
pub mod Step
pub mod Kept
pub mod Steps
pub mod Events
pub mod Acceptor
pub mod Learner
pub mod History
use protorun.Prelude.{
  ℕ, Bool, true, false, List, [], ◌∷◌, ◌++◌, Option, none, some, length, ltb, leb, ◌==◌,
  if◌then◌else◌, Map, lookup, insert, delete, or_default, same, nat_eq, not, ◌+◌,
}
use protorun.Transport.Host.{Host, host_eq}
use protorun.Wire.{Bytes}
use protorun.Raft.Server.{sort_hosts, without}
use protorun.Paxos.Rules.{PromiseInfo, can_promise, can_accept, majority_size}
use protorun.Paxos.Storage.{Storage, PersistentState}
use protorun.Paxos.Messages.{Prepare, Promise, Accept, Accepted, AcceptNack}

pub data Message : Type 0 where
  prepare : Prepare → Message
  promise : Promise → Message
  accept : Accept → Message
  accepted : Accepted → Message
  accept_nack : AcceptNack → Message

-- `DebugStateReply` of api.go.
pub record DebugStateReply : Type 0 where
  pub promised : ℕ
  pub accepted_ballot : ℕ
  pub accepted_value : Bytes
  pub has_accepted : Bool
  pub decided : Bool
  pub decided_value : Bytes
  pub decided_ballot : ℕ
  pub proposing : Bool
  pub my_ballot : ℕ

pub data Effect : Type 0 where
  sent : Message → Host → Effect
  connected : Host → Effect
  persisted : PersistentState → Effect
  published_decided : Bytes → ℕ → Effect
  replied : Effect
  failed_already_decided : Bytes → ℕ → Effect
  replied_debug : DebugStateReply → Effect

pub record Node (S : Type 0) : Type 0 where
  pub self : Host
  pub peers : List Host
  pub index : ℕ
  pub size : ℕ
  pub promised : ℕ
  pub accepted_ballot : ℕ
  pub accepted_value : Bytes
  pub has_accepted : Bool
  pub max_seen : ℕ
  pub proposing : Bool
  pub phase : ℕ
  pub my_ballot : ℕ
  pub my_value : Bytes
  pub promises : Map Host PromiseInfo
  pub retry_armed : Bool
  pub accepts : Map ℕ (Map Host Bool)
  pub value_at : Map ℕ Bytes
  pub decided : Bool
  pub decided_ballot : ℕ
  pub decided_value : Bytes
  pub announced : Bool
  pub sessions : Map Host Bool
  pub storage : S
  pub trace : List Effect

-- The first position of self in the roster, 0 if it is not there.
unfoldable pub find_index : Host → List Host → ℕ → ℕ
find_index self [] i = 0
find_index self (h ∷ hs) i =
    let rest = find_index self hs (i + 1) in if same h self then i else rest

-- The zero value of `promiseInfo`.
abbrev pub no_info : PromiseInfo
no_info = record { accepted_ballot = 0; accepted_value = []; has_accepted = false }

module _ {S : Type 0} where
  -- `New`, with the storage that the configuration names.
  unfoldable pub new : Host → List Host → S → Node S
  unfolding find_index
  new self config_peers storage =
      let peers = sort_hosts (without self config_peers) in
      let roster = sort_hosts (peers ++ self ∷ []) in
      record {
        self = self;
        peers = peers;
        index = find_index self roster 0;
        size = length peers + 1;
        promised = 0;
        accepted_ballot = 0;
        accepted_value = [];
        has_accepted = false;
        max_seen = 0;
        proposing = false;
        phase = 0;
        my_ballot = 0;
        my_value = [];
        promises = [];
        retry_armed = false;
        accepts = [];
        value_at = [];
        decided = false;
        decided_ballot = 0;
        decided_value = [];
        announced = false;
        sessions = [];
        storage = storage;
        trace = [];
      }

  abbrev pub emit : Effect → Node S → Node S
  emit e s = record s { trace = e ∷ s.trace }

  abbrev pub send : Message → Host → Node S → Node S
  send m h s = emit (sent m h) s

  -- The loops that send one message to each peer.
  unfoldable pub send_all : Message → List Host → Node S → Node S
  send_all m [] s = s
  send_all m (h ∷ hs) s = send_all m hs (send m h s)

  unfoldable pub observe_ballot : ℕ → Node S → Node S
  observe_ballot b s = if ltb s.max_seen b then record s { max_seen = b } else s

  abbrev pub durable : Node S → PersistentState
  durable s = record {
    promised = s.promised;
    accepted_ballot = s.accepted_ballot;
    accepted_value = s.accepted_value;
    has_accepted = s.has_accepted;
  }

  unfoldable pub persist : Storage S → Node S → Node S
  persist st s =
      emit (persisted (durable s)) (record s { storage = st.persist s.storage (durable s) })

  -- The next state and the three results: whether it promised, the promised ballot, the summary.
  unfoldable pub accept_prepare : Storage S → ℕ → Node S → Node S × Bool × ℕ × PromiseInfo
  unfolding observe_ballot persist can_promise
  accept_prepare st ballot s =
      let s₁ = observe_ballot ballot s in
      if not (can_promise ballot s₁.promised)
      then (s₁, false, s₁.promised, no_info)
      else let s₂ = persist st (record s₁ { promised = ballot }) in
        (
          s₂,
          true,
          s₂.promised,
          record {
            accepted_ballot = s₂.accepted_ballot;
            accepted_value = s₂.accepted_value;
            has_accepted = s₂.has_accepted;
          },
        )

  unfoldable pub accept_accept : Storage S → ℕ → Bytes → Node S → Node S × Bool × ℕ
  unfolding observe_ballot persist can_accept
  accept_accept st ballot value s =
      let s₁ = observe_ballot ballot s in
      if not (can_accept ballot s₁.promised)
      then (s₁, false, s₁.promised)
      else let s₂ = persist st (record s₁ {
        promised = ballot;
        accepted_ballot = ballot;
        accepted_value = value;
        has_accepted = true;
      }) in
        (s₂, true, s₂.promised)

  unfoldable pub decide : ℕ → Bytes → Node S → Node S
  decide ballot value s =
      if s.decided
      then s
      else let s₁ = record s {
        decided = true;
        decided_ballot = ballot;
        decided_value = value;
        proposing = false;
        retry_armed = false;
      } in
        if s₁.announced
        then s₁
        else emit (published_decided s₁.decided_value ballot) (record s₁ { announced = true })

  -- One acceptor's acceptance joins the tally of its ballot, with the ballot's first value.
  unfoldable pub tally : ℕ → Bytes → Host → Node S → Node S
  tally ballot value from s =
      let set = or_default [] (lookup ballot s.accepts) in
      let s₁ = record s { accepts = insert ballot (insert from true set) s.accepts } in
      elim (lookup ballot s.value_at) [
        | none ↦ record s₁ { value_at = insert ballot value s.value_at }
        | some v ↦ s₁
      ]

  unfoldable pub record_accepted : ℕ → Bytes → Host → Node S → Node S
  unfolding observe_ballot decide tally
  record_accepted ballot value from s =
      let s₁ = observe_ballot ballot s in
      let set = or_default [] (lookup ballot s₁.accepts) in
      if s₁.decided
      then s₁
      else if or_default false (lookup from set)
      then s₁
      else let s₂ = tally ballot value from s₁ in
        if leb (majority_size s₂.size) (length (or_default [] (lookup ballot s₂.accepts)))
        then decide ballot (or_default [] (lookup ballot s₂.value_at)) s₂
        else s₂

  unfoldable pub broadcast_accepted : ℕ → Bytes → Node S → Node S
  unfolding record_accepted send_all
  broadcast_accepted ballot value s =
      send_all (Message.accepted (record { ballot = ballot; value = value })) s.peers
        (record_accepted ballot value s.self s)
