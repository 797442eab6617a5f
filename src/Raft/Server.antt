-- ===== src/Raft/Server.antt =====
-- pkg/protocols/raft/protocol.go: the state of a server, its effects, and the parts that the
-- handlers share. The fields of `Protocol` are those of `Server`; `*_armed` says whether a timer
-- handle is pending. What a handler does to the outside goes to `trace`, newest first. The Storage
-- is any implementation of the interface, with its own state in the field `storage`.
pub mod Replication
pub mod Election
pub mod Frame
pub mod Splice
pub mod Kept
pub mod Steps
pub mod Runs
pub mod Following
pub mod CatchUp
pub mod Voting
pub mod History
pub mod Handlers
pub mod Step
mod Tests
use protorun.Prelude.{
  ℕ, zero, suc, ◌+◌, ◌-◌, ◌%◌, ◌^◌, max, Bool, true, false, not, ◌&&◌, List, [], ◌∷◌, Option, none,
  some, length, ltb, leb, if◌then◌else◌, Map, lookup, insert, delete, or_default, same,
}
use protorun.Transport.Host.{Host, zero_host, host_eq, host_less}
use protorun.Wire.{Bytes}
use protorun.Raft.Log.{Log, LogEntry, last_index, last_term, term_at, slice_from}
use protorun.Raft.Storage.{Storage, PersistentState}
use protorun.Raft.Messages.{RequestVote, RequestVoteReply, AppendEntries, AppendEntriesReply}

-- `Role` of api.go.
pub data Role : Type 0 where
  follower candidate leader : Role

abbrev pub is_leader : Role → Bool
is_leader leader = true
is_leader _ = false

abbrev pub is_candidate : Role → Bool
is_candidate candidate = true
is_candidate _ = false

pub data Message : Type 0 where
  request_vote : RequestVote → Message
  request_vote_reply : RequestVoteReply → Message
  append_entries : AppendEntries → Message
  append_entries_reply : AppendEntriesReply → Message

-- `DebugStateReply` of api.go.
pub record DebugStateReply : Type 0 where
  pub role : Role
  pub term : ℕ
  pub commit_index : ℕ
  pub last_applied : ℕ
  pub last_log_index : ℕ
  pub last_log_term : ℕ
  pub leader : Host
  pub has_leader : Bool

-- What the runtime and the storage are asked to do, and what is published or answered.
pub data Effect : Type 0 where
  sent : Message → Host → Effect
  connected : Host → Effect
  saved_term : ℕ → Host → Bool → Effect
  saved_entries : ℕ → List LogEntry → Effect
  applied : ℕ → ℕ → Bytes → Effect
  leader_changed : Host → ℕ → Effect
  replied : ℕ → ℕ → Effect
  failed_not_leader : Host → Bool → Effect
  replied_debug : DebugStateReply → Effect

pub record Server (S : Type 0) : Type 0 where
  pub self : Host
  pub peers : List Host
  pub current_term : ℕ
  pub voted_for : Host
  pub has_voted : Bool
  pub log : Log
  pub role : Role
  pub commit_index : ℕ
  pub last_applied : ℕ
  pub leader : Host
  pub has_leader : Bool
  pub next_index : Map Host ℕ
  pub match_index : Map Host ℕ
  pub votes_granted : Map Host Bool
  pub sessions : Map Host Bool
  pub election_armed : Bool
  -- One flag for all heartbeat timers: one that a leader leaves running when it follows another leader of
  -- its own term is not told apart from the next.
  pub heartbeat_armed : Bool
  pub storage : S
  pub trace : List Effect

-- A handler that panics has no next state.
infixl 5 ◌>>=◌
abbrev pub ◌>>=◌ {ℓ κ} : {A : Type ℓ} {B : Type κ} → Option A → (A → Option B) → Option B
none >>= f = none
some a >>= f = f a

-- The indices of the Applied notifications in a trace, newest first.
abbrev pub applied_indices : List Effect → List ℕ
applied_indices [] = []
applied_indices (applied index term command ∷ es) = index ∷ applied_indices es
applied_indices (e ∷ es) = applied_indices es

-- n, n - 1, …, 1
abbrev pub down_from : ℕ → List ℕ
down_from zero = []
down_from (suc n) = suc n ∷ down_from n

-- uint64 arithmetic
abbrev pub u64 : ℕ → ℕ
u64 n = n % 2 ^ 64

-- `sort.Slice` by `hostLess`, and the loop of `New` that leaves self out.
unfoldable pub insert_sorted : Host → List Host → List Host
insert_sorted h [] = h ∷ []
insert_sorted h (x ∷ xs) = if host_less x h then x ∷ insert_sorted h xs else h ∷ x ∷ xs

unfoldable pub sort_hosts : List Host → List Host
sort_hosts [] = []
sort_hosts (h ∷ hs) = insert_sorted h (sort_hosts hs)

unfoldable pub without : Host → List Host → List Host
without self [] = []
without self (h ∷ hs) = let rest = without self hs in if same h self then rest else h ∷ rest

module _ {S : Type 0} where
  -- `New`, with the storage that the configuration names.
  unfoldable pub new : Host → List Host → S → Server S
  new self peers storage = record {
    self = self;
    peers = sort_hosts (without self peers);
    current_term = 0;
    voted_for = zero_host;
    has_voted = false;
    log = [];
    role = follower;
    commit_index = 0;
    last_applied = 0;
    leader = zero_host;
    has_leader = false;
    next_index = [];
    match_index = [];
    votes_granted = [];
    sessions = [];
    election_armed = false;
    heartbeat_armed = false;
    storage = storage;
    trace = [];
  }

  abbrev pub emit : Effect → Server S → Server S
  emit e s = record s { trace = e ∷ s.trace }

  abbrev pub send : Message → Host → Server S → Server S
  send m h s = emit (sent m h) s

  -- The timeout is drawn by `random_election_timeout`, below.
  unfoldable pub reset_election_timer : Server S → Server S
  reset_election_timer s = record s { election_armed = true }

  unfoldable pub clear_leader : Server S → Server S
  clear_leader s = record s { leader = zero_host; has_leader = false }

  unfoldable pub set_leader : Host → Server S → Server S
  set_leader h s =
      if s.has_leader && same s.leader h
      then s
      else emit (leader_changed h s.current_term) (record s { leader = h; has_leader = true })

  unfoldable pub persist_term : Storage S → Server S → Server S
  persist_term st s =
      emit (saved_term s.current_term s.voted_for s.has_voted)
        (record s { storage = st.save_term s.storage s.current_term s.voted_for s.has_voted })

  unfoldable pub step_down : Storage S → ℕ → Server S → Server S
  unfolding clear_leader persist_term reset_election_timer
  step_down st term s =
      let was_leader = is_leader s.role in
      let s₁ = clear_leader (record s {
        current_term = term;
        voted_for = zero_host;
        has_voted = false;
        role = follower;
      }) in
      let s₂ = record s₁ { heartbeat_armed = if was_leader then false else s₁.heartbeat_armed } in
      reset_election_timer (persist_term st s₂)

  unfoldable pub connect_peers : List Host → Server S → Server S
  connect_peers [] s = s
  connect_peers (h ∷ hs) s =
      connect_peers hs (if or_default false (lookup h s.sessions) then s else emit (connected h) s)

  unfoldable pub ensure_connections : Server S → Server S
  ensure_connections s = connect_peers s.peers s
