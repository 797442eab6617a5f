-- ===== src/Plumtree/Node.antt =====
-- pkg/protocols/plumtree/protocol.go: the state of an instance, its effects and its handlers. Go's sets
-- of ids are lists; an armed timer is a key of `timers`. What a handler does to the outside goes to
-- `trace`, newest first.
pub mod Frames
pub mod Step
pub mod Tree
pub mod Once
pub mod Deliveries
pub mod Missing
pub mod Retries
pub mod Push
pub mod Departed
use protorun.Prelude.{
  keys, ℕ, ◌+◌, ◌%◌, ◌^◌, Bool, true, false, not, List, [], ◌∷◌, ◌++◌, Option, none, some, length,
  if◌then◌else◌, Map, lookup, insert, delete, or_default, same, ◌||◌,
}
use protorun.Wire.{Bytes}
use protorun.Transport.Host.{Host, host_eq}
use protorun.Transport.HostSet.{HostSet, contains, add, remove, sorted}
use protorun.Plumtree.Messages.{MessageId, id_eq, Gossip, Announce, IHave, Graft}
use protorun.Plumtree.Cache.{PayloadCache, new_payload_cache, put, get}

pub data Message : Type 0 where
  gossip : Gossip → Message
  ihave : IHave → Message
  graft : Graft → Message
  prune : Message

-- `DebugStatsReply`.
pub record DebugStatsReply : Type 0 where
  pub delivered : ℕ
  pub duplicates : ℕ
  pub eager : ℕ
  pub lazy : ℕ
  pub eager_peers : List Host
  pub lazy_peers : List Host

pub data Effect : Type 0 where
  sent : Message → Host → Effect
  delivered : MessageId → Bytes → Host → Effect
  acknowledged : Effect
  replied_stats : DebugStatsReply → Effect

pub record PendingGraft : Type 0 where
  pub peer : Host
  pub round : ℕ

pub record Node : Type 0 where
  pub self : Host
  pub eager : HostSet
  pub lazy : HostSet
  pub received : List MessageId
  pub cache : PayloadCache
  pub missing : Map MessageId (List PendingGraft)
  pub timers : Map MessageId Bool
  pub lazy_queue : Map Host (List Announce)
  pub seq : ℕ
  pub duplicates : ℕ
  pub trace : List Effect

-- `New`, with the cache size of the configuration.
unfoldable pub new : Host → ℕ → Node
new self cache_size = record {
  self = self;
  eager = [];
  lazy = [];
  received = [];
  cache = new_payload_cache cache_size;
  missing = [];
  timers = [];
  lazy_queue = [];
  seq = 0;
  duplicates = 0;
  trace = [];
}

abbrev pub emit : Effect → Node → Node
emit e s = record s { trace = e ∷ s.trace }

abbrev pub send : Message → Host → Node → Node
send m h s = emit (sent m h) s

unfoldable pub has_id : MessageId → List MessageId → Bool
has_id id [] = false
has_id id (x ∷ xs) = same x id || has_id id xs

-- `received[id] = struct{}{}`
unfoldable pub receive : MessageId → Node → Node
unfolding has_id
receive id s = if has_id id s.received then s else record s { received = s.received ++ id ∷ [] }

-- The two moves between the sets.
abbrev pub make_eager : Host → Node → Node
make_eager h s = record s { eager = add h s.eager; lazy = remove h s.lazy }

abbrev pub make_lazy : Host → Node → Node
make_lazy h s = record s { eager = remove h s.eager; lazy = add h s.lazy }

unfoldable pub cancel_missing : MessageId → Node → Node
cancel_missing id s = record s { timers = delete id s.timers; missing = delete id s.missing }

abbrev pub deliver : MessageId → Bytes → Host → Node → Node
deliver id payload from s = emit (delivered id payload from) s

-- The loop of `eagerPush` over the sorted peers.
unfoldable pub push_to : List Host → Gossip → Host → Node → Node
push_to [] m except s = s
push_to (h ∷ hs) m except s =
    push_to hs m except (if same h except then s else send (Message.gossip m) h s)

unfoldable pub eager_push : MessageId → Bytes → ℕ → Host → Node → Node
unfolding push_to
eager_push id payload round except s =
    push_to (sorted s.eager) (record { id = id; round = round; payload = payload }) except s

-- The loop of `lazyPush` over the sorted peers.
unfoldable pub queue_for : List Host → Announce → Host → Node → Node
queue_for [] a except s = s
queue_for (h ∷ hs) a except s = queue_for hs a except (
    if same h except then s else record s {
      lazy_queue = insert h (or_default [] (lookup h s.lazy_queue) ++ a ∷ []) s.lazy_queue;
    })

unfoldable pub lazy_push : MessageId → ℕ → Host → Node → Node
unfolding queue_for
lazy_push id round except s = queue_for (sorted s.lazy) (record { id = id; round = round }) except s

-- `onNeighborUp`
unfoldable pub on_neighbor_up : Host → Node → Node
on_neighbor_up peer s = if same peer s.self then s else make_eager peer s

-- The entries of other announcers.
unfoldable pub without_peer : Host → List PendingGraft → List PendingGraft
without_peer peer [] = []
without_peer peer (e ∷ es) =
    let rest = without_peer peer es in if same e.peer peer then rest else e ∷ rest

-- What is left of the announcers of an id: with none left, the id is given up.
unfoldable pub keep_announcers : MessageId → List PendingGraft → Node → Node
unfolding cancel_missing
keep_announcers id [] s = cancel_missing id s
keep_announcers id (e ∷ es) s = record s { missing = insert id (e ∷ es) s.missing }

-- The loop of `onNeighborDown` over the missing ids.
unfoldable pub forget_announcer : Host → List MessageId → Node → Node
unfolding without_peer keep_announcers
forget_announcer peer [] s = s
forget_announcer peer (id ∷ ids) s =
    forget_announcer peer ids
      (keep_announcers id (without_peer peer (or_default [] (lookup id s.missing))) s)

unfoldable pub on_neighbor_down : Host → Node → Node
unfolding forget_announcer
on_neighbor_down peer s = forget_announcer peer (keys s.missing) (record s {
  eager = remove peer s.eager;
  lazy = remove peer s.lazy;
  lazy_queue = delete peer s.lazy_queue;
})

unfoldable pub handle_broadcast : Bytes → Node → Node
unfolding receive eager_push lazy_push
handle_broadcast payload s =
    let s₁ = record s { seq = (s.seq + 1) % 2 ^ 64 } in
    let id : MessageId = record { origin = s.self; seq = s₁.seq } in
    let s₂ = receive id s₁ in
    let s₃ = deliver id payload s.self (record s₂ { cache = put id payload s₂.cache }) in
    emit acknowledged (lazy_push id 0 s.self (eager_push id payload 0 s.self s₃))

-- A duplicate prunes the link that it came by.
unfoldable pub on_duplicate : Host → Node → Node
on_duplicate from s =
    send Message.prune from (make_lazy from (record s { duplicates = s.duplicates + 1 }))

unfoldable pub on_gossip : Gossip → Host → Node → Node
unfolding has_id on_duplicate receive cancel_missing eager_push lazy_push
on_gossip m from s =
    if has_id m.id s.received
    then on_duplicate from s
    else let s₁ = receive m.id s in
      let s₂ = cancel_missing m.id (record s₁ { cache = put m.id m.payload s₁.cache }) in
      let s₃ = make_eager from (deliver m.id m.payload from s₂) in
      let s₄ = eager_push m.id m.payload ((m.round + 1) % 2 ^ 32) from s₃ in
      lazy_push m.id ((m.round + 1) % 2 ^ 32) from s₄

-- A timer is armed if none is.
unfoldable pub arm : MessageId → Option Bool → Node → Node
arm id none s = record s { timers = insert id true s.timers }
arm id (some armed) s = s

unfoldable pub note_announcement : Announce → Host → Node → Node
unfolding has_id arm
note_announcement a from s =
    if has_id a.id s.received
    then s
    else let entry : PendingGraft = record { peer = from; round = a.round } in
      let entries = or_default [] (lookup a.id s.missing) ++ entry ∷ [] in
      arm a.id (lookup a.id s.timers) (record s { missing = insert a.id entries s.missing })

unfoldable pub note_announcements : List Announce → Host → Node → Node
unfolding note_announcement
note_announcements [] from s = s
note_announcements (a ∷ rest) from s = note_announcements rest from (note_announcement a from s)

unfoldable pub on_ihave : IHave → Host → Node → Node
unfolding note_announcements
on_ihave m from s = note_announcements m.announcements from s

unfoldable pub on_graft : Graft → Host → Node → Node
on_graft m from s =
    let s₁ = make_eager from s in
    elim (get m.id s₁.cache) [
      | none ↦ s₁
      | some payload ↦
          send (Message.gossip (record { id = m.id; round = m.round; payload = payload })) from s₁
    ]

unfoldable pub on_prune : Host → Node → Node
on_prune from s = make_lazy from s

-- The oldest announcer is asked, and a retry timer armed.
unfoldable pub graft_first : MessageId → List PendingGraft → Node → Node
graft_first id [] s = s
graft_first id (first ∷ rest) s =
    send (Message.graft (record { id = id; round = first.round })) first.peer (
      make_eager first.peer
        (record s { missing = insert id rest s.missing; timers = insert id true s.timers }))

unfoldable pub on_missing_timeout : MessageId → Node → Node
unfolding has_id graft_first
on_missing_timeout id s =
    let s₁ = record s { timers = delete id s.timers } in
    if has_id id s₁.received
    then record s₁ { missing = delete id s₁.missing }
    else graft_first id (or_default [] (lookup id s₁.missing)) s₁

unfoldable pub send_ihave : List Announce → Host → Node → Node
send_ihave [] h s = s
send_ihave (a ∷ rest) h s = send (Message.ihave (record { announcements = a ∷ rest })) h s

-- The loop of `flushLazy` over the sorted peers.
unfoldable pub flush_peers : List Host → Node → Node
unfolding send_ihave
flush_peers [] s = s
flush_peers (h ∷ hs) s = flush_peers hs (send_ihave (or_default [] (lookup h s.lazy_queue)) h s)

-- An empty queue gives no peers, so that the early return is the same.
unfoldable pub flush_lazy : Node → Node
unfolding flush_peers
flush_lazy s = let s₁ = flush_peers (sorted (keys s.lazy_queue)) s in record s₁ { lazy_queue = [] }

unfoldable pub handle_debug_stats : Node → Node
handle_debug_stats s =
    emit
      (replied_stats (record {
        delivered = length s.received;
        duplicates = s.duplicates;
        eager = length s.eager;
        lazy = length s.lazy;
        eager_peers = sorted s.eager;
        lazy_peers = sorted s.lazy;
      }))
      s
