-- ===== src/Plumtree/Node/Frames.antt =====
-- What the loops and helpers of pkg/protocols/plumtree/protocol.go leave alone: each gives the record that
-- it was given with the fields that it writes.
use protorun.Prelude.{
  Option-cases, Option, Bool, none, some, ◌≡◌, refl, ap, ◌∙◌, Bool-cases, inl, inr, ◌+◌, ◌%◌, ◌^◌,
  false, List, [], ◌∷◌, ◌++◌, true, same, if◌then◌else◌, lookup, insert, or_default, ℕ, delete,
}
use protorun.Transport.Host.{Host, host_eq}
use protorun.Plumtree.Messages.{MessageId, id_eq, Gossip, Announce}
use protorun.Wire.{Bytes}
use protorun.Plumtree.Cache.{put}
use protorun.Transport.HostSet.{add, remove, sorted}
use protorun.Plumtree.Node.{
  Node, send_ihave, keep_announcers, arm, note_announcement, note_announcements, Message,
  PendingGraft, send, push_to, queue_for, has_id, receive, without_peer, cancel_missing,
  forget_announcer, flush_peers, eager_push, lazy_push, on_gossip, emit, Effect, handle_broadcast,
  ℕ, delete, sorted,
}

pub push_to-frame :
    (hs : List Host) (m : Gossip) (except : Host) (s : Node)
    → push_to hs m except s ≡ record s { trace = (push_to hs m except s).trace }
unfolding push_to
push_to-frame [] m except s = refl
push_to-frame (h ∷ hs) m except s =
    elim (same h except)
      as (λ b. push_to hs m except (if b then s else send (Message.gossip m) h s) ≡ record s {
        trace = (push_to hs m except (if b then s else send (Message.gossip m) h s)).trace;
      }) [
        | true ↦ push_to-frame hs m except s
        | false ↦ push_to-frame hs m except (send (Message.gossip m) h s)
      ]

-- The queue of one lazy peer is longer by one.
abbrev queued : Host → Announce → Node → Node
queued h a s = record s {
  lazy_queue = insert h (or_default [] (lookup h s.lazy_queue) ++ a ∷ []) s.lazy_queue;
}

pub queue_for-frame :
    (hs : List Host) (a : Announce) (except : Host) (s : Node)
    → queue_for hs a except s ≡ record s { lazy_queue = (queue_for hs a except s).lazy_queue }
unfolding queue_for
queue_for-frame [] a except s = refl
queue_for-frame (h ∷ hs) a except s =
    elim (same h except)
      as (λ b. queue_for hs a except (if b then s else queued h a s) ≡ record s {
        lazy_queue = (queue_for hs a except (if b then s else queued h a s)).lazy_queue;
      }) [
        | true ↦ queue_for-frame hs a except s
        | false ↦ queue_for-frame hs a except (queued h a s)
      ]

pub receive-frame :
    (id : MessageId) (s : Node) → receive id s ≡ record s { received = (receive id s).received }
unfolding receive
receive-frame id s =
    elim (has_id id s.received)
      as (λ b. (if b then s else record s { received = s.received ++ id ∷ [] }) ≡ record s {
        received = (if b then s else record s { received = s.received ++ id ∷ [] }).received;
      }) [ true ↦ refl | false ↦ refl ]

keep_announcers-frame :
    (id : MessageId) (entries : List PendingGraft) (s : Node)
    → keep_announcers id entries s ≡ record s {
      missing = (keep_announcers id entries s).missing;
      timers = (keep_announcers id entries s).timers;
    }
unfolding keep_announcers cancel_missing
keep_announcers-frame id [] s = refl
keep_announcers-frame id (e ∷ es) s = refl

pub forget_announcer-frame :
    (peer : Host) (ids : List MessageId) (s : Node)
    → forget_announcer peer ids s ≡ record s {
      missing = (forget_announcer peer ids s).missing;
      timers = (forget_announcer peer ids s).timers;
    }
unfolding forget_announcer
forget_announcer-frame peer [] s = refl
forget_announcer-frame peer (id ∷ ids) s =
    let t = keep_announcers id (without_peer peer (or_default [] (lookup id s.missing))) s in
    forget_announcer-frame peer ids t
    ∙ ap {A = Node}
        (λ u. record u {
          missing = (forget_announcer peer ids t).missing;
          timers = (forget_announcer peer ids t).timers;
        })
        (keep_announcers-frame id (without_peer peer (or_default [] (lookup id s.missing))) s)

arm-frame :
    (id : MessageId) (armed : Option Bool) (s : Node)
    → arm id armed s ≡ record s { timers = (arm id armed s).timers }
unfolding arm
arm-frame id none s = refl
arm-frame id (some armed) s = refl

pub note_announcement-frame :
    (a : Announce) (from : Host) (s : Node)
    → note_announcement a from s ≡ record s {
      missing = (note_announcement a from s).missing;
      timers = (note_announcement a from s).timers;
    }
unfolding note_announcement arm
note_announcement-frame a from s = elim (Bool-cases (has_id a.id s.received)) [
  | inl e ↦ rw e refl
  | inr e ↦ elim (Option-cases (lookup a.id s.timers)) [
    | inl n ↦ rw (e, n) refl
    | inr (armed, n) ↦ rw (e, n) refl
  ]
]

pub note_announcements-frame :
    (anns : List Announce) (from : Host) (s : Node)
    → note_announcements anns from s ≡ record s {
      missing = (note_announcements anns from s).missing;
      timers = (note_announcements anns from s).timers;
    }
unfolding note_announcements
note_announcements-frame [] from s = refl
note_announcements-frame (a ∷ anns) from s =
    let t = note_announcement a from s in
    note_announcements-frame anns from t
    ∙ ap {A = Node}
        (λ u. record u {
          missing = (note_announcements anns from t).missing;
          timers = (note_announcements anns from t).timers;
        })
        (note_announcement-frame a from s)

send_ihave-frame :
    (anns : List Announce) (h : Host) (s : Node)
    → send_ihave anns h s ≡ record s { trace = (send_ihave anns h s).trace }
unfolding send_ihave
send_ihave-frame [] h s = refl
send_ihave-frame (a ∷ rest) h s = refl

pub flush_peers-frame :
    (hs : List Host) (s : Node) → flush_peers hs s ≡ record s { trace = (flush_peers hs s).trace }
unfolding flush_peers
flush_peers-frame [] s = refl
flush_peers-frame (h ∷ hs) s =
    let t = send_ihave (or_default [] (lookup h s.lazy_queue)) h s in
    flush_peers-frame hs t
    ∙ ap {A = Node} (λ u. record u { trace = (flush_peers hs t).trace })
        (send_ihave-frame (or_default [] (lookup h s.lazy_queue)) h s)

-- A message is pushed to the eager peers and announced to the lazy ones.
abbrev pub pushed : MessageId → Bytes → ℕ → Host → Node → Node
pushed id payload round except s = lazy_push id round except (eager_push id payload round except s)

pub pushed-frame :
    (id : MessageId) (payload : Bytes) (round : ℕ) (except : Host) (s : Node)
    → pushed id payload round except s ≡ record s {
      trace = (eager_push id payload round except s).trace;
      lazy_queue = (pushed id payload round except s).lazy_queue;
    }
unfolding lazy_push eager_push
pushed-frame id payload round except s =
    let t = eager_push id payload round except s in
    queue_for-frame (sorted t.lazy) (record { id = id; round = round }) except t
    ∙ ap {A = Node} (λ u. record u { lazy_queue = (pushed id payload round except s).lazy_queue })
        (push_to-frame (sorted s.eager) (record { id = id; round = round; payload = payload })
          except s)

-- The state from which a new gossip is pushed.
abbrev pub accepted : Gossip → Host → Node → Node
accepted m from s = record s {
  received = s.received ++ m.id ∷ [];
  cache = put m.id m.payload s.cache;
  timers = delete m.id s.timers;
  missing = delete m.id s.missing;
  trace = Effect.delivered m.id m.payload from ∷ s.trace;
  eager = add from s.eager;
  lazy = remove from s.lazy;
}

pub on_gossip-new :
    (m : Gossip) (from : Host) (s : Node)
    → has_id m.id s.received ≡ false
    → on_gossip m from s ≡ pushed m.id m.payload ((m.round + 1) % 2 ^ 32) from (accepted m from s)
unfolding on_gossip receive cancel_missing
on_gossip-new m from s e = rw e refl

-- The state from which a node's own broadcast is pushed.
abbrev pub originated : Bytes → Node → Node
originated payload s =
    let id : MessageId = record { origin = s.self; seq = (s.seq + 1) % 2 ^ 64 } in
    record s {
      seq = (s.seq + 1) % 2 ^ 64;
      received = (receive id s).received;
      cache = put id payload s.cache;
      trace = Effect.delivered id payload s.self ∷ s.trace;
    }

pub handle_broadcast-eq :
    (payload : Bytes) (s : Node)
    → handle_broadcast payload s
      ≡ emit Effect.acknowledged (
          pushed
            (record { origin = s.self; seq = (s.seq + 1) % 2 ^ 64 })
            payload
            0
            s.self
            (originated payload s))
unfolding handle_broadcast receive eager_push lazy_push
handle_broadcast-eq payload s =
    elim (Bool-cases (has_id (record { origin = s.self; seq = (s.seq + 1) % 2 ^ 64 }) s.received)) [
      | inl e ↦ rw e refl
      | inr e ↦ rw e refl
    ]
