-- ===== src/Plumtree/Node/Missing.antt =====
-- The announced ids of pkg/protocols/plumtree/protocol.go over any history: their announcers and timers.
use protorun.Wire.{Bytes}
use protorun.Prelude.{
  keys, ◌≡◌, refl, ap, ◌∙◌, sym, Bool-cases, Option-cases, inl, inr, List, [], ◌∷◌, ◌++◌, Option,
  some, none, or_default, lookup, insert, delete, lookup-insert, lookup-delete, Bool, true, arith,
  ℕ, ◌+◌, ◌%◌, ◌^◌,
}
use protorun.Transport.Host.{Host, host_eq}
use protorun.Transport.HostSet.{sorted, remove}
use protorun.Plumtree.Messages.{MessageId, id_eq, id_beq_iff, Announce, Gossip}
use protorun.Plumtree.Node.{
  Node, PendingGraft, new, has_id, arm, note_announcement, note_announcements, on_ihave, on_gossip,
  on_duplicate, on_graft, on_prune, on_neighbor_up, on_neighbor_down, keep_announcers,
  forget_announcer, without_peer, cancel_missing, on_missing_timeout, graft_first, flush_lazy,
  handle_broadcast, handle_debug_stats, make_eager, ℕ, Bytes, remove, flush_peers,
}
use protorun.Plumtree.Node.Frames.{
  flush_peers-frame, pushed, pushed-frame, on_gossip-new, accepted, originated, handle_broadcast-eq,
}
use protorun.Plumtree.Node.Step.{Input, fire, seed, step, run}

-- The announcers of an id that are still to be asked.
abbrev pub announcers : MessageId → Node → List PendingGraft
announcers id s = or_default [] (lookup id s.missing)

-- An id whose timer is not armed has no announcer left to be asked.
abbrev pub IsWatched : Node → Type 0
IsWatched s = (id : MessageId) → lookup id s.timers ≡ none → announcers id s ≡ []

IsWatched-same :
    (s t : Node) → s.missing ≡ t.missing → s.timers ≡ t.timers → IsWatched t → IsWatched s
IsWatched-same s t em et w id e = rw em (w id (ap (λ m. lookup id m) (sym et) ∙ e))

IsWatched-pushed :
    (id : MessageId) (payload : Bytes) (round : ℕ) (except : Host) (s : Node)
    → IsWatched s
    → IsWatched (pushed id payload round except s)
IsWatched-pushed id payload round except s w =
    let p = pushed-frame id payload round except s in
    IsWatched-same (pushed id payload round except s) s (ap Node.missing p) (ap Node.timers p) w

IsWatched-cancel : (id : MessageId) (s : Node) → IsWatched s → IsWatched (cancel_missing id s)
unfolding cancel_missing
IsWatched-cancel id s w j e =
    ground (arith, lookup-delete id j s.timers, lookup-delete id j s.missing, w j)

IsWatched-insert :
    (id : MessageId) (entries : List PendingGraft) (s : Node)
    → IsWatched s
    → IsWatched
        (record s { missing = insert id entries s.missing; timers = insert id true s.timers })
IsWatched-insert id entries s w j e =
    ground (arith, lookup-insert id j true s.timers, lookup-insert id j entries s.missing, w j)

IsWatched-insert_armed :
    (id : MessageId) (entries : List PendingGraft) (armed : Bool) (s : Node)
    → lookup id s.timers ≡ some armed
    → IsWatched s
    → IsWatched (record s { missing = insert id entries s.missing })
IsWatched-insert_armed id entries armed s n w j e =
    ground (arith, lookup-insert id j entries s.missing, w j, id_beq_iff id j)

IsWatched-arm :
    (id : MessageId) (entries : List PendingGraft) (s : Node)
    → IsWatched s
    → IsWatched (arm id (lookup id s.timers) (record s { missing = insert id entries s.missing }))
unfolding arm
IsWatched-arm id entries s w = elim (Option-cases (lookup id s.timers)) [
  | inl n ↦ rw n (IsWatched-insert id entries s w)
  | inr (armed, n) ↦ rw n (IsWatched-insert_armed id entries armed s n w)
]

IsWatched-note :
    (a : Announce) (from : Host) (s : Node) → IsWatched s → IsWatched (note_announcement a from s)
unfolding note_announcement
IsWatched-note a from s w = elim (Bool-cases (has_id a.id s.received)) [
  | inl e ↦ rw e w
  | inr e ↦
      let entry : PendingGraft = record { peer = from; round = a.round } in
      rw e (IsWatched-arm a.id (announcers a.id s ++ entry ∷ []) s w)
]

IsWatched-notes :
    (anns : List Announce) (from : Host) (s : Node)
    → IsWatched s
    → IsWatched (note_announcements anns from s)
unfolding note_announcements
IsWatched-notes [] from s w = w
IsWatched-notes (a ∷ anns) from s w =
    IsWatched-notes anns from (note_announcement a from s) (IsWatched-note a from s w)

IsWatched-keep :
    (id : MessageId) (left : List PendingGraft) (s : Node)
    → (lookup id s.timers ≡ none → left ≡ [])
    → IsWatched s
    → IsWatched (keep_announcers id left s)
unfolding keep_announcers
IsWatched-keep id [] s h w = IsWatched-cancel id s w
IsWatched-keep id (e ∷ es) s h w = elim (Option-cases (lookup id s.timers)) [
  | inl n ↦ cc (h n)
  | inr (armed, n) ↦ IsWatched-insert_armed id (e ∷ es) armed s n w
]

IsWatched-forget :
    (peer : Host) (ids : List MessageId) (s : Node)
    → IsWatched s
    → IsWatched (forget_announcer peer ids s)
unfolding forget_announcer without_peer
IsWatched-forget peer [] s w = w
IsWatched-forget peer (id ∷ ids) s w =
    IsWatched-forget peer ids (keep_announcers id (without_peer peer (announcers id s)) s) (
      IsWatched-keep id (without_peer peer (announcers id s)) s
        (λ n. ap (λ es. without_peer peer es) (w id n)) w)

IsWatched-gossip :
    (m : Gossip) (from : Host) (s : Node) → IsWatched s → IsWatched (on_gossip m from s)
unfolding on_gossip on_duplicate cancel_missing
IsWatched-gossip m from s w = elim (Bool-cases (has_id m.id s.received)) [
  | inl e ↦ rw e w
  | inr e ↦ rw (on_gossip-new m from s e) (
      IsWatched-pushed m.id m.payload ((m.round + 1) % 2 ^ 32) from (accepted m from s)
        (IsWatched-cancel m.id s w))
]

IsWatched-broadcast :
    (payload : Bytes) (s : Node) → IsWatched s → IsWatched (handle_broadcast payload s)
IsWatched-broadcast payload s w = rw (handle_broadcast-eq payload s) (
    IsWatched-pushed (record { origin = s.self; seq = (s.seq + 1) % 2 ^ 64 }) payload 0 s.self
      (originated payload s) w)

IsWatched-graft_first :
    (id : MessageId) (entries : List PendingGraft) (s : Node)
    → announcers id s ≡ entries
    → IsWatched s
    → IsWatched (graft_first id entries (record s { timers = delete id s.timers }))
unfolding graft_first
IsWatched-graft_first id [] s a w j e =
    ground (arith, lookup-delete id j s.timers, w j, id_beq_iff id j)
IsWatched-graft_first id (first ∷ rest) s a w j e = ground (
  arith,
  lookup-delete id j s.timers,
  lookup-insert id j true (delete id s.timers),
  lookup-insert id j rest s.missing,
  w j,
  id_beq_iff id j,
)

IsWatched-timeout : (id : MessageId) (s : Node) → IsWatched s → IsWatched (on_missing_timeout id s)
unfolding on_missing_timeout cancel_missing
IsWatched-timeout id s w = elim (Bool-cases (has_id id s.received)) [
  | inl e ↦ rw e (IsWatched-cancel id s w)
  | inr e ↦ rw e (IsWatched-graft_first id (announcers id s) s refl w)
]

IsWatched-fire :
    (armed : Option Bool) (id : MessageId) (s : Node) → IsWatched s → IsWatched (fire armed id s)
unfolding fire
IsWatched-fire none id s w = w
IsWatched-fire (some armed) id s w = IsWatched-timeout id s w

IsWatched-seed : (hs : List Host) (s : Node) → IsWatched s → IsWatched (seed hs s)
unfolding seed
IsWatched-seed [] s w = w
IsWatched-seed (h ∷ hs) s w = IsWatched-seed hs (make_eager h s) w

IsWatched-step : (i : Input) (s : Node) → IsWatched s → IsWatched (step i s)
unfolding step on_ihave on_prune on_graft on_neighbor_up on_neighbor_down flush_lazy
    handle_debug_stats
IsWatched-step (Input.got_gossip m from) s w = IsWatched-gossip m from s w
IsWatched-step (Input.got_ihave m from) s w = IsWatched-notes m.announcements from s w
IsWatched-step (Input.got_graft m from) s w =
    IsWatched-same (on_graft m from s) s (ground arith) (ground arith) w
IsWatched-step (Input.got_prune from) s w = w
IsWatched-step (Input.neighbor_up h) s w =
    IsWatched-same (on_neighbor_up h s) s (ground arith) (ground arith) w
IsWatched-step (Input.neighbor_down h) s w =
    IsWatched-forget h (keys s.missing)
      (record s {
        eager = remove h s.eager;
        lazy = remove h s.lazy;
        lazy_queue = delete h s.lazy_queue;
      })
      w
IsWatched-step (Input.broadcast payload) s w = IsWatched-broadcast payload s w
IsWatched-step Input.asked_stats s w = w
IsWatched-step Input.lazy_tick s w =
    let e = flush_peers-frame (sorted (keys s.lazy_queue)) s in
    IsWatched-same (flush_peers (sorted (keys s.lazy_queue)) s) s (ap Node.missing e)
      (ap Node.timers e) w
IsWatched-step (Input.missing_timeout id) s w = IsWatched-fire (lookup id s.timers) id s w
IsWatched-step (Input.got_view hs) s w = IsWatched-seed hs s w

pub IsWatched-kept : (is : List Input) (s : Node) → IsWatched s → IsWatched (run is s)
unfolding run
IsWatched-kept [] s w = w
IsWatched-kept (i ∷ is) s w = IsWatched-kept is (step i s) (IsWatched-step i s w)

-- Whatever an instance handles after its start, an announced id with an announcer that was not asked yet
-- has its timer armed: no announcement is forgotten.
pub run-IsWatched :
    (self : Host) (cache_size : ℕ) (is : List Input) → IsWatched (run is (new self cache_size))
unfolding new lookup
run-IsWatched self cache_size is = IsWatched-kept is (new self cache_size) (λ id e. refl)
