-- ===== src/Plumtree/Node/Once.antt =====
-- What an instance of pkg/protocols/plumtree/protocol.go delivers, over any history.
use protorun.Wire.{Bytes}
use protorun.Prelude.{
  keys, ◌≡◌, refl, ap, ◌∙◌, delete, or_default, Bool-cases, inl, inr, List, [], ◌∷◌, Option, some,
  none, lookup, Bool, arith, ◌<◌, ◌+◌, ◌^◌, ◌%◌, ℕ,
}
use protorun.Transport.Host.{Host, host_eq}
use protorun.Transport.HostSet.{sorted, remove}
use protorun.Plumtree.Messages.{MessageId, id_eq, Gossip, Graft, Announce}
use protorun.Plumtree.Node.{
  Node, send_ihave, Effect, has_id, new, graft_first, on_duplicate, on_gossip, on_ihave, on_graft,
  on_prune, on_neighbor_up, on_neighbor_down, on_missing_timeout, make_eager, flush_lazy,
  flush_peers, handle_broadcast, handle_debug_stats, Bytes, emit,
}
use protorun.Plumtree.Node.Frames.{
  pushed, accepted, originated, on_gossip-new, handle_broadcast-eq, forget_announcer-frame,
  note_announcements-frame, flush_peers-frame,
}
use protorun.Plumtree.Node.Step.{Input, fire, seed, step, run}
use protorun.Plumtree.Node.Deliveries.{
  deliveries, IsEachOnce, IsOnce, IsPossible, ArePossible, IsOnce-same, IsOnce-pushed,
  IsOnce-accepted, next_id, IsOnce-originated,
}

IsOnce-gossip :
    (m : Gossip) (from : Host) (s : Node)
    → IsPossible (Input.got_gossip m from) s
    → IsOnce s
    → IsOnce (on_gossip m from s)
unfolding on_gossip on_duplicate deliveries
IsOnce-gossip m from s ok w = elim (Bool-cases (has_id m.id s.received)) [
  | inl e ↦ rw e (IsOnce-same (on_duplicate from s) s refl refl refl refl w)
  | inr e ↦ rw (on_gossip-new m from s e) (
      IsOnce-pushed m.id m.payload ((m.round + 1) % 2 ^ 32) from (accepted m from s)
        (IsOnce-accepted m from s e ok w))
]

IsOnce-broadcast :
    (payload : Bytes) (s : Node)
    → s.seq + 1 < 2 ^ 64
    → IsOnce s
    → IsOnce (handle_broadcast payload s)
unfolding deliveries
IsOnce-broadcast payload s ok w =
    let t = pushed (next_id s) payload 0 s.self (originated payload s) in
    rw (handle_broadcast-eq payload s) (
      IsOnce-same (emit Effect.acknowledged t) t refl refl refl refl (
        IsOnce-pushed (next_id s) payload 0 s.self (originated payload s)
          (IsOnce-originated payload s ok w)))

IsOnce-graft : (m : Graft) (from : Host) (s : Node) → IsOnce s → IsOnce (on_graft m from s)
unfolding on_graft deliveries
IsOnce-graft m from s w =
    IsOnce-same (on_graft m from s) s (ground arith) (ground arith) (ground arith) (ground arith) w

IsOnce-missing_timeout :
    (armed : Option Bool) (id : MessageId) (s : Node) → IsOnce s → IsOnce (fire armed id s)
unfolding fire on_missing_timeout deliveries graft_first
IsOnce-missing_timeout none id s w = w
IsOnce-missing_timeout (some armed) id s w =
    IsOnce-same (on_missing_timeout id s) s (ground arith) (ground arith) (ground arith)
      (ground arith) w

IsOnce-seed : (hs : List Host) (s : Node) → IsOnce s → IsOnce (seed hs s)
unfolding seed
IsOnce-seed [] s w = w
IsOnce-seed (h ∷ hs) s w =
    IsOnce-seed hs (make_eager h s) (IsOnce-same (make_eager h s) s refl refl refl refl w)

deliveries-send_ihave :
    (anns : List Announce) (h : Host) (s : Node)
    → deliveries (send_ihave anns h s).trace ≡ deliveries s.trace
unfolding send_ihave deliveries
deliveries-send_ihave [] h s = refl
deliveries-send_ihave (a ∷ rest) h s = refl

deliveries-flush_peers :
    (hs : List Host) (s : Node) → deliveries (flush_peers hs s).trace ≡ deliveries s.trace
unfolding flush_peers deliveries
deliveries-flush_peers [] s = refl
deliveries-flush_peers (h ∷ hs) s =
    let anns = or_default [] (lookup h s.lazy_queue) in
    deliveries-flush_peers hs (send_ihave anns h s) ∙ deliveries-send_ihave anns h s

IsOnce-step : (i : Input) (s : Node) → IsPossible i s → IsOnce s → IsOnce (step i s)
unfolding step on_ihave on_prune on_neighbor_up on_neighbor_down flush_lazy handle_debug_stats
    deliveries
IsOnce-step (Input.got_gossip m from) s ok w = IsOnce-gossip m from s ok w
IsOnce-step (Input.got_ihave m from) s ok w =
    let e = note_announcements-frame m.announcements from s in
    IsOnce-same (step (Input.got_ihave m from) s) s (ap Node.self e) (ap Node.received e)
      (ap Node.seq e) (ap (λ t. deliveries (Node.trace t)) e) w
IsOnce-step (Input.got_graft m from) s ok w = IsOnce-graft m from s w
IsOnce-step (Input.got_prune from) s ok w = IsOnce-same (on_prune from s) s refl refl refl refl w
IsOnce-step (Input.neighbor_up h) s ok w =
    IsOnce-same (on_neighbor_up h s) s (ground arith) (ground arith) (ground arith) (ground arith) w
IsOnce-step (Input.neighbor_down h) s ok w =
    let e = forget_announcer-frame h (keys s.missing) (record s {
      eager = remove h s.eager;
      lazy = remove h s.lazy;
      lazy_queue = delete h s.lazy_queue;
    }) in
    IsOnce-same (on_neighbor_down h s) s (ap Node.self e) (ap Node.received e) (ap Node.seq e)
      (ap (λ t. deliveries (Node.trace t)) e) w
IsOnce-step (Input.broadcast payload) s ok w = IsOnce-broadcast payload s ok w
IsOnce-step Input.asked_stats s ok w = IsOnce-same (handle_debug_stats s) s refl refl refl refl w
IsOnce-step Input.lazy_tick s ok w =
    let hs = sorted (keys s.lazy_queue) in
    let e = flush_peers-frame hs s in
    IsOnce-same (flush_lazy s) s (ap Node.self e) (ap Node.received e) (ap Node.seq e)
      (deliveries-flush_peers hs s) w
IsOnce-step (Input.missing_timeout id) s ok w = IsOnce-missing_timeout (lookup id s.timers) id s w
IsOnce-step (Input.got_view hs) s ok w = IsOnce-seed hs s w

IsOnce-kept : (is : List Input) (s : Node) → ArePossible is s → IsOnce s → IsOnce (run is s)
unfolding run
IsOnce-kept [] s ok w = w
IsOnce-kept (i ∷ is) s ok w = IsOnce-kept is (step i s) ok.1 (IsOnce-step i s ok.0 w)

-- Over any history in which no gossip carries an id of the node that it did not broadcast yet and its
-- counter does not wrap, the instance delivers no id twice, and what it delivered is what it received.
pub run-IsEachOnce :
    (self : Host) (cache_size : ℕ) (is : List Input)
    → ArePossible is (new self cache_size)
    → IsEachOnce (deliveries (run is (new self cache_size)).trace)
      × ((id : MessageId)
          → has_id id (deliveries (run is (new self cache_size)).trace)
            ≡ has_id id (run is (new self cache_size)).received)
unfolding new deliveries has_id
run-IsEachOnce self cache_size is ok =
    let w =
      IsOnce-kept is (new self cache_size) ok
        (record { same_ids = λ id. refl; once = tt; own = λ n e. cc e }) in
    (w.once, w.same_ids)
