-- ===== src/Plumtree/Node/Tree.antt =====
-- The eager and the lazy set of pkg/protocols/plumtree/protocol.go over any history of an instance.
use protorun.Wire.{Bytes}
use protorun.Prelude.{
  keys, ◌≡◌, refl, ap, Bool-cases, inl, inr, List, [], ◌∷◌, Option, some, none, or_default, lookup,
  Bool, false, ◌&&◌, arith, same, ℕ, delete, ◌+◌, ◌%◌, ◌^◌,
}
use protorun.Transport.Host.{Host, host_eq}
use protorun.Transport.HostSet.{contains, remove, sorted}
use protorun.Transport.HostSet.Laws.{
  IsDistinct, contains-add, contains-remove, IsDistinct-add, IsDistinct-remove,
}
use protorun.Plumtree.Messages.{MessageId, id_eq, Graft, Gossip}
use protorun.Plumtree.Node.{
  Node, PendingGraft, new, make_eager, make_lazy, has_id, on_ihave, on_gossip, on_duplicate,
  on_graft, on_prune, on_neighbor_up, on_neighbor_down, on_missing_timeout, graft_first, flush_lazy,
  handle_broadcast, handle_debug_stats, delete, Bytes, ℕ,
}
use protorun.Plumtree.Node.Frames.{
  note_announcements-frame, forget_announcer-frame, flush_peers-frame, pushed, pushed-frame,
  on_gossip-new, accepted, originated, handle_broadcast-eq,
}
use protorun.Plumtree.Node.Step.{fire, Input, seed, step, run}

-- A host is in one of the sets at most, and there once.
pub record IsTree (s : Node) : Type 0 where
  pub apart : (h : Host) → (contains h s.eager && contains h s.lazy) ≡ false
  pub eager_distinct : IsDistinct s.eager
  pub lazy_distinct : IsDistinct s.lazy

-- The state has the sets of another one.
abbrev SameSets : Node → Node → Type 0
SameSets s t = (s.eager ≡ t.eager) × (s.lazy ≡ t.lazy)

IsTree-same : (s t : Node) → SameSets s t → IsTree t → IsTree s
IsTree-same s t e w = record {
  apart = λ h. rw e.0 (rw e.1 (w.apart h));
  eager_distinct = rw e.0 w.eager_distinct;
  lazy_distinct = rw e.1 w.lazy_distinct;
}

IsTree-make_eager : (h : Host) (s : Node) → IsTree s → IsTree (make_eager h s)
IsTree-make_eager h s w = record {
  apart = λ x. ground (arith, w.apart x, contains-add x h s.eager, contains-remove x h s.lazy);
  eager_distinct = IsDistinct-add h s.eager w.eager_distinct;
  lazy_distinct = IsDistinct-remove h s.lazy w.lazy_distinct;
}

IsTree-make_lazy : (h : Host) (s : Node) → IsTree s → IsTree (make_lazy h s)
IsTree-make_lazy h s w = record {
  apart = λ x. ground (arith, w.apart x, contains-add x h s.lazy, contains-remove x h s.eager);
  eager_distinct = IsDistinct-remove h s.eager w.eager_distinct;
  lazy_distinct = IsDistinct-add h s.lazy w.lazy_distinct;
}

IsTree-removed :
    (h : Host) (s : Node)
    → IsTree s
    → IsTree (record s { eager = remove h s.eager; lazy = remove h s.lazy })
IsTree-removed h s w = record {
  apart = λ x. ground (arith, w.apart x, contains-remove x h s.lazy, contains-remove x h s.eager);
  eager_distinct = IsDistinct-remove h s.eager w.eager_distinct;
  lazy_distinct = IsDistinct-remove h s.lazy w.lazy_distinct;
}

pushed-sets :
    (id : MessageId) (payload : Bytes) (round : ℕ) (except : Host) (s : Node)
    → SameSets (pushed id payload round except s) s
pushed-sets id payload round except s = (
  ap Node.eager (pushed-frame id payload round except s),
  ap Node.lazy (pushed-frame id payload round except s),
)

IsTree-gossip : (m : Gossip) (from : Host) (s : Node) → IsTree s → IsTree (on_gossip m from s)
unfolding on_gossip on_duplicate
IsTree-gossip m from s w = elim (Bool-cases (has_id m.id s.received)) [
  | inl e ↦ rw e (IsTree-same _ (make_lazy from s) (refl, refl) (IsTree-make_lazy from s w))
  | inr e ↦ rw (on_gossip-new m from s e) (
      IsTree-same _ _ (pushed-sets m.id m.payload ((m.round + 1) % 2 ^ 32) from (accepted m from s))
        (IsTree-same (accepted m from s) (make_eager from s) (refl, refl)
          (IsTree-make_eager from s w)))
]

IsTree-broadcast : (payload : Bytes) (s : Node) → IsTree s → IsTree (handle_broadcast payload s)
IsTree-broadcast payload s w = rw (handle_broadcast-eq payload s) (
    IsTree-same _ s
      (pushed-sets (record { origin = s.self; seq = (s.seq + 1) % 2 ^ 64 }) payload 0 s.self
        (originated payload s))
      w)

IsTree-graft : (m : Graft) (from : Host) (s : Node) → IsTree s → IsTree (on_graft m from s)
unfolding on_graft
IsTree-graft m from s w =
    IsTree-same _ (make_eager from s) (ground arith, ground arith) (IsTree-make_eager from s w)

IsTree-graft_first :
    (id : MessageId) (entries : List PendingGraft) (s : Node)
    → IsTree s
    → IsTree (graft_first id entries s)
unfolding graft_first
IsTree-graft_first id [] s w = w
IsTree-graft_first id (first ∷ rest) s w =
    IsTree-same _ (make_eager first.peer s) (refl, refl) (IsTree-make_eager first.peer s w)

IsTree-missing_timeout : (id : MessageId) (s : Node) → IsTree s → IsTree (on_missing_timeout id s)
unfolding on_missing_timeout
IsTree-missing_timeout id s w = elim (Bool-cases (has_id id s.received)) [
  | inl e ↦ rw e (IsTree-same _ s (refl, refl) w)
  | inr e ↦
      let s₁ = record s { timers = delete id s.timers } in
      rw e (
        IsTree-graft_first id (or_default [] (lookup id s.missing)) s₁
          (IsTree-same s₁ s (refl, refl) w))
]

IsTree-fire :
    (armed : Option Bool) (id : MessageId) (s : Node) → IsTree s → IsTree (fire armed id s)
unfolding fire
IsTree-fire none id s w = w
IsTree-fire (some armed) id s w = IsTree-missing_timeout id s w

IsTree-neighbor_up : (h : Host) (s : Node) → IsTree s → IsTree (on_neighbor_up h s)
unfolding on_neighbor_up
IsTree-neighbor_up h s w = elim (Bool-cases (same h s.self)) [
  | inl e ↦ rw e w
  | inr e ↦ rw e (IsTree-make_eager h s w)
]

IsTree-neighbor_down : (h : Host) (s : Node) → IsTree s → IsTree (on_neighbor_down h s)
unfolding on_neighbor_down
IsTree-neighbor_down h s w =
    rw
      (forget_announcer-frame h (keys s.missing) (record s {
        eager = remove h s.eager;
        lazy = remove h s.lazy;
        lazy_queue = delete h s.lazy_queue;
      }))
      (IsTree-same _ _ (refl, refl) (IsTree-removed h s w))

IsTree-flush : (s : Node) → IsTree s → IsTree (flush_lazy s)
unfolding flush_lazy
IsTree-flush s w =
    let e = flush_peers-frame (sorted (keys s.lazy_queue)) s in
    IsTree-same _ s (ap Node.eager e, ap Node.lazy e) w

IsTree-seed : (hs : List Host) (s : Node) → IsTree s → IsTree (seed hs s)
unfolding seed
IsTree-seed [] s w = w
IsTree-seed (h ∷ hs) s w = IsTree-seed hs (make_eager h s) (IsTree-make_eager h s w)

IsTree-step : (i : Input) (s : Node) → IsTree s → IsTree (step i s)
unfolding step on_ihave on_prune handle_debug_stats
IsTree-step (Input.got_gossip m from) s w = IsTree-gossip m from s w
IsTree-step (Input.got_ihave m from) s w =
    let e = note_announcements-frame m.announcements from s in
    IsTree-same _ s (ap Node.eager e, ap Node.lazy e) w
IsTree-step (Input.got_graft m from) s w = IsTree-graft m from s w
IsTree-step (Input.got_prune from) s w = IsTree-make_lazy from s w
IsTree-step (Input.neighbor_up h) s w = IsTree-neighbor_up h s w
IsTree-step (Input.neighbor_down h) s w = IsTree-neighbor_down h s w
IsTree-step (Input.broadcast payload) s w = IsTree-broadcast payload s w
IsTree-step Input.asked_stats s w = IsTree-same _ s (refl, refl) w
IsTree-step Input.lazy_tick s w = IsTree-flush s w
IsTree-step (Input.missing_timeout id) s w = IsTree-fire (lookup id s.timers) id s w
IsTree-step (Input.got_view hs) s w = IsTree-seed hs s w

IsTree-kept : (is : List Input) (s : Node) → IsTree s → IsTree (run is s)
unfolding run
IsTree-kept [] s w = w
IsTree-kept (i ∷ is) s w = IsTree-kept is (step i s) (IsTree-step i s w)

-- Whatever messages, notifications, requests and timers an instance handles after its start, no host is
-- in its eager and its lazy set at once, and none is in either of them twice.
pub run-IsTree :
    (self : Host) (cache_size : ℕ) (is : List Input) → IsTree (run is (new self cache_size))
unfolding new contains
run-IsTree self cache_size is =
    IsTree-kept is (new self cache_size)
      (record { apart = λ h. refl; eager_distinct = tt; lazy_distinct = tt })
