-- ===== src/Plumtree/Node/Step.antt =====
-- One event of the loop that owns a plumtree instance: what `Start` and `Init` register.
use protorun.Prelude.{Bool, List, [], ◌∷◌, Option, none, some, lookup}
use protorun.Wire.{Bytes}
use protorun.Transport.Host.{Host}
use protorun.Plumtree.Messages.{MessageId, id_eq, Gossip, IHave, Graft}
use protorun.Plumtree.Node.{
  Node, make_eager, on_gossip, on_ihave, on_graft, on_prune, on_neighbor_up, on_neighbor_down,
  handle_broadcast, handle_debug_stats, on_missing_timeout, flush_lazy,
}

pub data Input : Type 0 where
  got_gossip : Gossip → Host → Input
  got_ihave : IHave → Host → Input
  got_graft : Graft → Host → Input
  got_prune : Host → Input
  neighbor_up neighbor_down : Host → Input
  broadcast : Bytes → Input
  asked_stats lazy_tick : Input
  missing_timeout : MessageId → Input
  got_view : List Host → Input

-- The callback of `Init` on the first view; one that failed is logged only, and is no event.
unfoldable pub seed : List Host → Node → Node
seed [] s = s
seed (h ∷ hs) s = seed hs (make_eager h s)

-- A timer that is not armed, or cancelled, does not fire.
unfoldable pub fire : Option Bool → MessageId → Node → Node
fire none id s = s
fire (some armed) id s = on_missing_timeout id s

unfoldable pub step : Input → Node → Node
unfolding seed fire
step (got_gossip m from) s = on_gossip m from s
step (got_ihave m from) s = on_ihave m from s
step (got_graft m from) s = on_graft m from s
step (got_prune from) s = on_prune from s
step (neighbor_up h) s = on_neighbor_up h s
step (neighbor_down h) s = on_neighbor_down h s
step (broadcast payload) s = handle_broadcast payload s
step asked_stats s = handle_debug_stats s
step lazy_tick s = flush_lazy s
step (missing_timeout id) s = fire (lookup id s.timers) id s
step (got_view hs) s = seed hs s

unfoldable pub run : List Input → Node → Node
run [] s = s
run (i ∷ is) s = run is (step i s)
