-- ===== src/Plumtree/Tests.antt =====
-- Runs of the plumtree model, and the theorems at those inputs.
use protorun.Prelude.{
  ℕ, bytes_beq, ◌%◌, ◌^◌, ◌≡◌, refl, List, [], ◌∷◌, ◌++◌, lookup, take, some, none, true, arith, ok,
}
use protorun.Wire.{Bytes}
use protorun.Transport.Host.{Host, host_eq, host_beq}
use protorun.Transport.HostSet.{sorted}
use protorun.Plumtree.Messages.{
  MessageId, id_eq, id_beq, Gossip, Announce, marshal_ihave, unmarshal_ihave,
}
use protorun.Plumtree.Messages.Laws.{unmarshal-marshal_ihave}
use protorun.Plumtree.Node.{
  Node, lazy_push, eager_push, queue_for, push_to, new, PendingGraft, has_id, handle_broadcast,
}
use protorun.Plumtree.Node.Step.{Input, step, run}
use protorun.Plumtree.Node.Missing.{IsWatched, run-IsWatched}
use protorun.Plumtree.Node.Retries.{timeouts, grafts, timeouts-grafts}
use protorun.Plumtree.Node.Deliveries.{deliveries, IsEachOnce}
use protorun.Plumtree.Node.Once.{run-IsEachOnce}

abbrev node_a : Host
node_a = record { port = 7001; ip = 97 ∷ [] }

abbrev node_b : Host
node_b = record { port = 7002; ip = 98 ∷ [] }

abbrev node_c : Host
node_c = record { port = 7003; ip = 99 ∷ [] }

abbrev id_b : ℕ → MessageId
id_b n = record { origin = node_b; seq = n }

abbrev gossip_b : Gossip
gossip_b = record { id = id_b 1; round = 0; payload = 120 ∷ [] }

abbrev announce_b : Announce
announce_b = record { id = id_b 2; round = 3 }

-- Two neighbours; a message from one, its duplicate from the other, and an announcement.
abbrev history : List Input
history =
    Input.neighbor_up node_b
    ∷ Input.neighbor_up node_c
    ∷ Input.got_gossip gossip_b node_b
    ∷ Input.got_gossip gossip_b node_c
    ∷ Input.got_ihave (record { announcements = announce_b ∷ [] }) node_c
    ∷ []

run-IsWatched_example : IsWatched (run history (new node_a 2))
run-IsWatched_example = run-IsWatched node_a 2 history

-- Two announcers of an id, the timer armed.
abbrev waiting : Node
waiting = record (new node_a 2) {
  missing =
      (id_b 2, record { peer = node_c; round = 3 } ∷ record { peer = node_b; round = 1 } ∷ []) ∷ [];
  timers = (id_b 2, true) ∷ [];
}

abbrev askable : List PendingGraft
askable = record { peer = node_c; round = 3 } ∷ record { peer = node_b; round = 1 } ∷ []

timeouts-grafts_example :
    (run (timeouts (id_b 2) askable) waiting).trace ≡ grafts (id_b 2) askable waiting.trace
    × lookup (id_b 2) (run (timeouts (id_b 2) askable) waiting).timers ≡ some true
    × lookup
        (id_b 2)
        (step (Input.missing_timeout (id_b 2)) (run (timeouts (id_b 2) askable) waiting)).timers
      ≡ none
unfolding new has_id lookup host_beq id_beq bytes_beq
timeouts-grafts_example = timeouts-grafts (id_b 2) askable waiting refl refl refl

-- A broadcast that comes back, and a message of another node.
abbrev echoed : List Input
echoed =
    Input.broadcast (120 ∷ [])
    ∷ Input.got_gossip
        (record { id = record { origin = node_a; seq = 1 }; round = 1; payload = 120 ∷ [] }) node_b
    ∷ []

run-IsEachOnce_example :
    IsEachOnce (deliveries (run echoed (new node_a 2)).trace)
    × ((id : MessageId)
        → has_id id (deliveries (run echoed (new node_a 2)).trace)
          ≡ has_id id (run echoed (new node_a 2)).received)
unfolding new step handle_broadcast lazy_push eager_push queue_for push_to sorted
run-IsEachOnce_example = run-IsEachOnce node_a 2 echoed (omega arith, (λ e. omega arith, tt))

abbrev linked : Node
linked = record (new node_a 2) { eager = node_b ∷ []; lazy = node_c ∷ [] }

unmarshal-marshal_ihave_example :
    (b : Bytes) × (marshal_ihave (record { announcements = announce_b ∷ [] }) ≡ ok b)
    × (unmarshal_ihave (b ++ 7 ∷ [])
        ≡ ok (record { announcements = take (1 % 2 ^ 16) (announce_b ∷ []) }))
unmarshal-marshal_ihave_example =
    unmarshal-marshal_ihave (record { announcements = announce_b ∷ [] }) (7 ∷ [])
      (
        record {
          id_fits = record {
            origin_fits = record { ip_fits = omega arith; port_fits = omega arith };
            seq_fits = omega arith;
          };
          round_fits = omega arith;
        },
        tt,
      )
