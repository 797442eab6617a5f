-- ===== src/Paxos/Tests.antt =====
-- Runs of the paxos model on a group of three, and the theorems at those inputs.
use protorun.Prelude.{nat_eq, ◌≡◌, refl, true, List, [], ◌∷◌, if◌then◌else◌}
use protorun.Transport.Host.{Host, host_eq}
use protorun.Wire.{Bytes}
use protorun.Paxos.Storage.{MemoryStorage, memory_storage, new_memory_storage}
use protorun.Paxos.Node.{Node, new}
use protorun.Paxos.Node.Step.{
  Input, got_prepare, got_accept, got_accepted, proposed, retry_timeout, init,
}
use protorun.Paxos.Node.Kept.{decisions}
use protorun.Paxos.Node.History.{run, decision_stable, published_once}

abbrev node_a : Host
node_a = record { port = 7001; ip = 97 ∷ [] }

abbrev node_b : Host
node_b = record { port = 7002; ip = 98 ∷ [] }

abbrev node_c : Host
node_c = record { port = 7003; ip = 99 ∷ [] }

abbrev value_x : Bytes
value_x = 120 ∷ []

abbrev value_y : Bytes
value_y = 121 ∷ []

-- An acceptor that has promised ballot 4 and accepted x there.
abbrev acceptor : Node MemoryStorage
acceptor = record (new node_a (node_b ∷ node_c ∷ []) new_memory_storage) {
  promised = 4;
  accepted_ballot = 4;
  accepted_value = value_x;
  has_accepted = true;
  max_seen = 4;
  storage = record {
    state = record {
      promised = 4;
      accepted_ballot = 4;
      accepted_value = value_x;
      has_accepted = true;
    };
    saved = true;
  };
}

-- A participant that has learned the decision.
abbrev decided_x : Node MemoryStorage
decided_x = record acceptor {
  decided = true;
  decided_value = value_x;
  decided_ballot = 4;
  announced = true;
}

-- A higher ballot with another value, and its acceptances by the others.
abbrev rival : List Input
rival =
    got_prepare (record { ballot = 7 }) node_c
    ∷ got_accept (record { ballot = 7; value = value_y }) node_c
    ∷ got_accepted (record { ballot = 7; value = value_y }) node_b
    ∷ got_accepted (record { ballot = 7; value = value_y }) node_c
    ∷ retry_timeout
    ∷ proposed value_y
    ∷ []

decision_stable_example :
    ((run memory_storage rival decided_x).decided ≡ true)
    × ((run memory_storage rival decided_x).decided_value ≡ value_x)
    × ((run memory_storage rival decided_x).decided_ballot ≡ 4)
decision_stable_example = decision_stable memory_storage rival decided_x refl

published_once_example :
    let t =
      run memory_storage rival
        (init memory_storage (new node_a (node_b ∷ node_c ∷ []) new_memory_storage)) in
    decisions t.trace ≡ (if t.decided then (t.decided_value, t.decided_ballot) ∷ [] else [])
published_once_example =
    published_once memory_storage node_a (node_b ∷ node_c ∷ []) new_memory_storage rival

-- b's acceptance of ballot 7 is recorded, and c's arrives, with another value.
abbrev half_learned : Node MemoryStorage
half_learned = record acceptor {
  accepts = (7, (node_b, true) ∷ []) ∷ [];
  value_at = (7, value_y) ∷ [];
  size = 3;
}
