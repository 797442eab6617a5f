-- ===== src/Paxos/Node/Learner.antt =====
-- The learner of pkg/protocols/paxos/protocol.go: when `recordAccepted` decides, and on what.
use protorun.Prelude.{
  nat_eq, ℕ, ◌≤◌, ◌≡◌, Bool, true, false, List, [], or_default, lookup, length, ◌*◌, ◌<◌,
}
use protorun.Transport.Host.{Host, host_eq}
use protorun.Wire.{Bytes}
use protorun.Paxos.Node.{Node}

module _ {S : Type 0} where
  -- The acceptors recorded for a ballot.
  abbrev pub acceptors : ℕ → Node S → List (Host × Bool)
  acceptors ballot s = or_default [] (lookup ballot s.accepts)

  -- The ballot's value when an acceptance bears `value`: the first one recorded, or else this one.
  abbrev pub first_value : ℕ → Bytes → Node S → Bytes
  first_value ballot value s = or_default value (lookup ballot s.value_at)

  -- The ballot and its value are decided, and more than half of the group are recorded for the ballot.
  abbrev pub IsDecidedOn : ℕ → Bytes → Node S → Type 0
  IsDecidedOn ballot value s =
      (s.decided ≡ true)
      × (s.decided_ballot ≡ ballot)
      × (s.decided_value ≡ value)
      × (s.size < 2 * length (acceptors ballot s))

  -- Nothing is decided, and at most half of the group are recorded for the ballot.
  abbrev pub IsShort : ℕ → Node S → Type 0
  IsShort ballot s = (s.decided ≡ false) × (2 * length (acceptors ballot s) ≤ s.size)
