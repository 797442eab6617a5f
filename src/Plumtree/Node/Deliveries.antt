-- ===== src/Plumtree/Node/Deliveries.antt =====
-- The delivered ids of an instance of pkg/protocols/plumtree/protocol.go, as its messages come.
use protorun.Wire.{Bytes}
use protorun.Prelude.{
  ◌≡◌, refl, ap, ◌∙◌, sym, subst, Bool-cases, inl, inr, List, [], ◌∷◌, ◌++◌, true, false, ◌||◌,
  arith, same, ◌≤◌, ◌<◌, ◌+◌, ◌^◌, ◌%◌, ℕ,
}
use protorun.Transport.Host.{Host, host_eq}
use protorun.Transport.HostSet.{sorted}
use protorun.Plumtree.Messages.{MessageId, id_eq, id_beq_iff, Gossip}
use protorun.Plumtree.Node.{
  Node, Message, Effect, has_id, push_to, eager_push, receive, send, Bytes,
}
use protorun.Plumtree.Node.Frames.{pushed, pushed-frame, accepted, originated}
use protorun.Plumtree.Node.Step.{Input, step}

-- The ids that were delivered, the newest first.
unfoldable pub deliveries : List Effect → List MessageId
deliveries [] = []
deliveries (Effect.delivered id payload from ∷ es) = id ∷ deliveries es
deliveries (Effect.sent m h ∷ es) = deliveries es
deliveries (Effect.acknowledged ∷ es) = deliveries es
deliveries (Effect.replied_stats r ∷ es) = deliveries es

-- No id is in the list twice.
abbrev pub IsEachOnce : List MessageId → Type 0
IsEachOnce [] = Unit {0}
IsEachOnce (id ∷ ids) = (has_id id ids ≡ false) × IsEachOnce ids

deliveries-push_to :
    (hs : List Host) (m : Gossip) (except : Host) (s : Node)
    → deliveries (push_to hs m except s).trace ≡ deliveries s.trace
unfolding push_to deliveries
deliveries-push_to [] m except s = refl
deliveries-push_to (h ∷ hs) m except s = ground (
  arith,
  deliveries-push_to hs m except s,
  deliveries-push_to hs m except (send (Message.gossip m) h s),
)

-- The delivered ids are the received ones, each once, and those of the node itself are no newer than its
-- last broadcast.
pub record IsOnce (s : Node) : Type 0 where
  pub same_ids : (id : MessageId) → has_id id (deliveries s.trace) ≡ has_id id s.received
  pub once : IsEachOnce (deliveries s.trace)
  pub own : (n : ℕ) → has_id (record { origin = s.self; seq = n }) s.received ≡ true → n ≤ s.seq

-- A gossip does not carry an id of the node that it did not broadcast yet; the counter does not wrap.
abbrev pub IsPossible : Input → Node → Type 0
IsPossible (Input.got_gossip m from) s = m.id.origin ≡ s.self → m.id.seq ≤ s.seq
IsPossible (Input.broadcast payload) s = s.seq + 1 < 2 ^ 64
IsPossible i s = Unit {0}

abbrev pub ArePossible : List Input → Node → Type 0
ArePossible [] s = Unit {0}
ArePossible (i ∷ is) s = IsPossible i s × ArePossible is (step i s)

pub has_id-snoc :
    (id j : MessageId) (ids : List MessageId)
    → has_id id (ids ++ j ∷ []) ≡ (same j id || has_id id ids)
unfolding has_id
has_id-snoc id j [] = refl
has_id-snoc id j (x ∷ ids) = ground (arith, has_id-snoc id j ids)

-- The state has what another one received, delivered and counted.
pub IsOnce-same :
    (s t : Node)
    → s.self ≡ t.self
    → s.received ≡ t.received
    → s.seq ≡ t.seq
    → deliveries s.trace ≡ deliveries t.trace
    → IsOnce t
    → IsOnce s
IsOnce-same s t h r n d w = record {
  same_ids = λ id. rw d (rw r (w.same_ids id));
  once = rw d w.once;
  own = λ k e. rw n (
      w.own k (
        ap (λ x. has_id (record { origin = x; seq = k }) t.received) (sym h)
        ∙ ap (λ ids. has_id (record { origin = s.self; seq = k }) ids) (sym r)
        ∙ e));
}

pub IsOnce-pushed :
    (id : MessageId) (payload : Bytes) (round : ℕ) (except : Host) (s : Node)
    → IsOnce s
    → IsOnce (pushed id payload round except s)
unfolding eager_push
IsOnce-pushed id payload round except s w =
    let p = pushed-frame id payload round except s in
    IsOnce-same (pushed id payload round except s) s (ap Node.self p) (ap Node.received p)
      (ap Node.seq p)
      (ap (λ t. deliveries (Node.trace t)) p
        ∙ deliveries-push_to (sorted s.eager) (record { id = id; round = round; payload = payload })
            except s)
      w

-- An id that is the own one after a delivery was own before, or is the one delivered.
own-snoc :
    (n : ℕ) (id : MessageId) (s : Node)
    → ((k : ℕ) → has_id (record { origin = s.self; seq = k }) s.received ≡ true → k ≤ n)
    → (id.origin ≡ s.self → id.seq ≤ n)
    → (k : ℕ) → has_id (record { origin = s.self; seq = k }) (s.received ++ id ∷ []) ≡ true
    → k ≤ n
own-snoc n id s own ok k r =
    let mine : MessageId = record { origin = s.self; seq = k } in
    elim (Bool-cases (same id mine)) [
      | inl e ↦
          let q : id ≡ mine = (id_beq_iff id mine).0 e in
          subst (λ x. x ≤ n) (ap MessageId.seq q) (ok (ap MessageId.origin q))
      | inr e ↦ own k (ground (arith, has_id-snoc mine id s.received))
    ]

pub IsOnce-accepted :
    (m : Gossip) (from : Host) (s : Node)
    → has_id m.id s.received ≡ false
    → IsPossible (Input.got_gossip m from) s
    → IsOnce s
    → IsOnce (accepted m from s)
unfolding deliveries has_id
IsOnce-accepted m from s e ok w = record {
  same_ids = λ id. ground (arith, has_id-snoc id m.id s.received, w.same_ids id);
  once = (w.same_ids m.id ∙ e, w.once);
  own = own-snoc s.seq m.id s w.own ok;
}

abbrev pub next_id : Node → MessageId
next_id s = record { origin = s.self; seq = (s.seq + 1) % 2 ^ 64 }

pub next_id-fresh :
    (s : Node) → s.seq + 1 < 2 ^ 64 → IsOnce s → has_id (next_id s) s.received ≡ false
next_id-fresh s ok w = elim (Bool-cases (has_id (next_id s) s.received)) [
  | inl e ↦ absurd (omega (arith, w.own ((s.seq + 1) % 2 ^ 64) e))
  | inr e ↦ e
]

pub IsOnce-originated :
    (payload : Bytes) (s : Node) → s.seq + 1 < 2 ^ 64 → IsOnce s → IsOnce (originated payload s)
unfolding deliveries has_id receive
IsOnce-originated payload s ok w =
    let fresh = next_id-fresh s ok w in
    rw fresh (record {
      same_ids = λ j. ground (arith, has_id-snoc j (next_id s) s.received, w.same_ids j);
      once = (w.same_ids (next_id s) ∙ fresh, w.once);
      own =
          own-snoc ((s.seq + 1) % 2 ^ 64) (next_id s) s (λ k e. omega (arith, w.own k e))
            (λ e. omega arith);
    })
