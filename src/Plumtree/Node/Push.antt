-- ===== src/Plumtree/Node/Push.antt =====
-- Whom pkg/protocols/plumtree/protocol.go tells of a message: the eager peers get it, for the lazy ones
-- an announcement is queued.
use protorun.Prelude.{
  ◌≡◌, refl, ap, ◌∙◌, Bool, true, false, not, ◌&&◌, ◌||◌, List, [], ◌∷◌, ◌++◌, or_default, lookup,
  insert, lookup-insert, same, arith, ℕ, ◌+◌, ◌%◌, ◌^◌,
}
use protorun.Wire.{Bytes}
use protorun.Transport.Host.{Host, host_eq, host_beq_iff}
use protorun.Transport.HostSet.{contains, sorted}
use protorun.Transport.HostSet.Laws.{contains-sorted, contains-remove, contains-add}
use protorun.Plumtree.Messages.{MessageId, id_eq, id_beq_iff, Gossip, Announce}
use protorun.Plumtree.Node.{
  Node, Message, Effect, has_id, send, push_to, eager_push, queue_for, lazy_push, on_gossip,
  handle_broadcast,
}
use protorun.Plumtree.Node.Frames.{
  push_to-frame, pushed, pushed-frame, accepted, originated, on_gossip-new, handle_broadcast-eq,
}

-- The message with this id was sent to the host.
unfoldable pub tells : Host → MessageId → List Effect → Bool
tells h id [] = false
tells h id (Effect.sent (Message.gossip m) t ∷ es) = (same t h && same m.id id) || tells h id es
tells h id (Effect.sent (Message.ihave m) t ∷ es) = tells h id es
tells h id (Effect.sent (Message.graft m) t ∷ es) = tells h id es
tells h id (Effect.sent Message.prune t ∷ es) = tells h id es
tells h id (Effect.delivered i payload from ∷ es) = tells h id es
tells h id (Effect.acknowledged ∷ es) = tells h id es
tells h id (Effect.replied_stats r ∷ es) = tells h id es

unfoldable pub lists : MessageId → List Announce → Bool
lists id [] = false
lists id (a ∷ more) = same a.id id || lists id more

-- An announcement of this id is queued for the host.
abbrev pub announces : Host → MessageId → Node → Bool
announces h id s = lists id (or_default [] (lookup h s.lazy_queue))

lists-append :
    (id : MessageId) (xs ys : List Announce) → lists id (xs ++ ys) ≡ (lists id xs || lists id ys)
unfolding lists
lists-append id [] ys = refl
lists-append id (x ∷ xs) ys = ground (arith, lists-append id xs ys)

tells-push_to :
    (h : Host) (hs : List Host) (m : Gossip) (except : Host) (s : Node)
    → tells h m.id (push_to hs m except s).trace
      ≡ ((contains h hs && not (same h except)) || tells h m.id s.trace)
unfolding push_to contains tells
tells-push_to h [] m except s = refl
tells-push_to h (x ∷ hs) m except s = ground (
  arith,
  tells-push_to h hs m except s,
  tells-push_to h hs m except (send (Message.gossip m) x s),
  host_beq_iff x h,
  host_beq_iff h except,
  host_beq_iff x except,
  id_beq_iff m.id m.id,
)

announces-queue_for :
    (h : Host) (hs : List Host) (a : Announce) (except : Host) (s : Node)
    → announces h a.id (queue_for hs a except s)
      ≡ ((contains h hs && not (same h except)) || announces h a.id s)
unfolding queue_for contains lists
announces-queue_for h [] a except s = refl
announces-queue_for h (x ∷ hs) a except s =
    let anns = or_default [] (lookup x s.lazy_queue) ++ a ∷ [] in
    ground (
      arith,
      announces-queue_for h hs a except s,
      announces-queue_for h hs a except (record s { lazy_queue = insert x anns s.lazy_queue }),
      lookup-insert x h anns s.lazy_queue,
      lists-append a.id (or_default [] (lookup x s.lazy_queue)) (a ∷ []),
      host_beq_iff x h,
      host_beq_iff h except,
      host_beq_iff x except,
      id_beq_iff a.id a.id,
    )

tells-pushed :
    (h : Host) (id : MessageId) (payload : Bytes) (round : ℕ) (except : Host) (s : Node)
    → tells h id (pushed id payload round except s).trace
      ≡ ((contains h s.eager && not (same h except)) || tells h id s.trace)
unfolding eager_push
tells-pushed h id payload round except s =
    let m : Gossip = record { id = id; round = round; payload = payload } in
    ap (λ t. tells h id (Node.trace t)) (pushed-frame id payload round except s)
    ∙ tells-push_to h (sorted s.eager) m except s
    ∙ ap (λ b. (b && not (same h except)) || tells h id s.trace) (contains-sorted h s.eager)

announces-pushed :
    (h : Host) (id : MessageId) (payload : Bytes) (round : ℕ) (except : Host) (s : Node)
    → announces h id (pushed id payload round except s)
      ≡ ((contains h s.lazy && not (same h except)) || announces h id s)
unfolding lazy_push eager_push
announces-pushed h id payload round except s =
    let m : Gossip = record { id = id; round = round; payload = payload } in
    let t = push_to (sorted s.eager) m except s in
    let e = push_to-frame (sorted s.eager) m except s in
    announces-queue_for h (sorted t.lazy) (record { id = id; round = round }) except t
    ∙ ap (λ b. (b && not (same h except)) || announces h id t) (contains-sorted h t.lazy)
    ∙ ap
        (λ u.
          (contains h (Node.lazy u) && not (same h except))
          || lists id (or_default [] (lookup h (Node.lazy_queue u))))
        e

-- A message that is new to the instance goes on to every neighbour but the one it came from: the message
-- itself is sent to an eager one, and an announcement is queued for a lazy one.
pub on_gossip-tells :
    (m : Gossip) (from h : Host) (s : Node)
    → has_id m.id s.received ≡ false
    → same h from ≡ false
    → (contains h s.eager ≡ true → tells h m.id (on_gossip m from s).trace ≡ true)
      × (contains h s.lazy ≡ true → announces h m.id (on_gossip m from s) ≡ true)
unfolding tells
on_gossip-tells m from h s e other =
    let r = (m.round + 1) % 2 ^ 32 in
    let t = accepted m from s in
    rw (on_gossip-new m from s e) (
      λ eager. ground (arith, tells-pushed h m.id m.payload r from t, contains-add h from s.eager),
      λ lazy. ground (
        arith,
        announces-pushed h m.id m.payload r from t,
        contains-remove h from s.lazy,
        host_beq_iff from h,
        host_beq_iff h from,
      ),
    )

-- A broadcast goes to every neighbour but the node itself: the message to an eager one, an announcement
-- into the queue of a lazy one.
pub handle_broadcast-tells :
    (payload : Bytes) (h : Host) (s : Node)
    → same h s.self ≡ false
    → let id : MessageId = record { origin = s.self; seq = (s.seq + 1) % 2 ^ 64 } in
      (contains h s.eager ≡ true → tells h id (handle_broadcast payload s).trace ≡ true)
      × (contains h s.lazy ≡ true → announces h id (handle_broadcast payload s) ≡ true)
unfolding tells
handle_broadcast-tells payload h s other =
    let id : MessageId = record { origin = s.self; seq = (s.seq + 1) % 2 ^ 64 } in
    let t = originated payload s in
    rw (handle_broadcast-eq payload s) (
      λ eager. ground (arith, tells-pushed h id payload 0 s.self t),
      λ lazy. ground (arith, announces-pushed h id payload 0 s.self t),
    )
