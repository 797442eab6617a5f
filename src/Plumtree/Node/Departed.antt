-- ===== src/Plumtree/Node/Departed.antt =====
-- What pkg/protocols/plumtree/protocol.go keeps of a neighbour that went down.
use protorun.Prelude.{
  keys, ◌≡◌, refl, ap, ◌∙◌, Bool, false, not, ◌&&◌, ◌||◌, List, [], ◌∷◌, Map, none, or_default,
  lookup, delete, lookup-insert, lookup-delete, same, arith, Bool-cases, inl, inr, if◌then◌else◌,
}
use protorun.Transport.Host.{Host, host_eq, host_beq_iff}
use protorun.Transport.HostSet.{contains, remove}
use protorun.Transport.HostSet.Laws.{contains-remove}
use protorun.Plumtree.Messages.{MessageId, id_eq, id_beq_iff}
use protorun.Plumtree.Node.{
  Node, PendingGraft, has_id, without_peer, cancel_missing, keep_announcers, forget_announcer,
  on_neighbor_down,
}
use protorun.Plumtree.Node.Frames.{forget_announcer-frame}
use protorun.Plumtree.Node.Missing.{announcers}

-- One of the announcers is the peer.
unfoldable pub names : Host → List PendingGraft → Bool
names peer [] = false
names peer (e ∷ es) = same e.peer peer || names peer es

names-without_peer :
    (peer : Host) (es : List PendingGraft) → names peer (without_peer peer es) ≡ false
unfolding names without_peer
names-without_peer peer [] = refl
names-without_peer peer (e ∷ es) = ground (arith, names-without_peer peer es)

announcers-keep :
    (id j : MessageId) (left : List PendingGraft) (s : Node)
    → announcers j (keep_announcers id left s) ≡ (if same id j then left else announcers j s)
unfolding keep_announcers cancel_missing
announcers-keep id j [] s = ground (arith, lookup-delete id j s.missing)
announcers-keep id j (e ∷ es) s = ground (arith, lookup-insert id j (e ∷ es) s.missing)

names-forget_announcer :
    (peer : Host) (j : MessageId) (ids : List MessageId) (s : Node)
    → names peer (announcers j (forget_announcer peer ids s))
      ≡ (not (has_id j ids) && names peer (announcers j s))
unfolding forget_announcer has_id
names-forget_announcer peer j [] s = refl
names-forget_announcer peer j (id ∷ ids) s =
    let left = without_peer peer (announcers id s) in
    ground (
      arith,
      names-forget_announcer peer j ids (keep_announcers id left s),
      announcers-keep id j left s,
      names-without_peer peer (announcers id s),
      id_beq_iff id j,
    )

announcers-absent :
    (j : MessageId) (m : Map MessageId (List PendingGraft))
    → has_id j (keys m) ≡ false
    → or_default [] (lookup j m) ≡ []
unfolding has_id lookup
announcers-absent j [] e = refl
announcers-absent j ((id, es) ∷ m) e = ground (arith, announcers-absent j m)

names-keys :
    (peer : Host) (id : MessageId) (m : Map MessageId (List PendingGraft))
    → (not (has_id id (keys m)) && names peer (or_default [] (lookup id m))) ≡ false
unfolding names
names-keys peer id m = elim (Bool-cases (has_id id (keys m))) [
  | inl e ↦ rw e refl
  | inr e ↦ rw (e, announcers-absent id m e) refl
]

-- A neighbour that went down is in neither set, has no announcements queued, and is not among the
-- announcers of any id, so that no graft can go to it.
pub on_neighbor_down-forgets :
    (peer : Host) (s : Node)
    → let t = on_neighbor_down peer s in
      (contains peer t.eager ≡ false)
      × (contains peer t.lazy ≡ false)
      × (lookup peer t.lazy_queue ≡ none)
      × ((id : MessageId) → names peer (announcers id t) ≡ false)
unfolding on_neighbor_down names
on_neighbor_down-forgets peer s =
    let s₁ = record s {
      eager = remove peer s.eager;
      lazy = remove peer s.lazy;
      lazy_queue = delete peer s.lazy_queue;
    } in
    let e = forget_announcer-frame peer (keys s.missing) s₁ in
    (
      ap (λ t. contains peer (Node.eager t)) e
          ∙ ground (arith, contains-remove peer peer s.eager, host_beq_iff peer peer),
      ap (λ t. contains peer (Node.lazy t)) e
          ∙ ground (arith, contains-remove peer peer s.lazy, host_beq_iff peer peer),
      ap (λ t. lookup peer (Node.lazy_queue t)) e
          ∙ ground (arith, lookup-delete peer peer s.lazy_queue, host_beq_iff peer peer),
      λ id. names-forget_announcer peer id (keys s.missing) s₁ ∙ names-keys peer id s.missing,
    )
