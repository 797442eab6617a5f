-- ===== src/Plumtree/Node/Retries.antt =====
-- The graft retries of pkg/protocols/plumtree/protocol.go: the timeouts of one missing id, one after the
-- other.
use protorun.Prelude.{
  ◌≡◌, refl, List, [], ◌∷◌, some, none, lookup, insert, delete, lookup-insert_self, lookup-delete,
  same_refl, true, false,
}
use protorun.Plumtree.Messages.{MessageId, id_eq}
use protorun.Plumtree.Node.{
  Node, Message, Effect, PendingGraft, has_id, make_eager, send, graft_first, on_missing_timeout,
}
use protorun.Plumtree.Node.Step.{Input, fire, step, run}

-- The grafts of an id to its announcers in their order, on top of a trace.
abbrev pub grafts : MessageId → List PendingGraft → List Effect → List Effect
grafts id [] trace = trace
grafts id (e ∷ es) trace =
    grafts id es (Effect.sent (Message.graft (record { id = id; round = e.round })) e.peer ∷ trace)

-- The timer of an id fires once for each of its announcers.
abbrev pub timeouts : MessageId → List PendingGraft → List Input
timeouts id [] = []
timeouts id (e ∷ es) = Input.missing_timeout id ∷ timeouts id es

timeout-eq :
    (id : MessageId) (e : PendingGraft) (es : List PendingGraft) (s : Node)
    → has_id id s.received ≡ false
    → lookup id s.missing ≡ some (e ∷ es)
    → lookup id s.timers ≡ some true
    → step (Input.missing_timeout id) s
      ≡ send (Message.graft (record { id = id; round = e.round })) e.peer (
          make_eager e.peer (record s {
            missing = insert id es s.missing;
            timers = insert id true (delete id s.timers);
          }))
unfolding step fire on_missing_timeout graft_first
timeout-eq id e es s r m t = rw (t, r, m) refl

-- While an announced id is not received, each timeout of its timer asks its next announcer for it, the
-- oldest first, until each was asked; the timer is armed for one more, after which it is not.
pub timeouts-grafts :
    (id : MessageId) (entries : List PendingGraft) (s : Node)
    → has_id id s.received ≡ false
    → lookup id s.missing ≡ some entries
    → lookup id s.timers ≡ some true
    → (run (timeouts id entries) s).trace ≡ grafts id entries s.trace
      × lookup id (run (timeouts id entries) s).timers ≡ some true
      × lookup id (step (Input.missing_timeout id) (run (timeouts id entries) s)).timers ≡ none
unfolding run step fire on_missing_timeout graft_first
timeouts-grafts id [] s r m t =
    (refl, t, rw (t, r, m, lookup-delete id id s.timers, same_refl id) refl)
timeouts-grafts id (e ∷ es) s r m t =
    rw (run, timeout-eq id e es s r m t)
      (timeouts-grafts id es
        (send (Message.graft (record { id = id; round = e.round })) e.peer (
          make_eager e.peer (record s {
            missing = insert id es s.missing;
            timers = insert id true (delete id s.timers);
          })))
        r (lookup-insert_self id es s.missing) (lookup-insert_self id true (delete id s.timers)))
