-- ===== src/Membership.antt =====
-- pkg/protocols/membership: the contract between a membership protocol and one that broadcasts over it. A
-- plumtree instance (pkg/protocols/plumtree) follows the notifications of a hyparview instance
-- (pkg/protocols/hyparview) on the same node.
mod Tests
use protorun.Prelude.{
  ℕ, ◌≡◌, refl, ap, ◌∙◌, sym, subst, Bool, true, false, ◌&&◌, ◌||◌, not, List, [], ◌∷◌, keys,
  delete, same, same_refl, arith, Bool-cases, inl, inr,
}
use protorun.Transport.Host.{Host, host_eq, host_beq_iff}
use protorun.Transport.HostSet.{HostSet, contains, add, remove}
use protorun.Transport.HostSet.Laws.{contains-add, contains-remove}
use protorun.Hyparview.Config.{Config}
use protorun.Hyparview.Random.{Outside, IsRandom}
use protorun.Hyparview.Node.{Effect}
use protorun.Hyparview.Node as Hyparview
use protorun.Hyparview.Node.Step.{Input, run}
use protorun.Hyparview.Node.Views.{told, AreViews}
use protorun.Hyparview.Node.Runs.{run-AreViews, told-run}
use protorun.Plumtree.Node.{Node, on_neighbor_up, on_neighbor_down}
use protorun.Plumtree.Node as Plumtree
use protorun.Plumtree.Node.Frames.{forget_announcer-frame}

-- A plumtree instance handles the notifications of a trace, which is the newest first.
unfoldable pub follow : List Effect → Node → Node
follow [] s = s
follow (Effect.neighbor_up h ∷ es) s = on_neighbor_up h (follow es s)
follow (Effect.neighbor_down h ∷ es) s = on_neighbor_down h (follow es s)
follow (Effect.sent m h ∷ es) s = follow es s
follow (Effect.connected h ∷ es) s = follow es s
follow (Effect.disconnected h ∷ es) s = follow es s
follow (Effect.replied_view hs ∷ es) s = follow es s
follow (Effect.replied_state hs ms ∷ es) s = follow es s

-- The eager set is the view that was told, but for the node itself.
record Follows (self : Host) (view : HostSet) (s : Node) : Type 0 where
  self_same : s.self ≡ self
  peers : (h : Host) → contains h s.eager ≡ (contains h view && not (same h self))
  idle : s.lazy ≡ []

Follows-up :
    (self h : Host) (view : HostSet) (s : Node)
    → Follows self view s
    → Follows self (add h view) (on_neighbor_up h s)
unfolding on_neighbor_up remove
Follows-up self h view s w = elim (Bool-cases (same h s.self)) [
  | inl e ↦ rw e (record {
    self_same = w.self_same;
    peers = λ x.
        let same_host : h ≡ self = (host_beq_iff h s.self).0 e ∙ w.self_same in
        ground (arith, w.peers x, contains-add x h view, host_beq_iff h x, host_beq_iff x self);
    idle = w.idle;
  })
  | inr e ↦ rw e (record {
    self_same = w.self_same;
    peers = λ x.
        let other : same h self ≡ false = ap (λ y. same h y) (sym w.self_same) ∙ e in
        ground (
          arith,
          w.peers x,
          contains-add x h s.eager,
          contains-add x h view,
          host_beq_iff h x,
          host_beq_iff h self,
          host_beq_iff x self,
        );
    idle = ap (λ l. remove h l) w.idle;
  })
]

Follows-down :
    (self h : Host) (view : HostSet) (s : Node)
    → Follows self view s
    → Follows self (remove h view) (on_neighbor_down h s)
unfolding on_neighbor_down remove
Follows-down self h view s w =
    let s₁ = record s {
      eager = remove h s.eager;
      lazy = remove h s.lazy;
      lazy_queue = delete h s.lazy_queue;
    } in
    let e = forget_announcer-frame h (keys s.missing) s₁ in
    record {
      self_same = ap Node.self e ∙ w.self_same;
      peers = λ x.
          ap (λ t. contains x (Node.eager t)) e
          ∙ ground (arith, w.peers x, contains-remove x h s.eager, contains-remove x h view);
      idle = ap Node.lazy e ∙ ap (λ l. remove h l) w.idle;
    }

Follows-follow :
    (self : Host) (cache_size : ℕ) (es : List Effect)
    → Follows self (told es) (follow es (Plumtree.new self cache_size))
unfolding follow told Plumtree.new contains
Follows-follow self n [] = record { self_same = refl; peers = λ h. refl; idle = refl }
Follows-follow self n (Effect.neighbor_up h ∷ es) =
    Follows-up self h (told es) (follow es (Plumtree.new self n)) (Follows-follow self n es)
Follows-follow self n (Effect.neighbor_down h ∷ es) =
    Follows-down self h (told es) (follow es (Plumtree.new self n)) (Follows-follow self n es)
Follows-follow self n (Effect.sent m h ∷ es) = Follows-follow self n es
Follows-follow self n (Effect.connected h ∷ es) = Follows-follow self n es
Follows-follow self n (Effect.disconnected h ∷ es) = Follows-follow self n es
Follows-follow self n (Effect.replied_view hs ∷ es) = Follows-follow self n es
Follows-follow self n (Effect.replied_state hs ms ∷ es) = Follows-follow self n es

-- A plumtree instance that handles the notifications of a hyparview instance, over any history of the
-- latter and nothing else, has exactly the peers of its active view as eager peers, and no lazy ones.
pub follow-run :
    {W : Type 0} ⦃o : Outside W⦄ (r : IsRandom o) (self : Host) (c : Config) (world : W)
    (is : List Input) (cache_size : ℕ)
    → let s = run is (Hyparview.new self c world) in
      let t = follow s.trace (Plumtree.new self cache_size) in
      ((h : Host) → contains h t.eager ≡ contains h s.active) × (t.lazy ≡ [])
follow-run r self c world is n =
    let s = run is (Hyparview.new self c world) in
    let w = Follows-follow self n s.trace in
    let mirror = told-run r self c world is in
    let views = run-AreViews r self c world is in
    (
      λ h.
          subst
            (λ v.
              contains h (follow s.trace (Plumtree.new self n)).eager
              ≡ (contains h v && not (same h self)))
            mirror (w.peers h)
          ∙ ground (arith, views.active_others, host_beq_iff h self),
      w.idle,
    )
