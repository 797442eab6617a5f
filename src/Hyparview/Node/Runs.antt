-- ===== src/Hyparview/Node/Runs.antt =====
-- The views of pkg/protocols/hyparview/protocol.go over any history of an instance.
use protorun.Hyparview.Node.Kept.{IsSound-if, IsSound-drive, IsSound-open, IsSound-promote}
use protorun.Prelude.{
  ◌%◌, ◌^◌, ◌≡◌, refl, subst, Bool, true, false, ◌&&◌, ◌||◌, List, [], ◌∷◌, Option, none, some,
  length, ltb, leb, ◌==◌, if◌then◌else◌, lookup, delete, same, arith,
}
use protorun.Transport.Host.{Host, host_eq}
use protorun.Transport.HostSet.{contains, add, remove, sorted}
use protorun.Hyparview.Config.{Settings, Config, fill_defaults, fill_defaults-IsUsable}
use protorun.Hyparview.Messages.{ForwardJoin, Neighbor}
use protorun.Hyparview.Random.{Outside, IsRandom, random_except}
use protorun.Hyparview.Node.{
  Node, IntentKind, OutIntent, Message, Effect, new, emit, send, clear_pending, remove_active,
  add_passive, add_active, open_active, promote,
}
use protorun.Hyparview.Node.Handlers.{
  last_of, but_last, ends_with, drive_pending, on_session_connected, drop_pending, on_session_down,
  give_up, time_out, on_attempt_timeout, forward_to, on_join, walk_on, on_forward_join, reply,
  on_neighbor, resolve, on_neighbor_reply, on_disconnect, on_shuffle_tick, on_shuffle_reply,
  join_contacts, init, on_maintenance_tick, handle_get_view, handle_debug_state,
}
use protorun.Hyparview.Node.Step.{Input, step, run}
use protorun.Hyparview.Node.Views.{told, AreViews, IsSound}
use protorun.Hyparview.Node.Admission.{
  add_passive-IsSound, remove_active-IsSound, add_active-IsSound,
}
use protorun.Hyparview.Node.Walks.{IsSound-start_shuffle, IsSound-shuffle, IsSound-route_on}

module _ {W : Type 0} ⦃o : Outside W⦄ (r : IsRandom o) {c₀ : Settings} {me : Host} where
  IsSound-session_connected :
      (h : Host) (intent : Option OutIntent) (s : Node W)
      → IsSound c₀ me s
      → IsSound c₀ me (drive_pending h intent s)
  unfolding drive_pending
  IsSound-session_connected h none s w = w
  IsSound-session_connected h (some intent) s w = IsSound-drive r h intent.kind intent.priority s w

  IsSound-drop_pending :
      (h : Host) (intent : Option OutIntent) (s : Node W)
      → IsSound c₀ me s
      → IsSound c₀ me (drop_pending h intent s)
  unfolding drop_pending clear_pending
  IsSound-drop_pending h none s w = w
  IsSound-drop_pending h (some intent) s w = w

  IsSound-session_down :
      (h : Host) (s : Node W) → IsSound c₀ me s → IsSound c₀ me (on_session_down h s)
  unfolding on_session_down
  IsSound-session_down h s w =
      let s₁ = drop_pending h (lookup h s.pending) (record s { sessions = remove h s.sessions }) in
      let w₁ = IsSound-drop_pending h (lookup h s.pending) _ w in
      IsSound-if r (contains h s₁.active) (promote (remove_active h s₁)) s₁
        (IsSound-promote r (remove_active h s₁) (remove_active-IsSound h s₁ w₁)) w₁

  IsSound-give_up :
      (kind : IntentKind) (h : Host) (s : Node W)
      → IsSound c₀ me s
      → IsSound c₀ me (give_up kind h s)
  unfolding give_up told
  IsSound-give_up IntentKind.intent_join h s w = w
  IsSound-give_up IntentKind.intent_neighbor h s w =
      IsSound-promote r (emit (Effect.disconnected h) (record s { pending = delete h s.pending })) w

  IsSound-time_out :
      (intent : Option OutIntent) (h : Host) (s : Node W)
      → IsSound c₀ me s
      → IsSound c₀ me (time_out intent h s)
  unfolding time_out
  IsSound-time_out none h s w = w
  IsSound-time_out (some intent) h s w =
      IsSound-if r (contains h s.active) s (give_up intent.kind h s) w
        (IsSound-give_up intent.kind h s w)

  IsSound-forward_to :
      (hs : List Host) (from : Host) (s : Node W)
      → IsSound c₀ me s
      → IsSound c₀ me (forward_to hs from s)
  unfolding forward_to told
  IsSound-forward_to [] from s w = w
  IsSound-forward_to (n ∷ ns) from s w =
      let m : ForwardJoin = record { new_node = from; ttl = s.settings.arwl % 2 ^ 32 } in
      IsSound-forward_to ns from _
        (IsSound-if r (same n from) s (send (Message.forward_join m) n s) w w)

  IsSound-join : (from : Host) (s : Node W) → IsSound c₀ me s → IsSound c₀ me (on_join from s)
  unfolding on_join
  IsSound-join from s w =
      let s₁ = add_active from s in
      IsSound-forward_to (sorted s₁.active) from s₁ (add_active-IsSound from s r w)

  IsSound-walk_on :
      (m : ForwardJoin) (n : Option Host) (s : Node W)
      → IsSound c₀ me s
      → IsSound c₀ me (walk_on m n s)
  unfolding walk_on told
  IsSound-walk_on m none s w = IsSound-open r m.new_node IntentKind.intent_neighbor false s w
  IsSound-walk_on m (some n) s w = w

  IsSound-forward_join :
      (m : ForwardJoin) (from : Host) (s : Node W)
      → IsSound c₀ me s
      → IsSound c₀ me (on_forward_join m from s)
  unfolding on_forward_join
  IsSound-forward_join m from s w =
      let s₁ = if m.ttl == s.settings.prwl % 2 ^ 32 then add_passive m.new_node s else s in
      let w₁ =
        IsSound-if r (m.ttl == s.settings.prwl % 2 ^ 32) (add_passive m.new_node s) s
          (add_passive-IsSound m.new_node s r w) w in
      let (n, world) = random_except s₁.active (from ∷ m.new_node ∷ []) s₁.world in
      IsSound-if r (same m.new_node s.self) s _ w (
        IsSound-if r (m.ttl == 0 || leb (length s₁.active) 1) _ _
          (IsSound-open r m.new_node IntentKind.intent_neighbor false s₁ w₁)
          (IsSound-walk_on m n (record s₁ { world = world }) w₁))

  IsSound-neighbor :
      (m : Neighbor) (from : Host) (s : Node W)
      → IsSound c₀ me s
      → IsSound c₀ me (on_neighbor m from s)
  unfolding on_neighbor told
  IsSound-neighbor m from s w = IsSound-if r (contains from s.active) (reply true from s) _ w (
      IsSound-if r (m.priority || ltb (length s.active) s.settings.active_size)
        (reply true from (add_active from s)) (add_passive from (reply false from s))
        (add_active-IsSound from s r w) (add_passive-IsSound from (reply false from s) r w))

  IsSound-resolve :
      (intent : Option OutIntent) (accepted : Bool) (from : Host) (s : Node W)
      → IsSound c₀ me s
      → IsSound c₀ me (resolve intent accepted from s)
  unfolding resolve clear_pending told
  IsSound-resolve none accepted from s w = w
  IsSound-resolve (some intent) true from s w = add_active-IsSound from (clear_pending from s) r w
  IsSound-resolve (some intent) false from s w =
      let s₁ = add_passive from (clear_pending from s) in
      IsSound-promote r (emit (Effect.disconnected from) s₁)
        (add_passive-IsSound from (clear_pending from s) r w)

  IsSound-disconnect :
      (from : Host) (s : Node W) → IsSound c₀ me s → IsSound c₀ me (on_disconnect from s)
  unfolding on_disconnect
  IsSound-disconnect from s w =
      let s₁ = remove_active from s in
      IsSound-if r (contains from s.active) (promote (add_passive from s₁)) s
        (IsSound-promote r (add_passive from s₁)
          (add_passive-IsSound from s₁ r (remove_active-IsSound from s w)))
        w

  IsSound-join_contacts :
      (cs : List Host) (s : Node W) → IsSound c₀ me s → IsSound c₀ me (join_contacts cs s)
  unfolding join_contacts
  IsSound-join_contacts [] s w = w
  IsSound-join_contacts (c ∷ cs) s w =
      IsSound-join_contacts cs (open_active c IntentKind.intent_join false s)
        (IsSound-open r c IntentKind.intent_join false s w)

  IsSound-maintenance : (s : Node W) → IsSound c₀ me s → IsSound c₀ me (on_maintenance_tick s)
  unfolding on_maintenance_tick
  IsSound-maintenance s w =
      IsSound-if r (length s.active == 0 && length s.pending == 0) _ _
        (IsSound-join_contacts s.settings.contacts s w)
        (IsSound-if r (ltb (length s.active) s.settings.active_size) _ s (IsSound-promote r s w) w)

  IsSound-step : (i : Input) (s : Node W) → IsSound c₀ me s → IsSound c₀ me (step i s)
  unfolding step on_session_connected on_attempt_timeout on_neighbor_reply on_shuffle_tick
      on_shuffle_reply init handle_get_view handle_debug_state told
  IsSound-step Input.started s w = IsSound-join_contacts s.settings.contacts s w
  IsSound-step (Input.session_connected h) s w =
      IsSound-session_connected h (lookup h s.pending) (record s { sessions = add h s.sessions }) w
  IsSound-step (Input.session_down h) s w = IsSound-session_down h s w
  IsSound-step (Input.attempt_timeout h) s w =
      IsSound-if r (contains h s.timers) (on_attempt_timeout h s) s
        (IsSound-time_out (lookup h s.pending) h (record s { timers = remove h s.timers }) w) w
  IsSound-step (Input.got_join from) s w = IsSound-join from s w
  IsSound-step (Input.got_disconnect from) s w = IsSound-disconnect from s w
  IsSound-step (Input.got_forward_join m from) s w = IsSound-forward_join m from s w
  IsSound-step (Input.got_neighbor m from) s w = IsSound-neighbor m from s w
  IsSound-step (Input.got_neighbor_reply m from) s w =
      IsSound-resolve (lookup from s.pending) m.accepted from s w
  IsSound-step (Input.got_shuffle m from) s w = IsSound-shuffle r m from s w
  IsSound-step (Input.got_shuffle_reply m from) s w =
      IsSound-route_on r m.nodes
        (if ends_with s.self (last_of m.route) then but_last m.route else m.route) s w
  IsSound-step Input.shuffle_tick s w =
      let (q, world) = random_except s.active [] s.world in
      IsSound-start_shuffle r q (record s { world = world }) w
  IsSound-step Input.maintenance_tick s w = IsSound-maintenance s w
  IsSound-step Input.asked_view s w = w
  IsSound-step Input.asked_state s w = w

  IsSound-kept : (is : List Input) (s : Node W) → IsSound c₀ me s → IsSound c₀ me (run is s)
  unfolding run
  IsSound-kept [] s w = w
  IsSound-kept (i ∷ is) s w = IsSound-kept is (step i s) (IsSound-step i s w)

module _ {W : Type 0} ⦃o : Outside W⦄ (r : IsRandom o) where
  IsSound-run :
      (self : Host) (c : Config) (world : W) (is : List Input)
      → IsSound (fill_defaults c) self (run is (new self c world))
  unfolding new told contains
  IsSound-run self c world is = IsSound-kept r is (new self c world) (
    record {
      usable = fill_defaults-IsUsable c;
      apart = λ h. refl;
      active_distinct = tt;
      passive_distinct = tt;
      active_others = refl;
      passive_others = refl;
      active_bound = omega arith;
      passive_bound = omega arith;
    },
    refl,
    refl,
    refl,
  )

-- Whatever an instance handles after its start, with any configuration and any random choices: no host is
-- in both of its views, twice in one of them, or the node itself, and each view is within the size that
-- the configuration gives it.
pub run-AreViews :
    {W : Type 0} ⦃o : Outside W⦄ (r : IsRandom o) (self : Host) (c : Config) (world : W)
    (is : List Input)
    → let s = run is (new self c world) in AreViews (fill_defaults c) self s.active s.passive
run-AreViews r self c world is =
    let s = run is (new self c world) in
    let (views, mirror, settings, own) = IsSound-run r self c world is in
    subst (λ x. AreViews x self s.active s.passive) settings
      (subst (λ h. AreViews s.settings h s.active s.passive) own views)

-- Whatever an instance handles after its start, its NeighborUp and NeighborDown notifications, put
-- together in their order, give exactly its active view.
pub told-run :
    {W : Type 0} ⦃o : Outside W⦄ (r : IsRandom o) (self : Host) (c : Config) (world : W)
    (is : List Input)
    → let s = run is (new self c world) in told s.trace ≡ s.active
told-run r self c world is = (IsSound-run r self c world is).1
