-- ===== src/Hyparview/Node/Handlers.antt =====
-- The handlers of pkg/protocols/hyparview/protocol.go: session events, timers, messages and requests.
use protorun.Prelude.{
  ◌-◌, ◌%◌, ◌^◌, Bool, true, false, not, ◌&&◌, ◌||◌, List, [], ◌∷◌, ◌++◌, Option, none, some,
  length, ltb, leb, ◌==◌, if◌then◌else◌, lookup, delete, same,
}
use protorun.Transport.Host.{Host, host_eq}
use protorun.Transport.HostSet.{contains, add, remove, sorted}
use protorun.Hyparview.Messages.{ForwardJoin, Neighbor, NeighborReply, Shuffle, ShuffleReply}
use protorun.Hyparview.Random.{Outside, random_except, random_sample}
use protorun.Hyparview.Node.{
  Node, IntentKind, OutIntent, Message, Effect, emit, send, clear_pending, remove_active,
  add_passive, add_active, drive_intent, open_active, promote, integrate_passive,
}

-- The last element of a route and the others before it.
unfoldable pub last_of : List Host → Option Host
last_of [] = none
last_of (h ∷ []) = some h
last_of (h ∷ x ∷ xs) = last_of (x ∷ xs)

unfoldable pub but_last : List Host → List Host
but_last [] = []
but_last (h ∷ []) = []
but_last (h ∷ x ∷ xs) = h ∷ but_last (x ∷ xs)

unfoldable pub ends_with : Host → Option Host → Bool
ends_with h none = false
ends_with h (some x) = same x h

-- `combineHosts`
unfoldable pub combine_hosts : Host → List Host → List Host → List Host
combine_hosts origin active passive = origin ∷ (active ++ passive)

module _ {W : Type 0} ⦃o : Outside W⦄ where
  -- The intent of a host whose session came up.
  unfoldable pub drive_pending : Host → Option OutIntent → Node W → Node W
  drive_pending h none s = s
  drive_pending h (some intent) s = drive_intent h intent.kind intent.priority s

  unfoldable pub on_session_connected : Host → Node W → Node W
  unfolding drive_pending
  on_session_connected h s =
      drive_pending h (lookup h s.pending) (record s { sessions = add h s.sessions })

  unfoldable pub drop_pending : Host → Option OutIntent → Node W → Node W
  drop_pending h none s = s
  drop_pending h (some intent) s = clear_pending h s

  unfoldable pub on_session_down : Host → Node W → Node W
  unfolding drop_pending
  on_session_down h s =
      let s₁ = drop_pending h (lookup h s.pending) (record s { sessions = remove h s.sessions }) in
      if contains h s₁.active then promote (remove_active h s₁) else s₁

  -- An attempt that timed out is given up; a neighbour attempt goes on with another candidate.
  unfoldable pub give_up : IntentKind → Host → Node W → Node W
  give_up IntentKind.intent_join h s =
      emit (Effect.disconnected h) (record s { pending = delete h s.pending })
  give_up IntentKind.intent_neighbor h s =
      promote (emit (Effect.disconnected h) (record s { pending = delete h s.pending }))

  unfoldable pub time_out : Option OutIntent → Host → Node W → Node W
  unfolding give_up
  time_out none h s = s
  time_out (some intent) h s = if contains h s.active then s else give_up intent.kind h s

  unfoldable pub on_attempt_timeout : Host → Node W → Node W
  unfolding time_out
  on_attempt_timeout h s = time_out (lookup h s.pending) h (record s { timers = remove h s.timers })

  -- The loop of `onJoin` over the sorted peers.
  unfoldable pub forward_to : List Host → Host → Node W → Node W
  forward_to [] from s = s
  forward_to (n ∷ ns) from s =
      let m : ForwardJoin = record { new_node = from; ttl = s.settings.arwl % 2 ^ 32 } in
      forward_to ns from (if same n from then s else send (Message.forward_join m) n s)

  unfoldable pub on_join : Host → Node W → Node W
  unfolding forward_to
  on_join from s = let s₁ = add_active from s in forward_to (sorted s₁.active) from s₁

  unfoldable pub walk_on : ForwardJoin → Option Host → Node W → Node W
  walk_on m none s = open_active m.new_node IntentKind.intent_neighbor false s
  walk_on m (some n) s =
      send (Message.forward_join (record { new_node = m.new_node; ttl = m.ttl - 1 })) n s

  unfoldable pub on_forward_join : ForwardJoin → Host → Node W → Node W
  unfolding walk_on
  on_forward_join m from s =
      let s₁ = if m.ttl == s.settings.prwl % 2 ^ 32 then add_passive m.new_node s else s in
      let (n, w) = random_except s₁.active (from ∷ m.new_node ∷ []) s₁.world in
      if same m.new_node s.self
      then s
      else if m.ttl == 0 || leb (length s₁.active) 1
      then open_active m.new_node IntentKind.intent_neighbor false s₁
      else walk_on m n (record s₁ { world = w })

  abbrev pub reply : Bool → Host → Node W → Node W
  reply accepted h s = send (Message.neighbor_reply (record { accepted = accepted })) h s

  unfoldable pub on_neighbor : Neighbor → Host → Node W → Node W
  on_neighbor m from s =
      if contains from s.active
      then reply true from s
      else if m.priority || ltb (length s.active) s.settings.active_size
      then reply true from (add_active from s)
      else add_passive from (reply false from s)

  unfoldable pub resolve : Option OutIntent → Bool → Host → Node W → Node W
  resolve none accepted from s = s
  resolve (some intent) true from s = add_active from (clear_pending from s)
  resolve (some intent) false from s =
      promote (emit (Effect.disconnected from) (add_passive from (clear_pending from s)))

  unfoldable pub on_neighbor_reply : NeighborReply → Host → Node W → Node W
  unfolding resolve
  on_neighbor_reply m from s = resolve (lookup from s.pending) m.accepted from s

  unfoldable pub on_disconnect : Host → Node W → Node W
  on_disconnect from s =
      if contains from s.active then promote (add_passive from (remove_active from s)) else s

  unfoldable pub start_shuffle : Option Host → Node W → Node W
  start_shuffle none s = s
  start_shuffle (some q) s =
      let (active, w₁) = random_sample s.active s.settings.shuffle_active (q ∷ []) s.world in
      let (passive, w₂) = random_sample s.passive s.settings.shuffle_passive [] w₁ in
      let m : Shuffle = record {
        origin = s.self;
        ttl = s.settings.arwl % 2 ^ 32;
        active = active;
        passive = passive;
        path = s.self ∷ [];
      } in
      send (Message.shuffle m) q (record s { world = w₂ })

  unfoldable pub on_shuffle_tick : Node W → Node W
  unfolding start_shuffle
  on_shuffle_tick s =
      let (q, w) = random_except s.active [] s.world in start_shuffle q (record s { world = w })

  -- The reply goes to the last forwarder, if there is one.
  unfoldable pub send_route : Option Host → List Host → List Host → Node W → Node W
  send_route none nodes route s = s
  send_route (some target) nodes route s =
      send (Message.shuffle_reply (record { nodes = nodes; route = route })) target s

  unfoldable pub accept_shuffle : Shuffle → Node W → Node W
  unfolding combine_hosts last_of send_route
  accept_shuffle m s =
      let offered = combine_hosts m.origin m.active m.passive in
      let (nodes, w) = random_sample s.passive (length offered) [] s.world in
      send_route (last_of m.path) nodes m.path (integrate_passive offered (record s { world = w }))

  -- The walk goes on to a random peer, and ends here if there is none.
  unfoldable pub forward_shuffle : Shuffle → Option Host → Node W → Node W
  unfolding accept_shuffle
  forward_shuffle m none s = accept_shuffle m s
  forward_shuffle m (some n) s =
      send (Message.shuffle (record m { ttl = m.ttl - 1; path = m.path ++ s.self ∷ [] })) n s

  unfoldable pub on_shuffle : Shuffle → Host → Node W → Node W
  unfolding forward_shuffle
  on_shuffle m from s =
      let (n, w) = random_except s.active (from ∷ m.origin ∷ []) s.world in
      if not (same m.origin s.self) && (ltb 0 m.ttl && ltb 1 (length s.active))
      then forward_shuffle m n (record s { world = w })
      else accept_shuffle m s

  -- `onShuffleReply` on what is left of the route.
  unfoldable pub route_on : List Host → List Host → Node W → Node W
  unfolding send_route last_of
  route_on nodes [] s = integrate_passive nodes s
  route_on nodes (h ∷ hs) s = send_route (last_of (h ∷ hs)) nodes (h ∷ hs) s

  unfoldable pub on_shuffle_reply : ShuffleReply → Node W → Node W
  unfolding ends_with last_of but_last route_on
  on_shuffle_reply m s =
      route_on m.nodes (if ends_with s.self (last_of m.route) then but_last m.route else m.route) s

  -- The loop over the contacts, of `Init` and of `onMaintenanceTick`.
  unfoldable pub join_contacts : List Host → Node W → Node W
  join_contacts [] s = s
  join_contacts (c ∷ cs) s = join_contacts cs (open_active c IntentKind.intent_join false s)

  unfoldable pub init : Node W → Node W
  unfolding join_contacts
  init s = join_contacts s.settings.contacts s

  unfoldable pub on_maintenance_tick : Node W → Node W
  unfolding join_contacts
  on_maintenance_tick s =
      if length s.active == 0 && length s.pending == 0
      then join_contacts s.settings.contacts s
      else if ltb (length s.active) s.settings.active_size
      then promote s
      else s

  unfoldable pub handle_get_view : Node W → Node W
  handle_get_view s = emit (Effect.replied_view (sorted s.active)) s

  unfoldable pub handle_debug_state : Node W → Node W
  handle_debug_state s = emit (Effect.replied_state (sorted s.active) (sorted s.passive)) s
