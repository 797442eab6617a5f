-- ===== src/Hyparview/Node.antt =====
-- pkg/protocols/hyparview/protocol.go: the state of an instance and the handling of its views. An armed
-- attempt timer is a member of `timers`. What a handler does to the outside goes to `trace`, newest first.
pub mod Handlers
pub mod Step
pub mod Views
pub mod Admission
pub mod Walks
pub mod Kept
pub mod Runs
pub mod Routes
use protorun.Prelude.{
  keys, ℕ, ◌+◌, Bool, true, false, ◌&&◌, ◌||◌, List, [], ◌∷◌, Option, none, some, length, ltb, leb,
  ◌==◌, if◌then◌else◌, Map, lookup, insert, delete, same,
}
use protorun.Transport.Host.{Host, host_eq}
use protorun.Transport.HostSet.{HostSet, contains, add, remove}
use protorun.Hyparview.Config.{Config, Settings, fill_defaults}
use protorun.Hyparview.Messages.{ForwardJoin, Neighbor, NeighborReply, Shuffle, ShuffleReply}
use protorun.Hyparview.Random.{Outside, random_except}

pub data IntentKind : Type 0 where
  intent_join : IntentKind
  intent_neighbor : IntentKind

-- `outIntent`; its timer is in the state.
pub record OutIntent : Type 0 where
  pub kind : IntentKind
  pub priority : Bool

pub data Message : Type 0 where
  join : Message
  forward_join : ForwardJoin → Message
  neighbor : Neighbor → Message
  neighbor_reply : NeighborReply → Message
  disconnect : Message
  shuffle : Shuffle → Message
  shuffle_reply : ShuffleReply → Message

-- `neighbor_up` and `neighbor_down` are the notifications of the membership contract, `replied_view` and
-- `replied_state` the answers to its requests; the others are calls of the protocol's context.
pub data Effect : Type 0 where
  sent : Message → Host → Effect
  connected : Host → Effect
  disconnected : Host → Effect
  neighbor_up : Host → Effect
  neighbor_down : Host → Effect
  replied_view : List Host → Effect
  replied_state : List Host → List Host → Effect

pub record Node (W : Type 0) : Type 0 where
  pub self : Host
  pub settings : Settings
  pub world : W
  pub active : HostSet
  pub passive : HostSet
  pub sessions : HostSet
  pub pending : Map Host OutIntent
  pub timers : HostSet
  pub trace : List Effect

module _ {W : Type 0} where
  -- `New`
  unfoldable pub new : Host → Config → W → Node W
  unfolding fill_defaults
  new self config world = record {
    self = self;
    settings = fill_defaults config;
    world = world;
    active = [];
    passive = [];
    sessions = [];
    pending = [];
    timers = [];
    trace = [];
  }

  abbrev pub emit : Effect → Node W → Node W
  emit e s = record s { trace = e ∷ s.trace }

  abbrev pub send : Message → Host → Node W → Node W
  send m h s = emit (Effect.sent m h) s

  unfoldable pub clear_pending : Host → Node W → Node W
  clear_pending h s = record s { timers = remove h s.timers; pending = delete h s.pending }

  unfoldable pub remove_active : Host → Node W → Node W
  remove_active h s =
      if contains h s.active
      then emit (Effect.neighbor_down h) (record s { active = remove h s.active })
      else s

  -- The member that `addPassive` evicts.
  unfoldable pub evict_passive : Option Host → Node W → Node W
  evict_passive none s = s
  evict_passive (some v) s = record s { passive = remove v s.passive }

module _ {W : Type 0} ⦃o : Outside W⦄ where
  unfoldable pub make_room : Node W → Node W
  unfolding evict_passive
  make_room s =
      let (v, w) = random_except s.passive [] s.world in
      if leb s.settings.passive_size (length s.passive)
      then evict_passive v (record s { world = w })
      else s

  unfoldable pub add_passive : Host → Node W → Node W
  unfolding make_room
  add_passive h s =
      if same h s.self || (contains h s.active || contains h s.passive)
      then s
      else let s₁ = make_room s in record s₁ { passive = add h s₁.passive }

  -- The victim of `dropRandomActive`.
  unfoldable pub drop_active : Option Host → Node W → Node W
  unfolding remove_active add_passive
  drop_active none s = s
  drop_active (some v) s =
      emit (Effect.disconnected v) (send Message.disconnect v (add_passive v (remove_active v s)))

  unfoldable pub drop_random_active : Host → Node W → Node W
  unfolding drop_active
  drop_random_active keep s =
      let (v, w) = random_except s.active (keep ∷ []) s.world in
      drop_active v (record s { world = w })

  unfoldable pub add_active : Host → Node W → Node W
  unfolding drop_random_active
  add_active h s =
      if same h s.self || contains h s.active
      then s
      else let s₁ =
          if leb s.settings.active_size (length s.active) then drop_random_active h s else s in
        emit (Effect.neighbor_up h)
          (record s₁ { passive = remove h s₁.passive; active = add h s₁.active })

  -- By the fields of the intent.
  unfoldable pub drive_intent : Host → IntentKind → Bool → Node W → Node W
  unfolding clear_pending add_active
  drive_intent h IntentKind.intent_join priority s =
      add_active h (clear_pending h (send Message.join h s))
  drive_intent h IntentKind.intent_neighbor priority s =
      send (Message.neighbor (record { priority = priority })) h s

  -- The dial of `openActive`, given up on an error.
  unfoldable pub dial : Host → Node W → Node W
  unfolding clear_pending
  dial h s =
      let (accepted, w) = o.connect h s.world in
      let s₁ = emit (Effect.connected h) (record s { world = w }) in
      if accepted then s₁ else clear_pending h s₁

  unfoldable pub is_pending : Host → Node W → Bool
  is_pending h s = contains h (keys s.pending)

  unfoldable pub open_active : Host → IntentKind → Bool → Node W → Node W
  unfolding is_pending drive_intent dial
  open_active h kind priority s =
      if same h s.self || (contains h s.active || is_pending h s)
      then s
      else let intent : OutIntent = record { kind = kind; priority = priority } in
        let s₁ = record s { timers = add h s.timers; pending = insert h intent s.pending } in
        if contains h s₁.sessions then drive_intent h kind priority s₁ else dial h s₁

  -- The candidate of `promote`.
  unfoldable pub open_candidate : Option Host → Node W → Node W
  unfolding open_active
  open_candidate none s = s
  open_candidate (some h) s = open_active h IntentKind.intent_neighbor (length s.active == 0) s

  unfoldable pub promote : Node W → Node W
  unfolding open_candidate
  promote s =
      if leb s.settings.active_size (length s.active + length s.pending)
      then s
      else let (cand, w) = random_except s.passive (keys s.pending) s.world in
        open_candidate cand (record s { world = w })

  unfoldable pub integrate_passive : List Host → Node W → Node W
  unfolding add_passive
  integrate_passive [] s = s
  integrate_passive (h ∷ hs) s = integrate_passive hs (add_passive h s)
