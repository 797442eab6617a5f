-- ===== src/Hyparview/Node/Kept.antt =====
-- The views of pkg/protocols/hyparview/protocol.go under the attempts to open a peer, and what uses them.
use protorun.Prelude.{
  keys, ◌+◌, Bool, true, false, ◌||◌, List, [], ◌∷◌, Option, none, some, length, leb, ◌==◌,
  if◌then◌else◌, insert, same, Bool-cases, inl, inr,
}
use protorun.Transport.Host.{Host, host_eq}
use protorun.Transport.HostSet.{contains, add}
use protorun.Hyparview.Config.{Settings}
use protorun.Hyparview.Random.{Outside, IsRandom, random_except}
use protorun.Hyparview.Node.{
  Node, IntentKind, OutIntent, Message, send, clear_pending, add_passive, drive_intent, dial,
  is_pending, open_active, open_candidate, promote, integrate_passive,
}
use protorun.Hyparview.Node.Views.{told, IsSound}
use protorun.Hyparview.Node.Admission.{add_passive-IsSound, add_active-IsSound}

module _ {W : Type 0} ⦃o : Outside W⦄ (r : IsRandom o) {c₀ : Settings} {me : Host} where
  pub IsSound-if :
      (b : Bool) (s t : Node W)
      → IsSound c₀ me s
      → IsSound c₀ me t
      → IsSound c₀ me (if b then s else t)
  IsSound-if true s t v w = v
  IsSound-if false s t v w = w

  pub IsSound-drive :
      (h : Host) (kind : IntentKind) (priority : Bool) (s : Node W)
      → IsSound c₀ me s
      → IsSound c₀ me (drive_intent h kind priority s)
  unfolding drive_intent clear_pending told
  IsSound-drive h IntentKind.intent_join priority s w =
      add_active-IsSound h (clear_pending h (send Message.join h s)) r w
  IsSound-drive h IntentKind.intent_neighbor priority s w = w

  IsSound-dial : (h : Host) (s : Node W) → IsSound c₀ me s → IsSound c₀ me (dial h s)
  unfolding dial clear_pending told
  IsSound-dial h s w = elim (Bool-cases (o.connect h s.world).0) [ inl e ↦ rw e w | inr e ↦ rw e w ]

  pub IsSound-open :
      (h : Host) (kind : IntentKind) (priority : Bool) (s : Node W)
      → IsSound c₀ me s
      → IsSound c₀ me (open_active h kind priority s)
  unfolding open_active
  IsSound-open h kind priority s w =
      let intent : OutIntent = record { kind = kind; priority = priority } in
      let s₁ = record s { timers = add h s.timers; pending = insert h intent s.pending } in
      IsSound-if (same h s.self || (contains h s.active || is_pending h s)) s _ w (
        IsSound-if (contains h s.sessions) (drive_intent h kind priority s₁) (dial h s₁)
          (IsSound-drive h kind priority s₁ w) (IsSound-dial h s₁ w))

  IsSound-open_candidate :
      (cand : Option Host) (s : Node W) → IsSound c₀ me s → IsSound c₀ me (open_candidate cand s)
  unfolding open_candidate
  IsSound-open_candidate none s w = w
  IsSound-open_candidate (some h) s w =
      IsSound-open h IntentKind.intent_neighbor (length s.active == 0) s w

  pub IsSound-promote : (s : Node W) → IsSound c₀ me s → IsSound c₀ me (promote s)
  unfolding promote
  IsSound-promote s w =
      let (cand, world) = random_except s.passive (keys s.pending) s.world in
      IsSound-if (leb s.settings.active_size (length s.active + length s.pending)) s _ w
        (IsSound-open_candidate cand (record s { world = world }) w)

  pub IsSound-integrate :
      (hs : List Host) (s : Node W) → IsSound c₀ me s → IsSound c₀ me (integrate_passive hs s)
  unfolding integrate_passive
  IsSound-integrate [] s w = w
  IsSound-integrate (h ∷ hs) s w =
      IsSound-integrate hs (add_passive h s) (add_passive-IsSound h s r w)
