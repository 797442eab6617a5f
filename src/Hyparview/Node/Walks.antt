-- ===== src/Hyparview/Node/Walks.antt =====
-- The views of pkg/protocols/hyparview/protocol.go under the shuffles and their replies.
use protorun.Hyparview.Node.Kept.{IsSound-if, IsSound-integrate}
use protorun.Prelude.{not, ◌&&◌, List, [], ◌∷◌, Option, none, some, length, ltb, same}
use protorun.Transport.Host.{Host, host_eq}
use protorun.Hyparview.Config.{Settings}
use protorun.Hyparview.Messages.{Shuffle}
use protorun.Hyparview.Random.{Outside, IsRandom, random_except, random_sample}
use protorun.Hyparview.Node.{Node}
use protorun.Hyparview.Node.Handlers.{
  last_of, combine_hosts, start_shuffle, send_route, accept_shuffle, forward_shuffle, on_shuffle,
  route_on,
}
use protorun.Hyparview.Node.Views.{told, IsSound}

module _ {W : Type 0} ⦃o : Outside W⦄ (r : IsRandom o) {c₀ : Settings} {me : Host} where
  pub IsSound-start_shuffle :
      (q : Option Host) (s : Node W) → IsSound c₀ me s → IsSound c₀ me (start_shuffle q s)
  unfolding start_shuffle told
  IsSound-start_shuffle none s w = w
  IsSound-start_shuffle (some q) s w = w

  IsSound-send_route :
      (target : Option Host) (nodes route : List Host) (s : Node W)
      → IsSound c₀ me s
      → IsSound c₀ me (send_route target nodes route s)
  unfolding send_route told
  IsSound-send_route none nodes route s w = w
  IsSound-send_route (some target) nodes route s w = w

  IsSound-accept : (m : Shuffle) (s : Node W) → IsSound c₀ me s → IsSound c₀ me (accept_shuffle m s)
  unfolding accept_shuffle
  IsSound-accept m s w =
      let offered = combine_hosts m.origin m.active m.passive in
      let (nodes, world) = random_sample s.passive (length offered) [] s.world in
      IsSound-send_route (last_of m.path) nodes m.path _
        (IsSound-integrate r offered (record s { world = world }) w)

  IsSound-forward_shuffle :
      (m : Shuffle) (n : Option Host) (s : Node W)
      → IsSound c₀ me s
      → IsSound c₀ me (forward_shuffle m n s)
  unfolding forward_shuffle told
  IsSound-forward_shuffle m none s w = IsSound-accept m s w
  IsSound-forward_shuffle m (some n) s w = w

  pub IsSound-shuffle :
      (m : Shuffle) (from : Host) (s : Node W)
      → IsSound c₀ me s
      → IsSound c₀ me (on_shuffle m from s)
  unfolding on_shuffle
  IsSound-shuffle m from s w =
      let (n, world) = random_except s.active (from ∷ m.origin ∷ []) s.world in
      IsSound-if r (not (same m.origin s.self) && (ltb 0 m.ttl && ltb 1 (length s.active))) _ _
        (IsSound-forward_shuffle m n (record s { world = world }) w) (IsSound-accept m s w)

  pub IsSound-route_on :
      (nodes route : List Host) (s : Node W)
      → IsSound c₀ me s
      → IsSound c₀ me (route_on nodes route s)
  unfolding route_on
  IsSound-route_on nodes [] s w = IsSound-integrate r nodes s w
  IsSound-route_on nodes (h ∷ hs) s w = IsSound-send_route (last_of (h ∷ hs)) nodes (h ∷ hs) s w
