-- ===== src/Hyparview/Node/Routes.antt =====
-- The way of a ShuffleReply of pkg/protocols/hyparview/protocol.go back along the recorded path.
use protorun.Prelude.{◌≡◌, refl, ap, ◌∙◌, List, [], ◌∷◌, ◌++◌, some, same_refl}
use protorun.Transport.Host.{Host, host_eq}
use protorun.Hyparview.Random.{Outside}
use protorun.Hyparview.Node.{Node, Message, send, integrate_passive}
use protorun.Hyparview.Node.Handlers.{
  last_of, but_last, ends_with, send_route, route_on, on_shuffle_reply,
}

-- The path of a walk: its origin, then its forwarders, which are given the newest first.
unfoldable pub path_of : Host → List Host → List Host
path_of origin [] = origin ∷ []
path_of origin (h ∷ hs) = path_of origin hs ++ h ∷ []

-- Where the walk has been last.
unfoldable pub newest : Host → List Host → Host
newest origin [] = origin
newest origin (h ∷ hs) = h

-- A reply with these nodes and a route that host `h` gets ends at host `e`: each host on the way hands the
-- same nodes on, whatever its state, and the last one takes them into its passive view.
pub data Carried (W : Type 0) ⦃o : Outside W⦄ (nodes : List Host)
    : List Host → Host → Host → Type 0 where
  home :
      (route : List Host) (h : Host)
      → ((s : Node W)
          → s.self ≡ h
          → on_shuffle_reply (record { nodes = nodes; route = route }) s
            ≡ integrate_passive nodes s)
      → Carried W nodes route h h
  hop :
      (route shorter : List Host) (h t e : Host)
      → ((s : Node W)
          → s.self ≡ h
          → on_shuffle_reply (record { nodes = nodes; route = route }) s
            ≡ send (Message.shuffle_reply (record { nodes = nodes; route = shorter })) t s)
      → Carried W nodes shorter t e
      → Carried W nodes route h e

last_of-snoc : (xs : List Host) (h : Host) → last_of (xs ++ h ∷ []) ≡ some h
unfolding last_of
last_of-snoc [] h = refl
last_of-snoc (x ∷ []) h = refl
last_of-snoc (x ∷ y ∷ xs) h = last_of-snoc (y ∷ xs) h

but_last-snoc : (xs : List Host) (h : Host) → but_last (xs ++ h ∷ []) ≡ xs
unfolding but_last
but_last-snoc [] h = refl
but_last-snoc (x ∷ []) h = refl
but_last-snoc (x ∷ y ∷ xs) h = ap (λ ys. x ∷ ys) (but_last-snoc (y ∷ xs) h)

last_of-path_of :
    (origin : Host) (hs : List Host) → last_of (path_of origin hs) ≡ some (newest origin hs)
unfolding path_of newest last_of
last_of-path_of origin [] = refl
last_of-path_of origin (h ∷ hs) = last_of-snoc (path_of origin hs) h

module _ {W : Type 0} ⦃o : Outside W⦄ where
  -- A host that stands at the end of the path takes itself off it.
  on_shuffle_reply-trim :
      (nodes xs : List Host) (h : Host) (s : Node W)
      → s.self ≡ h
      → on_shuffle_reply (record { nodes = nodes; route = xs ++ h ∷ [] }) s ≡ route_on nodes xs s
  unfolding on_shuffle_reply ends_with
  on_shuffle_reply-trim nodes xs h s e =
      rw (last_of-snoc xs h, but_last-snoc xs h, e, same_refl h) refl

  route_on-last :
      (nodes xs : List Host) (t : Host) (s : Node W)
      → last_of xs ≡ some t
      → route_on nodes xs s
        ≡ send (Message.shuffle_reply (record { nodes = nodes; route = xs })) t s
  unfolding route_on send_route last_of
  route_on-last nodes [] t s e = cc e
  route_on-last nodes (x ∷ xs) t s e = rw e refl

  -- The reply to a walk along any path, sent to the host that the walk had been at last, goes back from
  -- host to host, whatever their states, each of which hands on the same nodes, and ends at the origin,
  -- which takes these nodes into its passive view.
  pub path_of-Carried :
      (nodes : List Host) (origin : Host) (hs : List Host)
      → Carried W nodes (path_of origin hs) (newest origin hs) origin
  unfolding path_of newest integrate_passive route_on
  path_of-Carried nodes origin [] =
      Carried.home _ origin (λ s e. on_shuffle_reply-trim nodes [] origin s e)
  path_of-Carried nodes origin (h ∷ hs) =
      Carried.hop _ (path_of origin hs) h (newest origin hs) origin
        (λ s e.
          on_shuffle_reply-trim nodes (path_of origin hs) h s e
          ∙ route_on-last nodes (path_of origin hs) (newest origin hs) s
              (last_of-path_of origin hs))
        (path_of-Carried nodes origin hs)
