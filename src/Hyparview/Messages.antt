-- ===== src/Hyparview/Messages.antt =====
-- pkg/protocols/hyparview/messages.go: the seven messages and their hand-written codecs. Join and
-- Disconnect have no content and an empty encoding.
pub mod Laws
use protorun.Prelude.{
  ℕ, zero, suc, ◌%◌, ◌^◌, Bool, true, false, not, List, [], ◌∷◌, ◌++◌, length, ◌==◌, Result, ok,
  ◌>>=◌,
}
use protorun.Wire.{Bytes, Reader, write_uint16, read_uint16, write_uint32, read_uint32}
use protorun.Transport.Host.{Host, write_host, read_host}

pub record ForwardJoin : Type 0 where
  pub new_node : Host
  pub ttl : ℕ

pub record Neighbor : Type 0 where
  pub priority : Bool

pub record NeighborReply : Type 0 where
  pub accepted : Bool

pub record Shuffle : Type 0 where
  pub origin : Host
  pub ttl : ℕ
  pub active : List Host
  pub passive : List Host
  pub path : List Host

pub record ShuffleReply : Type 0 where
  pub nodes : List Host
  pub route : List Host

unfoldable pub marshal_bool : Bool → Bytes
marshal_bool true = 1 ∷ []
marshal_bool false = 0 ∷ []

unfoldable pub unmarshal_bool : Bytes → Bool
unmarshal_bool [] = false
unmarshal_bool (b ∷ rest) = not (b == 0)

-- The loops over a host list.
unfoldable pub write_hosts : List Host → Result Bytes
write_hosts [] = ok []
write_hosts (h ∷ more) = do first ← write_host h; rest ← write_hosts more; ok (first ++ rest)

unfoldable pub read_hosts : ℕ → Reader (List Host)
read_hosts zero r = ok ([], r)
read_hosts (suc n) r = do (h, r₁) ← read_host r; (more, r₂) ← read_hosts n r₁; ok (h ∷ more, r₂)

-- The count goes to a uint16.
unfoldable pub write_host_list : List Host → Result Bytes
unfolding write_hosts
write_host_list hosts = do
  body ← write_hosts hosts
  ok (write_uint16 (length hosts % 2 ^ 16) ++ body)

unfoldable pub read_host_list : Reader (List Host)
unfolding read_hosts
read_host_list r = do (n, r₁) ← read_uint16 r; read_hosts n r₁

unfoldable pub marshal_forward_join : ForwardJoin → Result Bytes
marshal_forward_join m = do host ← write_host m.new_node; ok (host ++ write_uint32 m.ttl)

unfoldable pub unmarshal_forward_join : Bytes → Result ForwardJoin
unmarshal_forward_join b = do
  (h, r₁) ← read_host b
  (ttl, r₂) ← read_uint32 r₁
  ok (record { new_node = h; ttl = ttl })

unfoldable pub marshal_neighbor : Neighbor → Bytes
unfolding marshal_bool
marshal_neighbor m = marshal_bool m.priority

unfoldable pub unmarshal_neighbor : Bytes → Neighbor
unfolding unmarshal_bool
unmarshal_neighbor b = record { priority = unmarshal_bool b }

unfoldable pub marshal_neighbor_reply : NeighborReply → Bytes
unfolding marshal_bool
marshal_neighbor_reply m = marshal_bool m.accepted

unfoldable pub unmarshal_neighbor_reply : Bytes → NeighborReply
unfolding unmarshal_bool
unmarshal_neighbor_reply b = record { accepted = unmarshal_bool b }

unfoldable pub marshal_shuffle : Shuffle → Result Bytes
unfolding write_host_list
marshal_shuffle m = do
  origin ← write_host m.origin
  active ← write_host_list m.active
  passive ← write_host_list m.passive
  path ← write_host_list m.path
  ok (origin ++ (write_uint32 m.ttl ++ (active ++ (passive ++ path))))

unfoldable pub unmarshal_shuffle : Bytes → Result Shuffle
unfolding read_host_list
unmarshal_shuffle b = do
  (origin, r₁) ← read_host b
  (ttl, r₂) ← read_uint32 r₁
  (active, r₃) ← read_host_list r₂
  (passive, r₄) ← read_host_list r₃
  (path, r₅) ← read_host_list r₄
  ok (record { origin = origin; ttl = ttl; active = active; passive = passive; path = path })

unfoldable pub marshal_shuffle_reply : ShuffleReply → Result Bytes
unfolding write_host_list
marshal_shuffle_reply m = do
  nodes ← write_host_list m.nodes
  route ← write_host_list m.route
  ok (nodes ++ route)

unfoldable pub unmarshal_shuffle_reply : Bytes → Result ShuffleReply
unfolding read_host_list
unmarshal_shuffle_reply b = do
  (nodes, r₁) ← read_host_list b
  (route, r₂) ← read_host_list r₁
  ok (record { nodes = nodes; route = route })
