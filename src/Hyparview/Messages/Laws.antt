-- ===== src/Hyparview/Messages/Laws.antt =====
-- What the hyparview codecs give on the bytes that they write.
use protorun.Prelude.{
  ◌%◌, ◌^◌, ◌<◌, ◌≡◌, refl, List, [], ◌∷◌, ◌++◌, append_assoc, length, arith, ok, All,
}
use protorun.Wire.{Bytes, write_uint16, write_uint32}
use protorun.Wire.Laws.{read_uint16-write, read_uint32-write}
use protorun.Transport.Host.{Host}
use protorun.Transport.Host.Laws.{host_wire, write_host-eq, read_host-wire}
use protorun.Transport.Host.Laws.{IsEncodable as HostFits}
use protorun.Hyparview.Messages.{
  ForwardJoin, Shuffle, ShuffleReply, write_hosts, read_hosts, write_host_list, read_host_list,
  marshal_forward_join, unmarshal_forward_join, marshal_shuffle, unmarshal_shuffle,
  marshal_shuffle_reply, unmarshal_shuffle_reply,
}

-- The hosts can be written, and their number fits.
pub record HostsFit (hs : List Host) : Type 0 where
  pub each : All HostFits hs
  pub count : length hs < 2 ^ 16

abbrev hosts_wire : List Host → Bytes
hosts_wire [] = []
hosts_wire (h ∷ hs) = host_wire h ++ hosts_wire hs

abbrev list_wire : List Host → Bytes
list_wire hs = write_uint16 (length hs % 2 ^ 16) ++ hosts_wire hs

write_hosts-eq : (hs : List Host) → All HostFits hs → write_hosts hs ≡ ok (hosts_wire hs)
unfolding write_hosts
write_hosts-eq [] v = refl
write_hosts-eq (h ∷ hs) v = rw (write_host-eq h v.0, write_hosts-eq hs v.1)

write_host_list-eq : (hs : List Host) → HostsFit hs → write_host_list hs ≡ ok (list_wire hs)
unfolding write_host_list
write_host_list-eq hs v = rw (write_hosts-eq hs v.each)

read_hosts-wire :
    (hs : List Host) (rest : Bytes)
    → All HostFits hs
    → read_hosts (length hs) (hosts_wire hs ++ rest) ≡ ok (hs, rest)
unfolding read_hosts
read_hosts-wire [] rest v = refl
read_hosts-wire (h ∷ hs) rest v = rw (
  append_assoc (host_wire h) (hosts_wire hs) rest,
  read_host-wire h (hosts_wire hs ++ rest) v.0,
  read_hosts-wire hs rest v.1,
)

read_host_list-wire :
    (hs : List Host) (rest : Bytes)
    → HostsFit hs
    → read_host_list (list_wire hs ++ rest) ≡ ok (hs, rest)
unfolding read_host_list
read_host_list-wire hs rest v =
    let small : length hs % 2 ^ 16 ≡ length hs = omega (arith, v.count) in
    rw (
      small,
      append_assoc (write_uint16 (length hs)) (hosts_wire hs) rest,
      read_uint16-write (length hs) (hosts_wire hs ++ rest) v.count,
      read_hosts-wire hs rest v.each,
    )

-- A ForwardJoin whose host and TTL fit is written, and read back whatever bytes follow it.
pub unmarshal-marshal_forward_join :
    (m : ForwardJoin) (rest : Bytes)
    → HostFits m.new_node
    → m.ttl < 2 ^ 32
    → (b : Bytes) × (marshal_forward_join m ≡ ok b) × (unmarshal_forward_join (b ++ rest) ≡ ok m)
unfolding marshal_forward_join unmarshal_forward_join
unmarshal-marshal_forward_join m rest h t = (
  host_wire m.new_node ++ write_uint32 m.ttl,
  rw (write_host-eq m.new_node h),
  rw (
    append_assoc (host_wire m.new_node) (write_uint32 m.ttl) rest,
    read_host-wire m.new_node (write_uint32 m.ttl ++ rest) h,
    read_uint32-write m.ttl rest t,
  ),
)

pub record ShuffleFits (m : Shuffle) : Type 0 where
  pub origin : HostFits m.origin
  pub ttl : m.ttl < 2 ^ 32
  pub active : HostsFit m.active
  pub passive : HostsFit m.passive
  pub path : HostsFit m.path

-- A Shuffle whose hosts and TTL fit, with fewer than 2 ^ 16 hosts in each list, is written, and read back
-- whatever bytes follow it.
pub unmarshal-marshal_shuffle :
    (m : Shuffle) (rest : Bytes)
    → ShuffleFits m
    → (b : Bytes) × (marshal_shuffle m ≡ ok b) × (unmarshal_shuffle (b ++ rest) ≡ ok m)
unfolding marshal_shuffle unmarshal_shuffle
unmarshal-marshal_shuffle m rest v =
    let active = list_wire m.active in
    let passive = list_wire m.passive in
    let path = list_wire m.path in
    (
      host_wire m.origin ++ (write_uint32 m.ttl ++ (active ++ (passive ++ path))),
      rw (
        write_host-eq m.origin v.origin,
        write_host_list-eq m.active v.active,
        write_host_list-eq m.passive v.passive,
        write_host_list-eq m.path v.path,
      ),
      rw (
        append_assoc (host_wire m.origin) (write_uint32 m.ttl ++ (active ++ (passive ++ path)))
            rest,
        append_assoc (write_uint32 m.ttl) (active ++ (passive ++ path)) rest,
        append_assoc active (passive ++ path) rest,
        append_assoc passive path rest,
        read_host-wire m.origin (write_uint32 m.ttl ++ (active ++ (passive ++ (path ++ rest))))
            v.origin,
        read_uint32-write m.ttl (active ++ (passive ++ (path ++ rest))) v.ttl,
        read_host_list-wire m.active (passive ++ (path ++ rest)) v.active,
        read_host_list-wire m.passive (path ++ rest) v.passive,
        read_host_list-wire m.path rest v.path,
      ),
    )

-- A ShuffleReply whose hosts fit, with fewer than 2 ^ 16 in each list, is written, and read back whatever
-- bytes follow it.
pub unmarshal-marshal_shuffle_reply :
    (m : ShuffleReply) (rest : Bytes)
    → HostsFit m.nodes
    → HostsFit m.route
    → (b : Bytes) × (marshal_shuffle_reply m ≡ ok b) × (unmarshal_shuffle_reply (b ++ rest) ≡ ok m)
unfolding marshal_shuffle_reply unmarshal_shuffle_reply
unmarshal-marshal_shuffle_reply m rest n t = (
  list_wire m.nodes ++ list_wire m.route,
  rw (write_host_list-eq m.nodes n, write_host_list-eq m.route t),
  rw (
    append_assoc (list_wire m.nodes) (list_wire m.route) rest,
    read_host_list-wire m.nodes (list_wire m.route ++ rest) n,
    read_host_list-wire m.route rest t,
  ),
)
