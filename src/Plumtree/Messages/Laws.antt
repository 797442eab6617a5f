-- ===== src/Plumtree/Messages/Laws.antt =====
-- What the plumtree codecs give on the bytes that they write.
use protorun.Prelude.{
  ℕ, zero, suc, ◌%◌, ◌^◌, ◌≤◌, ◌<◌, ◌≡◌, refl, List, [], ◌∷◌, ◌++◌, append_assoc, length, take,
  arith, ok, All,
}
use protorun.Wire.{Bytes, write_uint16, write_uint32, write_uint64, write_bytes}
use protorun.Wire.Laws.{read_uint16-write, read_uint32-write, read_uint64-write, read_bytes-write}
use protorun.Transport.Host.Laws.{host_wire, write_host-eq, read_host-wire}
use protorun.Transport.Host.Laws.{IsEncodable as HostFits}
use protorun.Plumtree.Messages.{
  MessageId, Gossip, Announce, IHave, Graft, write_message_id, read_message_id, marshal_gossip,
  unmarshal_gossip, write_announce, read_announce, write_announces, read_announces, marshal_ihave,
  unmarshal_ihave, marshal_graft, unmarshal_graft,
}

-- The origin can be written, and the number fits.
pub record IdFits (id : MessageId) : Type 0 where
  pub origin_fits : HostFits id.origin
  pub seq_fits : id.seq < 2 ^ 64

abbrev id_wire : MessageId → Bytes
id_wire id = host_wire id.origin ++ write_uint64 id.seq

write_message_id-eq : (id : MessageId) → IdFits id → write_message_id id ≡ ok (id_wire id)
unfolding write_message_id
write_message_id-eq id v = rw (write_host-eq id.origin v.origin_fits)

read_message_id-wire :
    (id : MessageId) (rest : Bytes)
    → IdFits id
    → read_message_id (id_wire id ++ rest) ≡ ok (id, rest)
unfolding read_message_id
read_message_id-wire id rest v = rw (
  append_assoc (host_wire id.origin) (write_uint64 id.seq) rest,
  read_host-wire id.origin (write_uint64 id.seq ++ rest) v.origin_fits,
  read_uint64-write id.seq rest v.seq_fits,
)

-- A Gossip whose numbers and payload fit is written, and read back whatever bytes follow it.
pub unmarshal-marshal_gossip :
    (m : Gossip) (rest : Bytes)
    → IdFits m.id
    → m.round < 2 ^ 32
    → length m.payload < 2 ^ 32
    → (b : Bytes) × (marshal_gossip m ≡ ok b) × (unmarshal_gossip (b ++ rest) ≡ ok m)
unfolding marshal_gossip unmarshal_gossip
unmarshal-marshal_gossip m rest v r p =
    let tail = write_uint32 m.round ++ write_bytes m.payload in
    (
      id_wire m.id ++ tail,
      rw (write_message_id-eq m.id v),
      rw (
        append_assoc (id_wire m.id) tail rest,
        read_message_id-wire m.id (tail ++ rest) v,
        append_assoc (write_uint32 m.round) (write_bytes m.payload) rest,
        read_uint32-write m.round (write_bytes m.payload ++ rest) r,
        read_bytes-write m.payload rest p,
      ),
    )

-- So is a Graft.
pub unmarshal-marshal_graft :
    (m : Graft) (rest : Bytes)
    → IdFits m.id
    → m.round < 2 ^ 32
    → (b : Bytes) × (marshal_graft m ≡ ok b) × (unmarshal_graft (b ++ rest) ≡ ok m)
unfolding marshal_graft unmarshal_graft
unmarshal-marshal_graft m rest v r = (
  id_wire m.id ++ write_uint32 m.round,
  rw (write_message_id-eq m.id v),
  rw (
    append_assoc (id_wire m.id) (write_uint32 m.round) rest,
    read_message_id-wire m.id (write_uint32 m.round ++ rest) v,
    read_uint32-write m.round rest r,
  ),
)

-- The numbers of an announcement fit.
pub record AnnounceFits (a : Announce) : Type 0 where
  pub id_fits : IdFits a.id
  pub round_fits : a.round < 2 ^ 32

abbrev announces_wire : List Announce → Bytes
announces_wire [] = []
announces_wire (a ∷ more) = (id_wire a.id ++ write_uint32 a.round) ++ announces_wire more

write_announces-eq :
    (anns : List Announce) → All AnnounceFits anns → write_announces anns ≡ ok (announces_wire anns)
unfolding write_announces write_announce
write_announces-eq [] v = refl
write_announces-eq (a ∷ more) v =
    rw (write_message_id-eq a.id v.0.id_fits, write_announces-eq more v.1)

read_announce-wire :
    (a : Announce) (rest : Bytes)
    → AnnounceFits a
    → read_announce ((id_wire a.id ++ write_uint32 a.round) ++ rest) ≡ ok (a, rest)
unfolding read_announce
read_announce-wire a rest v = rw (
  append_assoc (id_wire a.id) (write_uint32 a.round) rest,
  read_message_id-wire a.id (write_uint32 a.round ++ rest) v.id_fits,
  read_uint32-write a.round rest v.round_fits,
)

-- Any number of the announcements, read from the front.
read_announces-wire :
    (n : ℕ) (anns : List Announce) (rest : Bytes)
    → All AnnounceFits anns
    → n ≤ length anns
    → (left : Bytes) × (read_announces n (announces_wire anns ++ rest) ≡ ok (take n anns, left))
unfolding read_announces
read_announces-wire zero anns rest v h = (announces_wire anns ++ rest, refl)
read_announces-wire (suc n) [] rest v h = absurd (omega arith)
read_announces-wire (suc n) (a ∷ more) rest v h =
    let (left, e) = read_announces-wire n more rest v.1 (omega arith) in
    (
      left,
      rw (
        append_assoc (id_wire a.id ++ write_uint32 a.round) (announces_wire more) rest,
        read_announce-wire a (announces_wire more ++ rest) v.0,
        e,
      ),
    )

-- An IHave is written, and what is read back is its first announcements, as many as its count modulo
-- 2 ^ 16: all of them if there are fewer than that, and fewer than were written otherwise.
pub unmarshal-marshal_ihave :
    (m : IHave) (rest : Bytes)
    → All AnnounceFits m.announcements
    → (b : Bytes) × (marshal_ihave m ≡ ok b)
      × (unmarshal_ihave (b ++ rest)
          ≡ ok (record { announcements = take (length m.announcements % 2 ^ 16) m.announcements }))
unfolding marshal_ihave unmarshal_ihave
unmarshal-marshal_ihave m rest v =
    let n = length m.announcements % 2 ^ 16 in
    let body = announces_wire m.announcements in
    let (left, e) = read_announces-wire n m.announcements rest v (omega arith) in
    (
      write_uint16 n ++ body,
      rw (write_announces-eq m.announcements v),
      rw (
        append_assoc (write_uint16 n) body rest,
        read_uint16-write n (body ++ rest) (omega arith),
        e,
      ),
    )
