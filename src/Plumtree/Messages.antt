-- ===== src/Plumtree/Messages.antt =====
-- pkg/protocols/plumtree/messages.go: message ids, the four messages and their hand-written codecs.
pub mod Laws
use protorun.Prelude.{
  ℕ, zero, suc, ◌%◌, ◌^◌, ◌≡◌, refl, ◌↔◌, Bool, ◌&&◌, List, [], ◌∷◌, ◌++◌, length, ◌==◌, ==_iff, Eq,
  arith, Result, ok, ◌>>=◌, true,
}
use protorun.Wire.{
  Bytes, Reader, write_uint16, read_uint16, write_uint32, read_uint32, write_uint64, read_uint64,
  write_bytes, read_bytes,
}
use protorun.Transport.Host.{Host, host_beq, host_beq_iff, write_host, read_host}

pub record MessageId : Type 0 where
  pub origin : Host
  pub seq : ℕ

unfoldable pub id_beq : MessageId → MessageId → Bool
id_beq a b = host_beq a.origin b.origin && a.seq == b.seq

pub id_beq_iff : (a b : MessageId) → (id_beq a b ≡ true) ↔ (a ≡ b)
unfolding id_beq
id_beq_iff a b = ground (arith, host_beq_iff a.origin b.origin)

instance abbrev pub id_eq : Eq MessageId
id_eq = record { beq = id_beq; beq_iff = id_beq_iff }

pub record Gossip : Type 0 where
  pub id : MessageId
  pub round : ℕ
  pub payload : Bytes

pub record Announce : Type 0 where
  pub id : MessageId
  pub round : ℕ

pub record IHave : Type 0 where
  pub announcements : List Announce

pub record Graft : Type 0 where
  pub id : MessageId
  pub round : ℕ

unfoldable pub write_message_id : MessageId → Result Bytes
write_message_id id = do host ← write_host id.origin; ok (host ++ write_uint64 id.seq)

unfoldable pub read_message_id : Reader MessageId
read_message_id r = do
  (origin, r₁) ← read_host r
  (seq, r₂) ← read_uint64 r₁
  ok (record { origin = origin; seq = seq }, r₂)

unfoldable pub marshal_gossip : Gossip → Result Bytes
unfolding write_message_id
marshal_gossip m = do
  id ← write_message_id m.id
  ok (id ++ (write_uint32 m.round ++ write_bytes m.payload))

unfoldable pub unmarshal_gossip : Bytes → Result Gossip
unfolding read_message_id
unmarshal_gossip b = do
  (id, r₁) ← read_message_id b
  (round, r₂) ← read_uint32 r₁
  (payload, r₃) ← read_bytes r₂
  ok (record { id = id; round = round; payload = payload })

unfoldable pub write_announce : Announce → Result Bytes
write_announce a = do id ← write_message_id a.id; ok (id ++ write_uint32 a.round)

unfoldable pub read_announce : Reader Announce
read_announce r = do
  (id, r₁) ← read_message_id r
  (round, r₂) ← read_uint32 r₁
  ok (record { id = id; round = round }, r₂)

-- The loops over the announcements.
unfoldable pub write_announces : List Announce → Result Bytes
unfolding write_announce
write_announces [] = ok []
write_announces (a ∷ more) = do
  first ← write_announce a
  rest ← write_announces more
  ok (first ++ rest)

unfoldable pub read_announces : ℕ → Reader (List Announce)
unfolding read_announce
read_announces zero r = ok ([], r)
read_announces (suc n) r = do
  (a, r₁) ← read_announce r
  (more, r₂) ← read_announces n r₁
  ok (a ∷ more, r₂)

-- The count goes to a uint16.
unfoldable pub marshal_ihave : IHave → Result Bytes
unfolding write_announces
marshal_ihave m = do
  body ← write_announces m.announcements
  ok (write_uint16 (length m.announcements % 2 ^ 16) ++ body)

unfoldable pub unmarshal_ihave : Bytes → Result IHave
unfolding read_announces
unmarshal_ihave b = do
  (n, r₁) ← read_uint16 b
  (more, r₂) ← read_announces n r₁
  ok (record { announcements = more })

unfoldable pub marshal_graft : Graft → Result Bytes
marshal_graft m = do id ← write_message_id m.id; ok (id ++ write_uint32 m.round)

unfoldable pub unmarshal_graft : Bytes → Result Graft
unmarshal_graft b = do
  (id, r₁) ← read_message_id b
  (round, r₂) ← read_uint32 r₁
  ok (record { id = id; round = round })
