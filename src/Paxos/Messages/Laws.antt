-- ===== src/Paxos/Messages/Laws.antt =====
-- Round trips of the paxos codecs.
use protorun.Prelude.{◌^◌, ◌<◌, ◌≡◌, ◌++◌, length, ok}
use protorun.Wire.{Bytes}
use protorun.Wire.Laws.{
  read_uint64-write, read_bytes-write, read_uint64-write_append, read_byte-bool, is_set-bool_byte,
}
use protorun.Paxos.Messages.{
  Prepare, Promise, Accept, Accepted, AcceptNack, marshal_prepare, unmarshal_prepare,
  marshal_promise, unmarshal_promise, marshal_accept, unmarshal_accept, marshal_accepted,
  unmarshal_accepted, marshal_accept_nack, unmarshal_accept_nack,
}

-- A Promise survives the wire with all of its six fields, whatever bytes follow it, if its ballots fit
-- in 64 bits and the length of its value in 32.
pub unmarshal-marshal_promise :
    (m : Promise) (rest : Bytes)
    → m.ballot < 2 ^ 64
    → m.max_ballot < 2 ^ 64
    → m.accepted_ballot < 2 ^ 64
    → length m.accepted_value < 2 ^ 32
    → unmarshal_promise (marshal_promise m ++ rest) ≡ ok m
unfolding unmarshal_promise marshal_promise
unmarshal-marshal_promise m rest b x a v = rw (
  read_uint64-write_append m.ballot _ rest b,
  read_byte-bool m.ok_flag,
  read_uint64-write_append m.max_ballot _ rest x,
  read_uint64-write_append m.accepted_ballot _ rest a,
  read_byte-bool m.has_accepted,
  read_bytes-write m.accepted_value rest v,
  is_set-bool_byte m.ok_flag,
  is_set-bool_byte m.has_accepted,
)

-- Accept and Accepted, which have the same form.
pub unmarshal-marshal_accept :
    (m : Accept) (rest : Bytes)
    → m.ballot < 2 ^ 64
    → length m.value < 2 ^ 32
    → unmarshal_accept (marshal_accept m ++ rest) ≡ ok m
unfolding unmarshal_accept marshal_accept
unmarshal-marshal_accept m rest b v =
    rw (read_uint64-write_append m.ballot _ rest b, read_bytes-write m.value rest v)

pub unmarshal-marshal_accepted :
    (m : Accepted) (rest : Bytes)
    → m.ballot < 2 ^ 64
    → length m.value < 2 ^ 32
    → unmarshal_accepted (marshal_accepted m ++ rest) ≡ ok m
unfolding unmarshal_accepted marshal_accepted
unmarshal-marshal_accepted m rest b v =
    rw (read_uint64-write_append m.ballot _ rest b, read_bytes-write m.value rest v)

pub unmarshal-marshal_prepare :
    (m : Prepare) (rest : Bytes)
    → m.ballot < 2 ^ 64
    → unmarshal_prepare (marshal_prepare m ++ rest) ≡ ok m
unfolding unmarshal_prepare marshal_prepare
unmarshal-marshal_prepare m rest b = rw (read_uint64-write m.ballot rest b)

pub unmarshal-marshal_accept_nack :
    (m : AcceptNack) (rest : Bytes)
    → m.max_ballot < 2 ^ 64
    → unmarshal_accept_nack (marshal_accept_nack m ++ rest) ≡ ok m
unfolding unmarshal_accept_nack marshal_accept_nack
unmarshal-marshal_accept_nack m rest b = rw (read_uint64-write m.max_ballot rest b)
