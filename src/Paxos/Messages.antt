-- ===== src/Paxos/Messages.antt =====
-- pkg/protocols/paxos/messages.go: the five messages and their hand-written codecs.
pub mod Laws
use protorun.Prelude.{ℕ, Bool, [], ◌∷◌, ◌++◌, Result, ok, ◌>>=◌}
use protorun.Wire.{
  Bytes, write_uint64, read_uint64, write_bytes, read_bytes, bool_byte, read_byte, is_set,
}

pub record Prepare : Type 0 where
  pub ballot : ℕ

pub record Promise : Type 0 where
  pub ballot : ℕ
  pub ok_flag : Bool
  pub max_ballot : ℕ
  pub accepted_ballot : ℕ
  pub accepted_value : Bytes
  pub has_accepted : Bool

pub record Accept : Type 0 where
  pub ballot : ℕ
  pub value : Bytes

pub record Accepted : Type 0 where
  pub ballot : ℕ
  pub value : Bytes

pub record AcceptNack : Type 0 where
  pub max_ballot : ℕ

unfoldable pub marshal_prepare : Prepare → Bytes
marshal_prepare m = write_uint64 m.ballot

-- Bytes behind the message are ignored, as in every `UnmarshalWire` of the package.
unfoldable pub unmarshal_prepare : Bytes → Result Prepare
unmarshal_prepare b = do (v, r) ← read_uint64 b; ok (record { ballot = v })

unfoldable pub marshal_promise : Promise → Bytes
marshal_promise m =
    write_uint64 m.ballot
    ++ (bool_byte m.ok_flag
        ∷ (write_uint64 m.max_ballot
            ++ (write_uint64 m.accepted_ballot
                ++ (bool_byte m.has_accepted ∷ write_bytes m.accepted_value))))

unfoldable pub unmarshal_promise : Bytes → Result Promise
unmarshal_promise b = do
  (ballot, r₁) ← read_uint64 b
  (ok_byte, r₂) ← read_byte r₁
  (max_ballot, r₃) ← read_uint64 r₂
  (accepted_ballot, r₄) ← read_uint64 r₃
  (has_byte, r₅) ← read_byte r₄
  (accepted_value, r₆) ← read_bytes r₅
  ok (record {
    ballot = ballot;
    ok_flag = is_set ok_byte;
    max_ballot = max_ballot;
    accepted_ballot = accepted_ballot;
    accepted_value = accepted_value;
    has_accepted = is_set has_byte;
  })

unfoldable pub marshal_accept : Accept → Bytes
marshal_accept m = write_uint64 m.ballot ++ write_bytes m.value

unfoldable pub unmarshal_accept : Bytes → Result Accept
unmarshal_accept b = do
  (ballot, r₁) ← read_uint64 b
  (value, r₂) ← read_bytes r₁
  ok (record { ballot = ballot; value = value })

unfoldable pub marshal_accepted : Accepted → Bytes
marshal_accepted m = write_uint64 m.ballot ++ write_bytes m.value

unfoldable pub unmarshal_accepted : Bytes → Result Accepted
unmarshal_accepted b = do
  (ballot, r₁) ← read_uint64 b
  (value, r₂) ← read_bytes r₁
  ok (record { ballot = ballot; value = value })

unfoldable pub marshal_accept_nack : AcceptNack → Bytes
marshal_accept_nack m = write_uint64 m.max_ballot

unfoldable pub unmarshal_accept_nack : Bytes → Result AcceptNack
unmarshal_accept_nack b = do (v, r) ← read_uint64 b; ok (record { max_ballot = v })
