-- ===== src/Transport/Session/Codec.antt =====
-- The frames and handshake payloads of pkg/transport/session.go.
use protorun.Prelude.{
  ℕ, ◌%◌, ◌^◌, [], ◌∷◌, Option, none, some, ◌==◌, if◌then◌else◌, Result, ok, err, ◌>>=◌, Error,
}
use protorun.Wire.{Bytes}
use protorun.Transport.Host.{Host, zero_host, write_host, read_host}
use protorun.Transport.Address.{Address, Message}
use protorun.Transport.Session.{SessionError}

abbrev pub application : ℕ
application = 0

abbrev pub session : ℕ
session = 1

abbrev pub handshake_hello : ℕ
handshake_hello = 1

abbrev pub handshake_ack : ℕ
handshake_ack = 2

abbrev pub handshake_reject : ℕ
handshake_reject = 3

abbrev pub protocol_version : ℕ
protocol_version = 1

unfoldable pub encode_hello : Host → Result Bytes
encode_hello h = do host ← write_host h; ok (handshake_hello ∷ protocol_version ∷ host)

unfoldable pub encode_ack : Bytes
encode_ack = handshake_ack ∷ []

unfoldable pub encode_reject : Bytes
encode_reject = handshake_reject ∷ protocol_version ∷ []

pub record HandshakePayload : Type 0 where
  pub typ : ℕ
  pub host : Host
  pub version : ℕ

abbrev pub payload : ℕ → Host → ℕ → HandshakePayload
payload typ host version = record { typ = typ; host = host; version = version }

-- The parsers return both the payload, as far as it was read, and the error.
abbrev pub Parsed : Type 0
Parsed = HandshakePayload × Option SessionError

unfoldable pub parse_sender : HandshakePayload → Result (Host × Bytes) → Parsed
parse_sender p (err e) = (p, some (SessionError.reading e))
parse_sender p (ok (h, rest)) = (record p { host = h }, none)

unfoldable pub parse_hello : HandshakePayload → Bytes → Parsed
unfolding parse_sender
parse_hello p [] = (p, some (SessionError.reading Error.eof))
parse_hello p (version ∷ r) =
    let q : HandshakePayload = record p { version = version } in
    if version == protocol_version
    then parse_sender q (read_host r)
    else (q, some (SessionError.version_mismatch version))

unfoldable pub parse_reject : HandshakePayload → Bytes → Parsed
parse_reject p [] = (p, some (SessionError.reading Error.eof))
parse_reject p (version ∷ r) = (record p { version = version }, none)

unfoldable pub parse_handshake_payload : Bytes → Parsed
unfolding parse_hello parse_reject
parse_handshake_payload [] = (payload 0 zero_host 0, some SessionError.empty_payload)
parse_handshake_payload (typ ∷ r) =
    let p : HandshakePayload = payload typ zero_host 0 in
    if typ == handshake_hello
    then parse_hello p r
    else if typ == handshake_ack
    then (p, none)
    else if typ == handshake_reject
    then parse_reject p r
    else (payload 0 zero_host 0, some (SessionError.unknown_type typ))

unfoldable pub frame_for : ℕ → Bytes → Address → Message
frame_for layer body peer = record { peer = peer; msg = (layer % 2 ^ 8) ∷ body }

unfoldable pub split_frame : Message → ℕ × Bytes
split_frame m = elim m.msg [ [] ↦ (application, []) | header ∷ body ↦ (header, body) ]
