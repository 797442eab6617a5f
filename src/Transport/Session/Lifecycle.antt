-- ===== src/Transport/Session/Lifecycle.antt =====
-- The events of one session over any run of the layer of pkg/transport/session.go, against the
-- lifecycle that the runtime relies on.
pub mod Moves
pub mod Runs
use protorun.Wire.{Bytes}
use protorun.Transport.Session.Codec.{
  encode_hello, Parsed, HandshakePayload, handshake_ack, handshake_hello, handshake_reject,
  parse_handshake_payload, split_frame, application, session,
}
use protorun.Transport.Session.Machine.{
  Live, may_connect, handle_client_connect_requested, is_open, cleanup_server_mapping,
  handle_server_handshake, handle_failed, reject_handshake, send_hello, handle_client_handshake,
  handle_connected, handle_parsed, handle_disconnected, set_server_mapping, logical_for,
  drop_mapping, handle_handshake_message,
}
use protorun.Transport.Host.{Host, zero_host}
use protorun.Transport.Address.{Message, Address, address_string}
use protorun.Prelude.{
  ℕ, ◌-◌, ◌≡◌, refl, ap, Bool, true, false, List, [], ◌∷◌, ◌++◌, append_assoc, length, take,
  take-append_length, length-append, Option, none, some, ◌==◌, if◌then◌else◌, if_elim, same, lookup,
  insert, lookup-insert, arith, ◌≢◌, Result, err, ok, bytes_beq_iff, sym, ◌∙◌, or_default,
}
use protorun.Transport.Address.{Event}
use protorun.Transport.Host.{zero_host}
use protorun.Transport.Session.Layer.{
  disconnect, send, Input, step, run, store, session_for, mark_server, with_session, expire_client,
  expire, transport_message_handler, dispatch_handshake_timeout, transport_event_handler,
  dispatch_connected, dispatch_handshake_message, dispatch_disconnected, dispatch_failed,
  connect_client, resolve_underlying_host, expire_found,
}
use protorun.Transport.Session.{
  perform, SessionError, bytes_eq, SessionState, SessionConn, SessionEvent, Effect, SessionLayer,
  Address, Host, Bytes, emit_event, perform,
}

-- What a listener knows of one session: up after `session_connected`, down after any other event. A
-- `session_connected` of a session that is up already is no lifecycle.
unfoldable pub track : List SessionEvent → Bool → Option Bool
track [] up = some up
track (SessionEvent.session_connected h ∷ events) true = none
track (SessionEvent.session_connected h ∷ events) false = track events true
track (SessionEvent.session_disconnected h ∷ events) up = track events false
track (SessionEvent.session_failed h ∷ events) up = track events false
track (SessionEvent.session_version_mismatch h v inbound ∷ events) up = track events false

-- The events among effects, oldest first.
unfoldable pub events_of : List Effect → List SessionEvent
events_of [] = []
events_of (Effect.emits e ∷ effects) = events_of effects ++ e ∷ []
events_of (_ ∷ effects) = events_of effects

abbrev pub is_established : SessionState → Bool
is_established SessionState.established = true
is_established _ = false

abbrev pub up_of : Option SessionConn → Bool
up_of none = false
up_of (some sc) = is_established sc.state

abbrev pub is_up : Address → SessionLayer → Bool
is_up addr l = up_of (lookup (address_string addr) l.sessions)

abbrev pub same_address : Address → Address → Bool
same_address a b = same (address_string a) (address_string b)

-- Whether an input is one of the session with the address.
unfoldable pub concerns : Address → Input → Bool
concerns addr (Input.frame m) = same_address m.peer addr
concerns addr (Input.event (Event.connected a)) = same_address a addr
concerns addr (Input.event (Event.disconnected a)) = same_address a addr
concerns addr (Input.event (Event.failed a)) = same_address a addr
concerns addr (Input.connects h) = same_address (Address.at h) addr
concerns addr (Input.disconnects h) = false
concerns addr (Input.sends msg h) = false
concerns addr (Input.times_out a) = same_address a addr

-- The effects that one layer has over another.
abbrev pub news : SessionLayer → SessionLayer → List Effect
news old new = take (length new.effects - length old.effects) new.effects

-- The events of the session with the address in a run, oldest first.
unfoldable pub events_at : Address → List Input → SessionLayer → List SessionEvent
unfolding events_of concerns
events_at addr [] l = []
events_at addr (i ∷ inputs) l =
    (if concerns addr i then events_of (news l (step l i)) else [])
    ++ events_at addr inputs (step l i)
