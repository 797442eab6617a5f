-- ===== src/Transport/Session/Machine.antt =====
-- The methods of `sessionConn` of pkg/transport/session.go: each takes the layer and the session and
-- returns both.
use protorun.Prelude.{
  ℕ, Bool, true, false, Option, none, some, ◌==◌, if◌then◌else◌, Result, ok, err, lookup, insert,
  delete,
}
use protorun.Wire.{Bytes}
use protorun.Transport.Host.{Host, host_eq, zero_host}
use protorun.Transport.Address.{Address, address_string, host_from_address}
use protorun.Transport.Session.{
  bytes_eq, SessionState, SessionError, SessionConn, SessionEvent, Effect, SessionLayer, perform,
  emit_event,
}
use protorun.Transport.Session.Codec.{
  session, handshake_hello, handshake_ack, handshake_reject, encode_hello, encode_ack,
  encode_reject, HandshakePayload, Parsed, parse_handshake_payload, frame_for,
}

abbrev pub Live : Type 0
Live = SessionLayer × SessionConn

unfoldable pub set_server_mapping : Address → Host → SessionLayer → SessionLayer
set_server_mapping addr logical l = record l {
  transport_to_logical = insert (address_string addr) logical l.transport_to_logical;
  logical_to_transport = insert logical addr l.logical_to_transport;
}

unfoldable pub drop_mapping : Address → Option Host → SessionLayer → SessionLayer
drop_mapping addr none l = l
drop_mapping addr (some logical) l = record l {
  transport_to_logical = delete (address_string addr) l.transport_to_logical;
  logical_to_transport = delete logical l.logical_to_transport;
}

unfoldable pub cleanup_server_mapping : Address → SessionLayer → SessionLayer
unfolding drop_mapping
cleanup_server_mapping addr l =
    drop_mapping addr (lookup (address_string addr) l.transport_to_logical) l

abbrev pub or_zero : Option Host → Host
or_zero none = zero_host
or_zero (some h) = h

unfoldable pub logical_for : Address → SessionLayer → Host
logical_for addr l = elim (lookup (address_string addr) l.transport_to_logical) [
  | none ↦ or_zero (host_from_address addr)
  | some logical ↦ logical
]

unfoldable pub logical_host_or_transport : SessionConn → Host
logical_host_or_transport sc =
    if sc.logical_host.port == 0
    then or_zero (host_from_address sc.transport_addr)
    else sc.logical_host

unfoldable pub may_connect : SessionState → Bool
may_connect SessionState.idle = true
may_connect SessionState.failed = true
may_connect SessionState.closing = true
may_connect _ = false

unfoldable pub handle_client_connect_requested : SessionLayer → SessionConn → Live
unfolding may_connect
handle_client_connect_requested l sc =
    if may_connect sc.state
    then (
      perform (Effect.connects sc.transport_addr) l,
      record sc { state = SessionState.handshaking_client },
    )
    else (l, sc)

unfoldable pub send_hello : Result Bytes → SessionLayer → SessionConn → Live
send_hello (err e) l sc = (
  emit_event (SessionEvent.session_failed sc.logical_host) l,
  record sc { last_err = some (SessionError.encoding e); state = SessionState.failed },
)
send_hello (ok hello) l sc = (
  perform (Effect.arms sc.transport_addr l.handshake_timeout)
      (perform (Effect.sends (frame_for session hello sc.transport_addr) sc.transport_addr) l),
  record sc { handshake_timer = true },
)

unfoldable pub handle_connected : SessionLayer → SessionConn → Live
unfolding send_hello
handle_connected l sc = elim sc.state [
  | SessionState.handshaking_client ↦ send_hello (encode_hello l.self) l sc
  | _ ↦ (l, sc)
]

unfoldable pub reject_handshake : ℕ → SessionLayer → SessionConn → Live
reject_handshake peer_version l sc =
    let mismatch : SessionEvent =
      SessionEvent.session_version_mismatch (logical_host_or_transport sc) peer_version true in
    (
      perform (Effect.disconnects sc.transport_addr) (
          emit_event mismatch (
            perform
              (Effect.sends (frame_for session encode_reject sc.transport_addr) sc.transport_addr)
              l)),
      record sc { state = SessionState.failed },
    )

unfoldable pub handle_server_handshake : HandshakePayload → SessionLayer → SessionConn → Live
handle_server_handshake p l sc =
    if p.typ == handshake_hello
    then (
      emit_event (SessionEvent.session_connected p.host) (
          set_server_mapping sc.transport_addr p.host (
            perform
              (Effect.sends (frame_for session encode_ack sc.transport_addr) sc.transport_addr) l)),
      record sc { logical_host = p.host; state = SessionState.established },
    )
    else (l, sc)

unfoldable pub handle_client_handshake : HandshakePayload → SessionLayer → SessionConn → Live
handle_client_handshake p l sc =
    if p.typ == handshake_ack
    then (
      emit_event (SessionEvent.session_connected sc.logical_host)
          (set_server_mapping sc.transport_addr sc.logical_host l),
      record sc { handshake_timer = false; state = SessionState.established },
    )
    else if p.typ == handshake_reject
    then (
      perform (Effect.disconnects sc.transport_addr)
          (emit_event (SessionEvent.session_version_mismatch sc.logical_host p.version false) l),
      record sc {
        handshake_timer = false;
        state = SessionState.failed;
        last_err = some (SessionError.rejected sc.logical_host p.version);
      },
    )
    else (l, sc)

unfoldable pub handle_parsed : Parsed → SessionLayer → SessionConn → Live
unfolding reject_handshake handle_server_handshake handle_client_handshake
handle_parsed (p, some (SessionError.version_mismatch v)) l sc =
    reject_handshake p.version l (record sc { last_err = some (SessionError.version_mismatch v) })
handle_parsed (p, some e) l sc = (l, record sc { last_err = some e })
handle_parsed (p, none) l sc = elim sc.state [
  | SessionState.handshaking_server ↦ handle_server_handshake p l sc
  | SessionState.handshaking_client ↦ handle_client_handshake p l sc
  | _ ↦ (l, sc)
]

unfoldable pub handle_handshake_message : Bytes → SessionLayer → SessionConn → Live
unfolding handle_parsed
handle_handshake_message body l sc = handle_parsed (parse_handshake_payload body) l sc

unfoldable pub is_open : SessionState → Bool
is_open SessionState.established = true
is_open SessionState.handshaking_client = true
is_open SessionState.handshaking_server = true
is_open _ = false

unfoldable pub handle_disconnected : SessionLayer → SessionConn → Live
unfolding is_open
handle_disconnected l sc =
    if is_open sc.state
    then (
      emit_event (SessionEvent.session_disconnected (logical_for sc.transport_addr l))
          (cleanup_server_mapping sc.transport_addr l),
      record sc { handshake_timer = false; state = SessionState.closing },
    )
    else (l, record sc { handshake_timer = false; state = SessionState.failed })

unfoldable pub handle_failed : SessionLayer → SessionConn → Live
handle_failed l sc = (
  emit_event (SessionEvent.session_failed (logical_for sc.transport_addr l))
      (cleanup_server_mapping sc.transport_addr l),
  record sc { handshake_timer = false; state = SessionState.failed },
)
