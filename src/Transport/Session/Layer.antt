-- ===== src/Transport/Session/Layer.antt =====
-- The methods of `SessionLayer` of pkg/transport/session.go, and its loop, one input at a time.
use protorun.Prelude.{false, List, [], ◌∷◌, Option, none, some, ◌==◌, if◌then◌else◌, lookup, insert}
use protorun.Wire.{Bytes}
use protorun.Transport.Host.{Host, host_eq, zero_host}
use protorun.Transport.Address.{Address, address_string, Message, Event}
use protorun.Transport.Session.{
  bytes_eq, SessionState, SessionError, SessionConn, SessionEvent, Effect, SessionLayer, perform,
  emit_event,
}
use protorun.Transport.Session.Codec.{application, session, frame_for, split_frame}
use protorun.Transport.Session.Machine.{
  Live, cleanup_server_mapping, logical_for, handle_client_connect_requested, handle_connected,
  handle_handshake_message, handle_disconnected, handle_failed,
}

unfoldable pub resolve_underlying_host : Host → SessionLayer → Address
resolve_underlying_host h l = elim (lookup h l.logical_to_transport) [
  | none ↦ Address.at h
  | some addr ↦ addr
]

-- The session that `withSession` finds or makes.
unfoldable pub session_for : Address → Host → Option SessionConn → SessionConn
session_for addr logical none = record {
  logical_host = logical;
  transport_addr = addr;
  state = SessionState.idle;
  last_err = none;
  handshake_timer = false;
}
session_for addr logical (some sc) =
    if logical.port == 0 then sc else record sc { logical_host = logical }

abbrev pub store : Bytes → Live → SessionLayer
store key (l, sc) = record l { sessions = insert key sc l.sessions }

unfoldable pub with_session :
    Address → Host → (SessionLayer → SessionConn → Live) → SessionLayer → SessionLayer
unfolding session_for
with_session addr logical fn l =
    store (address_string addr)
      (fn l (session_for addr logical (lookup (address_string addr) l.sessions)))

unfoldable pub mark_server : SessionConn → SessionConn
mark_server sc = elim sc.state [
  | SessionState.idle ↦ record sc { state = SessionState.handshaking_server }
  | _ ↦ sc
]

unfoldable pub dispatch_handshake_message : Address → Bytes → SessionLayer → SessionLayer
unfolding with_session mark_server
dispatch_handshake_message addr body l =
    with_session addr zero_host (λ l₁ sc. handle_handshake_message body l₁ (mark_server sc)) l

unfoldable pub dispatch_connected : Address → SessionLayer → SessionLayer
unfolding with_session mark_server
dispatch_connected addr l =
    with_session addr zero_host (λ l₁ sc. handle_connected l₁ (mark_server sc)) l

unfoldable pub dispatch_disconnected : Address → SessionLayer → SessionLayer
unfolding with_session
dispatch_disconnected addr l = with_session addr zero_host handle_disconnected l

unfoldable pub dispatch_failed : Address → SessionLayer → SessionLayer
unfolding with_session
dispatch_failed addr l = with_session addr zero_host handle_failed l

unfoldable pub expire : SessionLayer → SessionConn → Live
expire l sc = (
  perform (Effect.disconnects sc.transport_addr)
      (emit_event (SessionEvent.session_failed sc.logical_host) l),
  record sc {
    handshake_timer = false;
    state = SessionState.failed;
    last_err = some (SessionError.timed_out sc.logical_host);
  },
)

unfoldable pub expire_client : Address → SessionConn → SessionLayer → SessionLayer
unfolding expire
expire_client addr sc l = elim sc.state [
  | SessionState.handshaking_client ↦ store (address_string addr) (expire l sc)
  | _ ↦ l
]

unfoldable pub expire_found : Address → Option SessionConn → SessionLayer → SessionLayer
unfolding expire_client
expire_found addr none l = l
expire_found addr (some sc) l = expire_client addr sc l

unfoldable pub dispatch_handshake_timeout : Address → SessionLayer → SessionLayer
unfolding expire_found
dispatch_handshake_timeout addr l = expire_found addr (lookup (address_string addr) l.sessions) l

unfoldable pub transport_message_handler : Message → SessionLayer → SessionLayer
unfolding dispatch_handshake_message split_frame
transport_message_handler m l =
    let (layer, body) = split_frame m in
    if layer == application
    then perform
        (Effect.delivers (record { host = logical_for m.peer l; layer = application; body = body }))
        l
    else if layer == session
    then dispatch_handshake_message m.peer body l
    else l

unfoldable pub transport_event_handler : Event → SessionLayer → SessionLayer
unfolding dispatch_connected dispatch_disconnected dispatch_failed
transport_event_handler (Event.connected addr) l = dispatch_connected addr l
transport_event_handler (Event.disconnected addr) l = dispatch_disconnected addr l
transport_event_handler (Event.failed addr) l = dispatch_failed addr l

unfoldable pub connect_client : Host → SessionLayer → SessionLayer
unfolding with_session
connect_client h l = with_session (Address.at h) h handle_client_connect_requested l

unfoldable pub disconnect : Host → SessionLayer → SessionLayer
unfolding resolve_underlying_host
disconnect h l =
    let addr = resolve_underlying_host h l in
    cleanup_server_mapping addr (perform (Effect.disconnects addr) l)

unfoldable pub send : Bytes → Host → SessionLayer → SessionLayer
unfolding resolve_underlying_host
send msg h l =
    let underlying = resolve_underlying_host h l in
    perform (Effect.sends (frame_for application msg underlying) underlying) l

-- What the loop of `handler` selects: a frame or an event of the transport, a call of the runtime's, or
-- an expired timer.
pub data Input : Type 0 where
  frame : Message → Input
  event : Event → Input
  connects : Host → Input
  disconnects : Host → Input
  sends : Bytes → Host → Input
  times_out : Address → Input

unfoldable pub step : SessionLayer → Input → SessionLayer
unfolding transport_message_handler transport_event_handler connect_client disconnect send
    dispatch_handshake_timeout
step l (Input.frame m) = transport_message_handler m l
step l (Input.event e) = transport_event_handler e l
step l (Input.connects h) = connect_client h l
step l (Input.disconnects h) = disconnect h l
step l (Input.sends msg h) = send msg h l
step l (Input.times_out addr) = dispatch_handshake_timeout addr l

unfoldable pub run : List Input → SessionLayer → SessionLayer
run [] l = l
run (i ∷ inputs) l = run inputs (step l i)
