-- ===== src/Transport/Session/Steps.antt =====
-- What the inputs of pkg/transport/session.go do to a session whose state is known.
use protorun.Prelude.{
  ◌≡◌, refl, ◌∙◌, sym, append-nil, Bool, true, false, [], ◌∷◌, Option, none, some, lookup, ok, ◌∙◌,
}
use protorun.Wire.{Bytes}
use protorun.Transport.Host.{Host, zero_host, host_eq}
use protorun.Transport.Host.Laws.{IsEncodable, host_wire, write_host-eq, read_host-wire}
use protorun.Transport.Address.{Address, address_string, Event}
use protorun.Transport.Session.{bytes_eq, SessionState, SessionConn, Effect, SessionLayer, perform}
use protorun.Transport.Session.Codec.{
  session, handshake_hello, protocol_version, encode_hello, payload, parse_handshake_payload,
  frame_for, split_frame,
}
use protorun.Transport.Session.Machine.{
  Live, handle_client_connect_requested, handle_handshake_message, handle_connected, send_hello,
  handle_disconnected,
}
use protorun.Transport.Session.Layer.{
  Input, step, store, dispatch_handshake_message, connect_client, dispatch_connected, with_session,
  session_for, mark_server, transport_event_handler, transport_message_handler,
  dispatch_disconnected,
}

-- The frame with these bytes, as it arrives from the address.
abbrev pub from : Address → Bytes → Input
from addr bytes = Input.frame (record { peer = addr; msg = bytes })

abbrev pub hello_bytes : Host → Bytes
hello_bytes h = handshake_hello ∷ protocol_version ∷ host_wire h

pub encode_hello-eq : (h : Host) → IsEncodable h → encode_hello h ≡ ok (hello_bytes h)
unfolding encode_hello
encode_hello-eq h v = rw (write_host-eq h v) refl

pub parse-hello_bytes :
    (h : Host)
    → IsEncodable h
    → parse_handshake_payload (hello_bytes h) ≡ (payload handshake_hello h protocol_version, none)
unfolding parse_handshake_payload
parse-hello_bytes h v = rw (sym (append-nil (host_wire h)), read_host-wire h [] v) refl

pub with_session-eq :
    (addr : Address) (h : Host) (fn : SessionLayer → SessionConn → Live) (l : SessionLayer)
    (o : Option SessionConn)
    → lookup (address_string addr) l.sessions ≡ o
    → with_session addr h fn l ≡ store (address_string addr) (fn l (session_for addr h o))
unfolding with_session
with_session-eq addr h fn l o e = rw e refl

abbrev pub conn : Address → Host → SessionState → Bool → SessionConn
conn addr h state timer = record {
  logical_host = h;
  transport_addr = addr;
  state = state;
  last_err = none;
  handshake_timer = timer;
}

pub step-connects-none :
    (h : Host) (l : SessionLayer)
    → lookup (address_string (Address.at h)) l.sessions ≡ none
    → step l (Input.connects h)
      ≡ store (address_string (Address.at h)) (
        perform (Effect.connects (Address.at h)) l,
        conn (Address.at h) h SessionState.handshaking_client false,
      )
unfolding step connect_client handle_client_connect_requested session_for
step-connects-none h l e = with_session-eq (Address.at h) h handle_client_connect_requested l none e

pub step-connected-client :
    (addr : Address) (h : Host) (l : SessionLayer)
    → lookup (address_string addr) l.sessions
      ≡ some (conn addr h SessionState.handshaking_client false)
    → IsEncodable l.self
    → step l (Input.event (Event.connected addr))
      ≡ store (address_string addr) (
        perform
            (Effect.arms addr l.handshake_timeout)
            (perform (Effect.sends (frame_for session (hello_bytes l.self) addr) addr) l),
        conn addr h SessionState.handshaking_client true,
      )
unfolding step transport_event_handler dispatch_connected session_for mark_server handle_connected
    send_hello
step-connected-client addr h l e v =
    with_session-eq addr zero_host (λ l₁ sc. handle_connected l₁ (mark_server sc)) l _ e
    ∙ rw (encode_hello-eq l.self v) refl

pub step-connected-none :
    (addr : Address) (l : SessionLayer)
    → lookup (address_string addr) l.sessions ≡ none
    → step l (Input.event (Event.connected addr))
      ≡ store (address_string addr) (l, conn addr zero_host SessionState.handshaking_server false)
unfolding step transport_event_handler dispatch_connected session_for mark_server handle_connected
step-connected-none addr l e =
    with_session-eq addr zero_host (λ l₁ sc. handle_connected l₁ (mark_server sc)) l _ e

pub dispatch_handshake_message-eq :
    (addr : Address) (body : Bytes) (sc : SessionConn) (l : SessionLayer)
    → lookup (address_string addr) l.sessions ≡ some sc
    → dispatch_handshake_message addr body l
      ≡ store (address_string addr) (handle_handshake_message body l (mark_server sc))
unfolding dispatch_handshake_message session_for
dispatch_handshake_message-eq addr body sc l e =
    with_session-eq addr zero_host (λ l₁ c. handle_handshake_message body l₁ (mark_server c)) l _ e

pub step-from :
    (addr : Address) (body : Bytes) (sc : SessionConn) (l : SessionLayer)
    → lookup (address_string addr) l.sessions ≡ some sc
    → step l (from addr (session ∷ body))
      ≡ store (address_string addr) (handle_handshake_message body l (mark_server sc))
unfolding step transport_message_handler split_frame
step-from addr body sc l e = dispatch_handshake_message-eq addr body sc l e

pub step-disconnected :
    (addr : Address) (sc : SessionConn) (l : SessionLayer)
    → lookup (address_string addr) l.sessions ≡ some sc
    → step l (Input.event (Event.disconnected addr))
      ≡ store (address_string addr) (handle_disconnected l sc)
unfolding step transport_event_handler dispatch_disconnected session_for
step-disconnected addr sc l e = with_session-eq addr zero_host handle_disconnected l _ e
