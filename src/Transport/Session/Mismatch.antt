-- ===== src/Transport/Session/Mismatch.antt =====
-- The ends of a session of pkg/transport/session.go that are not a plain loss: refused versions, the
-- timeout of the handshake, and what comes after them.
use protorun.Prelude.{
  ℕ, ◌==◌, ◌≡◌, refl, ap, ◌∙◌, true, false, [], ◌∷◌, none, some, lookup, lookup-insert_self,
}
use protorun.Wire.{Bytes}
use protorun.Transport.Host.{zero_host}
use protorun.Transport.Address.{Address, address_string, Event}
use protorun.Transport.Session.{
  bytes_eq, SessionState, SessionError, SessionConn, SessionEvent, Effect, SessionLayer, perform,
  emit_event,
}
use protorun.Transport.Session.Codec.{
  session, handshake_hello, protocol_version, encode_reject, payload, HandshakePayload,
  parse_handshake_payload, frame_for, parse_hello, handshake_reject, parse_reject,
}
use protorun.Transport.Session.Machine.{
  Live, logical_host_or_transport, handle_handshake_message, handle_parsed, reject_handshake,
  handle_disconnected, is_open, handle_connected, handle_client_handshake,
}
use protorun.Transport.Session.Layer.{
  Input, step, run, store, mark_server, transport_event_handler, session_for, dispatch_connected,
  dispatch_handshake_timeout, expire_found, expire_client,
}
use protorun.Transport.Session.Steps.{step-disconnected, from, with_session-eq, step-from}

parse-version :
    (v : ℕ) (rest : Bytes)
    → (v == protocol_version) ≡ false
    → parse_handshake_payload (handshake_hello ∷ v ∷ rest)
      ≡ (payload handshake_hello zero_host v, some (SessionError.version_mismatch v))
unfolding parse_handshake_payload parse_hello
parse-version v rest e = rw (parse_handshake_payload, parse_hello, e) refl

abbrev refused_layer : SessionConn → ℕ → SessionLayer → SessionLayer
refused_layer sc v l =
    let addr : Address = sc.transport_addr in
    perform (Effect.disconnects addr) (
      emit_event (SessionEvent.session_version_mismatch (logical_host_or_transport sc) v true)
        (perform (Effect.sends (frame_for session encode_reject addr) addr) l))

-- A Hello of another version at a session in any state.
refused :
    (v : ℕ) (rest : Bytes) (sc : SessionConn) (l : SessionLayer)
    → (v == protocol_version) ≡ false
    → let addr : Address = sc.transport_addr in
      lookup (address_string addr) l.sessions ≡ some sc
      → mark_server sc ≡ sc
      → step l (from addr (session ∷ handshake_hello ∷ v ∷ rest))
        ≡ store (address_string addr) (
          refused_layer sc v l,
          record sc {
            last_err = some (SessionError.version_mismatch v);
            state = SessionState.failed;
          },
        )
unfolding handle_handshake_message handle_parsed reject_handshake logical_host_or_transport
refused v rest sc l e f m =
    step-from sc.transport_addr (handshake_hello ∷ v ∷ rest) sc l f
    ∙ rw (m, handle_handshake_message, parse-version v rest e) refl

-- The loss of a connection whose session has failed.
failed-quiet :
    (addr : Address) (sc : SessionConn) (l : SessionLayer)
    → lookup (address_string addr) l.sessions ≡ some sc
    → sc.state ≡ SessionState.failed
    → step l (Input.event (Event.disconnected addr))
      ≡ store
          (address_string addr)
          (l, record sc { handshake_timer = false; state = SessionState.failed })
unfolding handle_disconnected is_open
failed-quiet addr sc l e s = step-disconnected addr sc l e ∙ rw s refl

-- A Hello of another version at a session in any state but idle, an established one included: a
-- Reject is sent, a version mismatch is reported as inbound and the connection is closed; the loss
-- of the connection that follows is not reported, and both mappings of hosts and addresses stay as
-- they were.
pub refused-quiet :
    (v : ℕ) (rest : Bytes) (sc : SessionConn) (l : SessionLayer)
    → (v == protocol_version) ≡ false
    → lookup (address_string sc.transport_addr) l.sessions ≡ some sc
    → mark_server sc ≡ sc
    → let addr : Address = sc.transport_addr in
      let l' : SessionLayer =
        run
          (from addr (session ∷ handshake_hello ∷ v ∷ rest)
            ∷ Input.event (Event.disconnected addr)
            ∷ [])
          l in
      (l'.effects
        ≡ Effect.disconnects addr
          ∷ Effect.emits
              (SessionEvent.session_version_mismatch (logical_host_or_transport sc) v true)
          ∷ Effect.sends (record { peer = addr; msg = session ∷ encode_reject }) addr
          ∷ l.effects)
      × (l'.transport_to_logical ≡ l.transport_to_logical)
      × (l'.logical_to_transport ≡ l.logical_to_transport)
unfolding run frame_for
refused-quiet v rest sc l e f m =
    let addr : Address = sc.transport_addr in
    let key : Bytes = address_string addr in
    let sc' : SessionConn = record sc {
      last_err = some (SessionError.version_mismatch v);
      state = SessionState.failed;
    } in
    let live : Live = (refused_layer sc v l, sc') in
    let eq : run
          (from addr (session ∷ handshake_hello ∷ v ∷ rest)
            ∷ Input.event (Event.disconnected addr)
            ∷ [])
          l
        ≡ store key (store key live, record sc' { handshake_timer = false }) =
      ap (λ x. step x (Input.event (Event.disconnected addr))) (refused v rest sc l e f m)
      ∙ failed-quiet addr sc' (store key live) (lookup-insert_self key sc' l.sessions) refl in
    rw eq (refl, refl, refl)

-- The answer to a dial that is refused.
abbrev rejected_by : ℕ → SessionLayer → SessionConn → Live
rejected_by v l sc = (
  perform (Effect.disconnects sc.transport_addr)
      (emit_event (SessionEvent.session_version_mismatch sc.logical_host v false) l),
  record sc {
    handshake_timer = false;
    state = SessionState.failed;
    last_err = some (SessionError.rejected sc.logical_host v);
  },
)

step-reject :
    (v : ℕ) (sc : SessionConn) (l : SessionLayer)
    → lookup (address_string sc.transport_addr) l.sessions ≡ some sc
    → sc.state ≡ SessionState.handshaking_client
    → step l (from sc.transport_addr (session ∷ handshake_reject ∷ v ∷ []))
      ≡ store (address_string sc.transport_addr) (rejected_by v l sc)
unfolding parse_handshake_payload parse_reject handle_handshake_message handle_parsed
    handle_client_handshake mark_server
step-reject v sc l e s = step-from sc.transport_addr (handshake_reject ∷ v ∷ []) sc l e ∙ rw s refl

-- The timer of a handshake that is over.
failed-times_out :
    (addr : Address) (sc : SessionConn) (l : SessionLayer)
    → lookup (address_string addr) l.sessions ≡ some sc
    → sc.state ≡ SessionState.failed
    → step l (Input.times_out addr) ≡ l
unfolding step dispatch_handshake_timeout expire_found expire_client
failed-times_out addr sc l e s =
    rw (step, dispatch_handshake_timeout, e, expire_found, expire_client, s) refl

-- A Reject of any version at a session that waits for an Ack reports that version as an outbound
-- mismatch of the dialled host and closes the connection; the timeout of the handshake and the
-- loss of the connection that follow do nothing and report nothing.
pub rejected-quiet :
    (v : ℕ) (sc : SessionConn) (l : SessionLayer)
    → lookup (address_string sc.transport_addr) l.sessions ≡ some sc
    → sc.state ≡ SessionState.handshaking_client
    → let addr : Address = sc.transport_addr in
      (run
        (from addr (session ∷ handshake_reject ∷ v ∷ [])
          ∷ Input.times_out addr
          ∷ Input.event (Event.disconnected addr)
          ∷ [])
        l).effects
      ≡ Effect.disconnects addr
        ∷ Effect.emits (SessionEvent.session_version_mismatch sc.logical_host v false)
        ∷ l.effects
unfolding run
rejected-quiet v sc l e s =
    let addr : Address = sc.transport_addr in
    let key : Bytes = address_string addr in
    let live : Live = rejected_by v l sc in
    let l₁ : SessionLayer = store key live in
    let found = lookup-insert_self key live.1 l.sessions in
    ap (λ x. (step (step x (Input.times_out addr)) (Input.event (Event.disconnected addr))).effects)
      (step-reject v sc l e s)
    ∙ (ap (λ x. (step x (Input.event (Event.disconnected addr))).effects)
          (failed-times_out addr live.1 l₁ found refl)
        ∙ ap (λ (x : SessionLayer). x.effects) (failed-quiet addr live.1 l₁ found refl))

abbrev closed : SessionConn → SessionConn
closed sc = record sc { state = SessionState.closing }

step-connected-closing :
    (sc : SessionConn) (l : SessionLayer)
    → lookup (address_string sc.transport_addr) l.sessions ≡ some (closed sc)
    → step l (Input.event (Event.connected sc.transport_addr))
      ≡ store (address_string sc.transport_addr) (l, closed sc)
unfolding step transport_event_handler dispatch_connected session_for mark_server handle_connected
step-connected-closing sc l e =
    with_session-eq sc.transport_addr zero_host (λ l₁ c. handle_connected l₁ (mark_server c)) l _ e

handle-closing :
    (body : Bytes) (p : HandshakePayload) (sc : SessionConn) (l : SessionLayer)
    → parse_handshake_payload body ≡ (p, none)
    → handle_handshake_message body l (mark_server (closed sc)) ≡ (l, closed sc)
unfolding handle_handshake_message handle_parsed mark_server
handle-closing body p sc l e = rw (handle_handshake_message, e) refl

-- At an address whose session has closed, a new connection and any handshake message that can be
-- read, such as a Hello of the right version, have no effect: no Ack is sent and no session is
-- reported.
pub closing-ignores :
    (body : Bytes) (p : HandshakePayload) (sc : SessionConn) (l : SessionLayer)
    → lookup (address_string sc.transport_addr) l.sessions
      ≡ some (record sc { state = SessionState.closing })
    → parse_handshake_payload body ≡ (p, none)
    → let addr : Address = sc.transport_addr in
      (run (Input.event (Event.connected addr) ∷ from addr (session ∷ body) ∷ []) l).effects
      ≡ l.effects
unfolding run
closing-ignores body p sc l e q =
    let addr : Address = sc.transport_addr in
    let key : Bytes = address_string addr in
    let l₁ : SessionLayer = store key (l, closed sc) in
    let found = lookup-insert_self key (closed sc) l.sessions in
    ap (λ x. (step x (from addr (session ∷ body))).effects) (step-connected-closing sc l e)
    ∙ (ap (λ (x : SessionLayer). x.effects) (step-from addr body (closed sc) l₁ found)
        ∙ ap (λ (x : Live). x.0.effects) (handle-closing body p sc l₁ q))
