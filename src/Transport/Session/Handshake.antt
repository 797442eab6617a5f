-- ===== src/Transport/Session/Handshake.antt =====
-- The handshake of pkg/transport/session.go between two layers: the dialler's Hello, the Ack, and the
-- logical hosts under which both then send and deliver.
use protorun.Prelude.{
  ◌≡◌, refl, ap, ◌∙◌, true, false, [], ◌∷◌, none, some, lookup, insert, lookup-insert_self, ◌∙◌,
}
use protorun.Wire.{Bytes}
use protorun.Transport.Host.{Host, zero_host, host_eq}
use protorun.Transport.Host.Laws.{IsEncodable}
use protorun.Transport.Address.{Address, address_string, Event}
use protorun.Transport.Session.{
  bytes_eq, SessionState, SessionConn, SessionEvent, Effect, SessionLayer, perform, emit_event,
}
use protorun.Transport.Session.Codec.{session, encode_ack, parse_handshake_payload, frame_for}
use protorun.Transport.Session.Machine.{
  logical_for, Live, handle_handshake_message, set_server_mapping, handle_parsed,
  handle_client_handshake, handle_server_handshake,
}
use protorun.Transport.Session.Layer.{resolve_underlying_host, Input, step, run, store, mark_server}
use protorun.Transport.Session.Steps.{
  from, conn, step-connects-none, step-connected-client, step-connected-none, step-from,
  hello_bytes, parse-hello_bytes,
}

-- Both directions between the logical host and the address of its connection.
abbrev pub IsRouted : Address → Host → SessionLayer → Type 0
IsRouted addr h l = (logical_for addr l ≡ h) × (resolve_underlying_host h l ≡ addr)

abbrev pub dial : Host → SessionLayer → SessionLayer
dial h l = run (Input.connects h ∷ Input.event (Event.connected (Address.at h)) ∷ []) l

abbrev pub accept : Address → Bytes → SessionLayer → SessionLayer
accept addr hello l = run (Input.event (Event.connected addr) ∷ from addr hello ∷ []) l

mapped-IsRouted :
    (addr : Address) (h : Host) (l l' : SessionLayer)
    → l'.transport_to_logical ≡ insert (address_string addr) h l.transport_to_logical
    → l'.logical_to_transport ≡ insert h addr l.logical_to_transport
    → IsRouted addr h l'
unfolding logical_for resolve_underlying_host
mapped-IsRouted addr h l l' p q = (
  rw (logical_for, p, lookup-insert_self (address_string addr) h l.transport_to_logical) refl,
  rw (resolve_underlying_host, q, lookup-insert_self h addr l.logical_to_transport) refl,
)

-- What answers a Hello that is read.
abbrev pub greeted : Host → SessionLayer → SessionConn → Live
greeted h l sc = (
  emit_event (SessionEvent.session_connected h) (
      set_server_mapping sc.transport_addr h (
        perform (Effect.sends (frame_for session encode_ack sc.transport_addr) sc.transport_addr)
          l)),
  record sc { logical_host = h; state = SessionState.established },
)

pub hello-greeted :
    (h : Host) (l : SessionLayer) (addr : Address)
    → IsEncodable h
    → let sc : SessionConn = conn addr zero_host SessionState.handshaking_server false in
      handle_handshake_message (hello_bytes h) l (mark_server sc) ≡ greeted h l sc
unfolding handle_handshake_message handle_parsed handle_server_handshake mark_server
hello-greeted h l addr v = rw (handle_handshake_message, parse-hello_bytes h v) refl

accept-eq :
    (addr : Address) (h : Host) (l : SessionLayer)
    → lookup (address_string addr) l.sessions ≡ none
    → IsEncodable h
    → let sc : SessionConn = conn addr zero_host SessionState.handshaking_server false in
      accept addr (session ∷ hello_bytes h) l
      ≡ store (address_string addr) (greeted h (store (address_string addr) (l, sc)) sc)
unfolding run
accept-eq addr h l e v =
    let sc : SessionConn = conn addr zero_host SessionState.handshaking_server false in
    let l₁ : SessionLayer = store (address_string addr) (l, sc) in
    let key : Bytes = address_string addr in
    ap (λ x. step x (from addr (session ∷ hello_bytes h))) (step-connected-none addr l e)
    ∙ (step-from addr (hello_bytes h) sc l₁ (lookup-insert_self key sc l.sessions)
        ∙ ap (store key) (hello-greeted h l₁ addr v))

abbrev pub acked : SessionLayer → SessionConn → Live
acked l sc = (
  emit_event (SessionEvent.session_connected sc.logical_host)
      (set_server_mapping sc.transport_addr sc.logical_host l),
  record sc { handshake_timer = false; state = SessionState.established },
)

step-ack :
    (addr : Address) (h : Host) (l : SessionLayer)
    → let sc : SessionConn = conn addr h SessionState.handshaking_client true in
      lookup (address_string addr) l.sessions ≡ some sc
      → step l (from addr (session ∷ encode_ack)) ≡ store (address_string addr) (acked l sc)
unfolding encode_ack parse_handshake_payload handle_handshake_message handle_parsed
    handle_client_handshake mark_server
step-ack addr h l e =
    step-from addr encode_ack (conn addr h SessionState.handshaking_client true) l e

dial-eq :
    (h : Host) (l : SessionLayer)
    → lookup (address_string (Address.at h)) l.sessions ≡ none
    → IsEncodable l.self
    → let addr : Address = Address.at h in
      let key : Bytes = address_string addr in
      let waiting : SessionConn = conn addr h SessionState.handshaking_client false in
      let l₁ : SessionLayer = store key (perform (Effect.connects addr) l, waiting) in
      dial h l
      ≡ store key (
        perform
            (Effect.arms addr l.handshake_timeout)
            (perform (Effect.sends (frame_for session (hello_bytes l.self) addr) addr) l₁),
        record waiting { handshake_timer = true },
      )
unfolding run
dial-eq h l e v =
    let addr : Address = Address.at h in
    let sc : SessionConn = conn addr h SessionState.handshaking_client false in
    let l₁ : SessionLayer = store (address_string addr) (perform (Effect.connects addr) l, sc) in
    ap (λ x. step x (Input.event (Event.connected addr))) (step-connects-none h l e)
    ∙ step-connected-client addr h l₁ (lookup-insert_self (address_string addr) sc l.sessions) v

-- A layer that can write its own host dials a host with which it has no session, and a layer that
-- has no session with the dialler's address gets the bytes of the Hello that is sent: it answers
-- with the bytes of an Ack and reports a connection with the dialler's logical host, and the
-- dialler, given these bytes, reports one with the host that it dialled. Afterwards each side
-- finds the logical host of the connection by its address, and the address by the host.
pub handshake-connects :
    (a b : SessionLayer) (h : Host) (addr : Address)
    → IsEncodable a.self
    → lookup (address_string (Address.at h)) a.sessions ≡ none
    → lookup (address_string addr) b.sessions ≡ none
    → let peer : Address = Address.at h in
      (hello ack : Bytes) × ((dial h a).effects
        ≡ Effect.arms peer a.handshake_timeout
          ∷ Effect.sends (record { peer = peer; msg = hello }) peer
          ∷ Effect.connects peer
          ∷ a.effects)
      × ((accept addr hello b).effects
          ≡ Effect.emits (SessionEvent.session_connected a.self)
            ∷ Effect.sends (record { peer = addr; msg = ack }) addr
            ∷ b.effects)
      × IsRouted addr a.self (accept addr hello b)
      × ((step (dial h a) (from peer ack)).effects
          ≡ Effect.emits (SessionEvent.session_connected h) ∷ (dial h a).effects)
      × IsRouted peer h (step (dial h a) (from peer ack))
unfolding frame_for set_server_mapping
handshake-connects a b h addr v m n =
    let peer : Address = Address.at h in
    let dialled = dial-eq h a m v in
    let accepted = accept-eq addr a.self b n v in
    let up = step-ack peer h (dial h a) (rw dialled (lookup-insert_self _ _ _)) in
    (
      session ∷ hello_bytes a.self,
      session ∷ encode_ack,
      rw dialled refl,
      rw accepted refl,
      rw accepted (mapped-IsRouted addr a.self b _ refl refl),
      rw up refl,
      rw up (mapped-IsRouted peer h (dial h a) _ refl refl),
    )
