-- ===== src/Transport/Session/Lifecycle/Moves.antt =====
-- The lifecycle of a session under each method of pkg/transport/session.go.
use protorun.Wire.{Bytes}
use protorun.Transport.Session.Codec.{
  encode_hello, Parsed, HandshakePayload, handshake_ack, handshake_hello, handshake_reject,
  parse_handshake_payload,
}
use protorun.Transport.Session.Machine.{
  Live, may_connect, handle_client_connect_requested, is_open, cleanup_server_mapping,
  handle_server_handshake, handle_failed, reject_handshake, send_hello, handle_client_handshake,
  handle_connected, handle_parsed, handle_disconnected, set_server_mapping, logical_for,
  drop_mapping, handle_handshake_message,
}
use protorun.Transport.Host.{Host}
use protorun.Transport.Address.{Address}
use protorun.Prelude.{
  ℕ, ◌≡◌, refl, ap, true, false, List, [], ◌∷◌, ◌++◌, Option, none, some, ◌==◌, if_elim, Result,
  err, ok,
}
use protorun.Transport.Session.Layer.{session_for, mark_server}
use protorun.Transport.Session.{
  SessionError, bytes_eq, SessionState, SessionConn, SessionEvent, Effect, SessionLayer, Address,
  Host, Bytes, emit_event,
}
use protorun.Transport.Session.Lifecycle.{track, events_of, is_established, up_of}

-- What every method of a session does: new effects whose events the lifecycle allows.
abbrev pub Tracks : SessionLayer → SessionConn → Live → Type 0
Tracks l sc live =
    (new : List Effect) × (live.0.effects ≡ new ++ l.effects)
    × (live.0.sessions ≡ l.sessions)
    × (track (events_of new) (is_established sc.state) ≡ some (is_established live.1.state))

pub may_connect-is_established :
    (s : SessionState) → may_connect s ≡ true → is_established s ≡ false
unfolding may_connect
may_connect-is_established SessionState.idle h = refl
may_connect-is_established SessionState.failed h = refl
may_connect-is_established SessionState.closing h = refl
may_connect-is_established SessionState.established h = cc
may_connect-is_established SessionState.handshaking_client h = cc
may_connect-is_established SessionState.handshaking_server h = cc

pub is_open-is_established : (s : SessionState) → is_open s ≡ false → is_established s ≡ false
unfolding is_open
is_open-is_established SessionState.established h = cc
is_open-is_established _ h = refl

pub handle_client_connect_requested-Tracks :
    (l : SessionLayer) (sc : SessionConn) → Tracks l sc (handle_client_connect_requested l sc)
unfolding handle_client_connect_requested events_of track
handle_client_connect_requested-Tracks l sc =
    if_elim (Tracks l sc) (may_connect sc.state) _ _
      (λ e. (
        Effect.connects sc.transport_addr ∷ [],
        refl,
        refl,
        ap some (may_connect-is_established sc.state e),
      ))
      (λ _. ([], refl, refl, refl))

pub send_hello-Tracks :
    (r : Result Bytes) (l : SessionLayer) (sc : SessionConn)
    → is_established sc.state ≡ false
    → Tracks l sc (send_hello r l sc)
unfolding send_hello events_of track
send_hello-Tracks (err reason) l sc e =
    (Effect.emits (SessionEvent.session_failed sc.logical_host) ∷ [], refl, refl, refl)
send_hello-Tracks (ok hello) l sc e = (_ ∷ _ ∷ [], refl, refl, refl)

pub handle_connected-Tracks :
    (l : SessionLayer) (sc : SessionConn) (s : SessionState)
    → sc.state ≡ s
    → Tracks l sc (handle_connected l sc)
unfolding handle_connected events_of track
handle_connected-Tracks l sc SessionState.handshaking_client e = rw e (
    send_hello-Tracks (encode_hello l.self) l
      (record sc { state = SessionState.handshaking_client }) refl)
handle_connected-Tracks l sc s e = rw e ([], refl, refl, refl)

pub reject_handshake-Tracks :
    (v : ℕ) (l : SessionLayer) (sc : SessionConn) → Tracks l sc (reject_handshake v l sc)
unfolding reject_handshake events_of track
reject_handshake-Tracks v l sc = (_ ∷ _ ∷ _ ∷ [], refl, refl, refl)

pub handle_server_handshake-Tracks :
    (p : HandshakePayload) (l : SessionLayer) (sc : SessionConn)
    → sc.state ≡ SessionState.handshaking_server
    → Tracks l sc (handle_server_handshake p l sc)
unfolding handle_server_handshake set_server_mapping events_of track
handle_server_handshake-Tracks p l sc e =
    if_elim (Tracks l sc) (p.typ == handshake_hello) _ _ (λ _. (_ ∷ _ ∷ [], refl, refl, rw e refl))
      (λ _. ([], refl, refl, refl))

pub handle_client_handshake-Tracks :
    (p : HandshakePayload) (l : SessionLayer) (sc : SessionConn)
    → sc.state ≡ SessionState.handshaking_client
    → Tracks l sc (handle_client_handshake p l sc)
unfolding handle_client_handshake set_server_mapping events_of track
handle_client_handshake-Tracks p l sc e =
    if_elim (Tracks l sc) (p.typ == handshake_ack) _ _ (λ _. (_ ∷ [], refl, refl, rw e refl))
      (λ _.
        if_elim (Tracks l sc) (p.typ == handshake_reject) _ _ (λ _. (_ ∷ _ ∷ [], refl, refl, refl))
          (λ _. ([], refl, refl, refl)))

pub drop_mapping-effects :
    (addr : Address) (o : Option Host) (l : SessionLayer)
    → ((drop_mapping addr o l).effects ≡ l.effects)
      × ((drop_mapping addr o l).sessions ≡ l.sessions)
unfolding drop_mapping
drop_mapping-effects addr none l = (refl, refl)
drop_mapping-effects addr (some logical) l = (refl, refl)

pub cleanup_server_mapping-effects :
    (addr : Address) (l : SessionLayer)
    → ((cleanup_server_mapping addr l).effects ≡ l.effects)
      × ((cleanup_server_mapping addr l).sessions ≡ l.sessions)
unfolding cleanup_server_mapping
cleanup_server_mapping-effects addr l = drop_mapping-effects addr _ l

pub emits-cleanup :
    (e : SessionEvent) (addr : Address) (l : SessionLayer)
    → (emit_event e (cleanup_server_mapping addr l)).effects ≡ (Effect.emits e ∷ []) ++ l.effects
emits-cleanup e addr l =
    ap (λ effects. Effect.emits e ∷ effects) (cleanup_server_mapping-effects addr l).0

pub handle_disconnected-Tracks :
    (l : SessionLayer) (sc : SessionConn) → Tracks l sc (handle_disconnected l sc)
unfolding handle_disconnected events_of track
handle_disconnected-Tracks l sc =
    if_elim (Tracks l sc) (is_open sc.state) _ _
      (λ _. (
        Effect.emits _ ∷ [],
        emits-cleanup (SessionEvent.session_disconnected (logical_for sc.transport_addr l))
            sc.transport_addr l,
        (cleanup_server_mapping-effects sc.transport_addr l).1,
        refl,
      ))
      (λ e. ([], refl, refl, ap some (is_open-is_established sc.state e)))

pub handle_failed-Tracks : (l : SessionLayer) (sc : SessionConn) → Tracks l sc (handle_failed l sc)
unfolding handle_failed events_of track
handle_failed-Tracks l sc = (
  Effect.emits _ ∷ [],
  emits-cleanup (SessionEvent.session_failed (logical_for sc.transport_addr l)) sc.transport_addr l,
  (cleanup_server_mapping-effects sc.transport_addr l).1,
  refl,
)

pub handle_parsed-Tracks :
    (q : Parsed) (l : SessionLayer) (sc : SessionConn) (s : SessionState)
    → sc.state ≡ s
    → Tracks l sc (handle_parsed q l sc)
unfolding handle_parsed events_of track
handle_parsed-Tracks (p, some (SessionError.version_mismatch v)) l sc s e =
    reject_handshake-Tracks p.version l
      (record sc { last_err = some (SessionError.version_mismatch v) })
handle_parsed-Tracks (p, some _) l sc s e = ([], refl, refl, refl)
handle_parsed-Tracks (p, none) l sc SessionState.handshaking_server e = rw e (
    handle_server_handshake-Tracks p l (record sc { state = SessionState.handshaking_server }) refl)
handle_parsed-Tracks (p, none) l sc SessionState.handshaking_client e = rw e (
    handle_client_handshake-Tracks p l (record sc { state = SessionState.handshaking_client }) refl)
handle_parsed-Tracks (p, none) l sc s e = rw e ([], refl, refl, refl)

pub handle_handshake_message-Tracks :
    (body : Bytes) (l : SessionLayer) (sc : SessionConn)
    → Tracks l sc (handle_handshake_message body l sc)
unfolding handle_handshake_message
handle_handshake_message-Tracks body l sc =
    handle_parsed-Tracks (parse_handshake_payload body) l sc sc.state refl

pub mark_server-state :
    (sc : SessionConn) (s : SessionState)
    → sc.state ≡ s
    → is_established (mark_server sc).state ≡ is_established sc.state
unfolding mark_server
mark_server-state sc SessionState.idle e = rw e refl
mark_server-state sc s e = rw e refl

pub session_for-state :
    (addr : Address) (h : Host) (o : Option SessionConn)
    → is_established (session_for addr h o).state ≡ up_of o
unfolding session_for
session_for-state addr h none = refl
session_for-state addr h (some sc) =
    if_elim (λ (x : SessionConn). is_established x.state ≡ is_established sc.state) (h.port == 0) _
      _ (λ _. refl) (λ _. refl)
