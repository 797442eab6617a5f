-- ===== src/Transport/Session/Lifecycle/Runs.antt =====
-- The lifecycle of every session under each input, and in runs, of pkg/transport/session.go.
use protorun.Wire.{Bytes}
use protorun.Transport.Session.Codec.{split_frame, application, session}
use protorun.Transport.Session.Machine.{
  Live, handle_client_connect_requested, cleanup_server_mapping, handle_failed, handle_connected,
  handle_disconnected, handle_handshake_message,
}
use protorun.Transport.Host.{Host, zero_host}
use protorun.Transport.Address.{Message, Address, address_string}
use protorun.Prelude.{
  ℕ, ◌-◌, ◌≡◌, refl, ap, Bool, true, false, List, [], ◌∷◌, ◌++◌, length, take, take-append_length,
  length-append, Option, none, some, ◌==◌, if◌then◌else◌, if_elim, lookup, lookup-insert, arith,
  bytes_beq_iff, sym, ◌∙◌, or_default,
}
use protorun.Transport.Address.{Event}
use protorun.Transport.Host.{zero_host}
use protorun.Transport.Session.Layer.{
  disconnect, send, Input, step, run, store, session_for, mark_server, with_session, expire_client,
  expire, transport_message_handler, dispatch_handshake_timeout, transport_event_handler,
  dispatch_connected, dispatch_handshake_message, dispatch_disconnected, dispatch_failed,
  connect_client, resolve_underlying_host, expire_found,
}
use protorun.Transport.Session.{
  perform, bytes_eq, SessionState, SessionConn, SessionEvent, Effect, SessionLayer, Address, Host,
  Bytes, perform,
}
use protorun.Transport.Session.Lifecycle.{
  track, events_of, is_established, is_up, same_address, concerns, news, events_at,
}
use protorun.Transport.Session.Lifecycle.Moves.{
  Tracks, handle_client_connect_requested-Tracks, handle_connected-Tracks,
  cleanup_server_mapping-effects, handle_disconnected-Tracks, handle_failed-Tracks,
  handle_handshake_message-Tracks, mark_server-state, session_for-state,
}

-- What every input does to every session.
abbrev Follows : Address → (concerned : Bool) → SessionLayer → SessionLayer → Type 0
Follows addr concerned l l' =
    (new : List Effect) × (l'.effects ≡ new ++ l.effects)
    × (track (if concerned then events_of new else []) (is_up addr l) ≡ some (is_up addr l'))

store-Follows :
    (addr a : Address) (l : SessionLayer) (sc : SessionConn) (live : Live)
    → is_established sc.state ≡ is_up a l
    → Tracks l sc live
    → Follows addr (same_address a addr) l (store (address_string a) live)
unfolding track
store-Follows addr a l sc live e (new, p, q, r) = (
  new,
  p,
  ground (
    arith,
    lookup-insert (address_string a) (address_string addr) live.1 live.0.sessions,
    bytes_beq_iff (address_string a) (address_string addr),
  ),
)

quiet-Follows :
    (addr : Address) (concerned : Bool) (l l' : SessionLayer) (new : List Effect)
    → l'.effects ≡ new ++ l.effects
    → l'.sessions ≡ l.sessions
    → events_of new ≡ []
    → Follows addr concerned l l'
unfolding track
quiet-Follows addr true l l' new p q r = (new, p, rw (r, q) refl)
quiet-Follows addr false l l' new p q r = (new, p, rw q refl)

with_session-Follows :
    (addr a : Address) (h : Host) (fn : SessionLayer → SessionConn → Live) (l : SessionLayer)
    → ((sc : SessionConn) → Tracks l sc (fn l sc))
    → Follows addr (same_address a addr) l (with_session a h fn l)
unfolding with_session
with_session-Follows addr a h fn l t =
    let sc : SessionConn = session_for a h (lookup (address_string a) l.sessions) in
    store-Follows addr a l sc (fn l sc) (session_for-state a h _) (t sc)

marked-Tracks :
    (fn : SessionLayer → SessionConn → Live) (l : SessionLayer) (sc : SessionConn)
    → Tracks l (mark_server sc) (fn l (mark_server sc))
    → Tracks l sc (fn l (mark_server sc))
marked-Tracks fn l sc (new, p, q, r) = (new, p, q, rw (sym (mark_server-state sc sc.state refl)) r)

expire-Tracks : (l : SessionLayer) (sc : SessionConn) → Tracks l sc (expire l sc)
unfolding expire events_of track
expire-Tracks l sc = (_ ∷ _ ∷ [], refl, refl, refl)

expire_client-Follows :
    (addr a : Address) (l : SessionLayer) (sc : SessionConn) (s : SessionState)
    → lookup (address_string a) l.sessions ≡ some sc
    → sc.state ≡ s
    → Follows addr (same_address a addr) l (expire_client a sc l)
unfolding expire_client events_of
expire_client-Follows addr a l sc SessionState.handshaking_client h e =
    let sc' : SessionConn = record sc { state = SessionState.handshaking_client } in
    rw e (store-Follows addr a l sc' (expire l sc') (rw (h, e) refl) (expire-Tracks l sc'))
expire_client-Follows addr a l sc s h e = rw e (quiet-Follows addr _ l l [] refl refl refl)

expire_found-Follows :
    (addr a : Address) (l : SessionLayer) (o : Option SessionConn)
    → lookup (address_string a) l.sessions ≡ o
    → Follows addr (same_address a addr) l (expire_found a o l)
unfolding expire_found events_of
expire_found-Follows addr a l none e = quiet-Follows addr _ l l [] refl refl refl
expire_found-Follows addr a l (some sc) e = expire_client-Follows addr a l sc sc.state e refl

transport_message_handler-Follows :
    (addr : Address) (m : Message) (l : SessionLayer)
    → Follows addr (same_address m.peer addr) l (transport_message_handler m l)
unfolding transport_message_handler dispatch_handshake_message events_of
transport_message_handler-Follows addr m l =
    let P : SessionLayer → Type 0 = Follows addr (same_address m.peer addr) l in
    let header : ℕ = (split_frame m).0 in
    let body : Bytes = (split_frame m).1 in
    if_elim P (header == application) _ _
      (λ _. quiet-Follows addr _ l (perform (Effect.delivers _) l) (_ ∷ []) refl refl refl)
      (λ _.
        if_elim P (header == session) _ _
          (λ _.
            with_session-Follows addr m.peer zero_host
              (λ l₁ sc. handle_handshake_message body l₁ (mark_server sc)) l
              (λ sc.
                marked-Tracks (handle_handshake_message body) l sc
                  (handle_handshake_message-Tracks body l (mark_server sc))))
          (λ _. quiet-Follows addr _ l l [] refl refl refl))

-- The loop of the session layer, one input.
step-Follows :
    (addr : Address) (l : SessionLayer) (i : Input) → Follows addr (concerns addr i) l (step l i)
unfolding step concerns transport_event_handler dispatch_connected dispatch_disconnected
    dispatch_failed connect_client disconnect send events_of dispatch_handshake_timeout
step-Follows addr l (Input.frame m) = transport_message_handler-Follows addr m l
step-Follows addr l (Input.event (Event.connected a)) =
    with_session-Follows addr a zero_host (λ l₁ sc. handle_connected l₁ (mark_server sc)) l
      (λ sc.
        marked-Tracks handle_connected l sc
          (handle_connected-Tracks l (mark_server sc) (mark_server sc).state refl))
step-Follows addr l (Input.event (Event.disconnected a)) =
    with_session-Follows addr a zero_host handle_disconnected l (handle_disconnected-Tracks l)
step-Follows addr l (Input.event (Event.failed a)) =
    with_session-Follows addr a zero_host handle_failed l (handle_failed-Tracks l)
step-Follows addr l (Input.connects h) =
    with_session-Follows addr (Address.at h) h handle_client_connect_requested l
      (handle_client_connect_requested-Tracks l)
step-Follows addr l (Input.disconnects h) =
    let a : Address = resolve_underlying_host h l in
    let l₁ : SessionLayer = perform (Effect.disconnects a) l in
    quiet-Follows addr false l (cleanup_server_mapping a l₁) (_ ∷ [])
      (cleanup_server_mapping-effects a l₁).0 (cleanup_server_mapping-effects a l₁).1 refl
step-Follows addr l (Input.sends msg h) =
    quiet-Follows addr false l (perform (Effect.sends _ _) l) (_ ∷ []) refl refl refl
step-Follows addr l (Input.times_out a) = expire_found-Follows addr a l _ refl

track-append :
    (xs ys : List SessionEvent) (b c : Bool) → track xs b ≡ some c → track (xs ++ ys) b ≡ track ys c
unfolding track
track-append [] ys b c e = ap (λ (o : Option Bool). track ys (or_default false o)) e
track-append (SessionEvent.session_connected h ∷ xs) ys true c e = cc
track-append (SessionEvent.session_connected h ∷ xs) ys false c e = track-append xs ys true c e
track-append (SessionEvent.session_disconnected h ∷ xs) ys b c e = track-append xs ys false c e
track-append (SessionEvent.session_failed h ∷ xs) ys b c e = track-append xs ys false c e
track-append (SessionEvent.session_version_mismatch h v i ∷ xs) ys b c e =
    track-append xs ys false c e

take-news : (new old : List Effect) → take (length (new ++ old) - length old) (new ++ old) ≡ new
take-news new old =
    let e : length (new ++ old) - length old ≡ length new = omega (arith, length-append new old) in
    rw e (take-append_length new old)

-- In any run of a layer, the events of each session are a lifecycle: from the state in which the
-- session is at first, `session_connected` comes only while the session is down and every other
-- event ends it, and the session is established at the end exactly if its last event was
-- `session_connected`, or there was none and it was established before.
pub run-track :
    (addr : Address) (inputs : List Input) (l : SessionLayer)
    → track (events_at addr inputs l) (is_up addr l) ≡ some (is_up addr (run inputs l))
unfolding run events_at track
run-track addr [] l = refl
run-track addr (i ∷ inputs) l =
    let (new, p, t) = step-Follows addr l i in
    let e : news l (step l i) ≡ new = rw p (take-news new l.effects) in
    track-append (if concerns addr i then events_of (news l (step l i)) else [])
      (events_at addr inputs (step l i)) (is_up addr l) _ (rw e t)
    ∙ run-track addr inputs (step l i)
