-- ===== src/Transport/Session/Routes.antt =====
-- How pkg/transport/session.go resolves logical hosts and addresses when a connection ends.
use protorun.Prelude.{
  ◌≡◌, refl, ap, ◌∙◌, [], ◌∷◌, none, some, lookup, delete, lookup-delete, same_refl,
}
use protorun.Transport.Host.{Host, host_eq}
use protorun.Transport.Address.{Address, address_string, host_from_address, Event}
use protorun.Transport.Session.{
  bytes_eq, SessionState, SessionConn, SessionEvent, Effect, SessionLayer, perform,
}
use protorun.Transport.Session.Machine.{
  logical_for, or_zero, drop_mapping, cleanup_server_mapping, is_open, handle_disconnected,
}
use protorun.Transport.Session.Layer.{resolve_underlying_host, Input, step, run, disconnect}
use protorun.Transport.Session.Steps.{step-disconnected}

cleanup-some :
    (addr : Address) (h : Host) (l : SessionLayer)
    → lookup (address_string addr) l.transport_to_logical ≡ some h
    → cleanup_server_mapping addr l ≡ drop_mapping addr (some h) l
unfolding cleanup_server_mapping
cleanup-some addr h l e = rw (cleanup_server_mapping, e) refl

logical_for-some :
    (addr : Address) (h : Host) (l : SessionLayer)
    → lookup (address_string addr) l.transport_to_logical ≡ some h
    → logical_for addr l ≡ h
unfolding logical_for
logical_for-some addr h l e = rw (logical_for, e) refl

logical_for-none :
    (addr : Address) (l : SessionLayer)
    → lookup (address_string addr) l.transport_to_logical ≡ none
    → logical_for addr l ≡ or_zero (host_from_address addr)
unfolding logical_for
logical_for-none addr l e = rw (logical_for, e) refl

-- The loss of an established connection under its mapping.
lost :
    (addr : Address) (h : Host) (sc : SessionConn) (l : SessionLayer)
    → lookup (address_string addr) l.sessions ≡ some sc
    → sc.state ≡ SessionState.established
    → sc.transport_addr ≡ addr
    → lookup (address_string addr) l.transport_to_logical ≡ some h
    → let l' : SessionLayer = step l (Input.event (Event.disconnected addr)) in
      (l'.effects ≡ Effect.emits (SessionEvent.session_disconnected h) ∷ l.effects)
      × (l'.logical_to_transport ≡ delete h l.logical_to_transport)
unfolding handle_disconnected is_open drop_mapping
lost addr h sc l e s a m =
    rw
      (
        step-disconnected addr sc l e,
        handle_disconnected,
        s,
        a,
        logical_for-some addr h l m,
        cleanup-some addr h l m,
      )
      (refl, refl)

step-disconnects :
    (h : Host) (addr : Address) (l : SessionLayer)
    → lookup h l.logical_to_transport ≡ some addr
    → lookup (address_string addr) l.transport_to_logical ≡ some h
    → step l (Input.disconnects h)
      ≡ drop_mapping addr (some h) (perform (Effect.disconnects addr) l)
unfolding step disconnect resolve_underlying_host
step-disconnects h addr l e m =
    rw (step, disconnect, resolve_underlying_host, e)
      (cleanup-some addr h (perform (Effect.disconnects addr) l) m)

-- The loss of an established connection without a mapping.
lost-unmapped :
    (addr : Address) (sc : SessionConn) (l : SessionLayer)
    → lookup (address_string addr) l.sessions ≡ some sc
    → sc.state ≡ SessionState.established
    → sc.transport_addr ≡ addr
    → lookup (address_string addr) l.transport_to_logical ≡ none
    → (step l (Input.event (Event.disconnected addr))).effects
      ≡ Effect.emits (SessionEvent.session_disconnected (or_zero (host_from_address addr)))
        ∷ l.effects
unfolding handle_disconnected is_open drop_mapping cleanup_server_mapping
lost-unmapped addr sc l e s a m =
    rw
      (
        step-disconnected addr sc l e,
        handle_disconnected,
        s,
        a,
        logical_for-none addr l m,
        cleanup_server_mapping,
        m,
      )
      refl

-- An established session whose host and address are mapped to each other: if its connection is
-- lost, this is reported of its logical host; if the runtime hangs up on the logical host and the
-- connection ends because of that, it is reported of the address as a host instead, or of the zero
-- host if the address is none.
pub disconnect-label :
    (h : Host) (addr : Address) (sc : SessionConn) (l : SessionLayer)
    → lookup (address_string addr) l.sessions ≡ some sc
    → sc.state ≡ SessionState.established
    → sc.transport_addr ≡ addr
    → lookup h l.logical_to_transport ≡ some addr
    → lookup (address_string addr) l.transport_to_logical ≡ some h
    → let end : Input = Input.event (Event.disconnected addr) in
      ((run (end ∷ []) l).effects ≡ Effect.emits (SessionEvent.session_disconnected h) ∷ l.effects)
      × ((run (Input.disconnects h ∷ end ∷ []) l).effects
          ≡ Effect.emits (SessionEvent.session_disconnected (or_zero (host_from_address addr)))
            ∷ Effect.disconnects addr
            ∷ l.effects)
unfolding run drop_mapping
disconnect-label h addr sc l e s a m n =
    let l₁ : SessionLayer = drop_mapping addr (some h) (perform (Effect.disconnects addr) l) in
    let gone : lookup (address_string addr) l₁.transport_to_logical ≡ none =
      lookup-delete (address_string addr) (address_string addr) l.transport_to_logical
      ∙ rw (same_refl (address_string addr)) refl in
    (
      (lost addr h sc l e s a n).0,
      ap (λ x. (step x (Input.event (Event.disconnected addr))).effects)
            (step-disconnects h addr l m n)
          ∙ lost-unmapped addr sc l₁ e s a gone,
    )

-- If the connection at one address of a host is lost while the host is mapped to another, newer
-- address, messages to the host are sent to the host as an address from then on.
pub second-lost :
    (h : Host) (old new : Address) (sc : SessionConn) (l : SessionLayer)
    → lookup (address_string old) l.sessions ≡ some sc
    → sc.state ≡ SessionState.established
    → sc.transport_addr ≡ old
    → lookup (address_string old) l.transport_to_logical ≡ some h
    → lookup h l.logical_to_transport ≡ some new
    → (resolve_underlying_host h l ≡ new)
      × (resolve_underlying_host h (step l (Input.event (Event.disconnected old))) ≡ Address.at h)
unfolding resolve_underlying_host
second-lost h old new sc l e s a m n = (
  rw (resolve_underlying_host, n) refl,
  rw
      (
        resolve_underlying_host,
        (lost old h sc l e s a m).1,
        lookup-delete h h l.logical_to_transport,
        same_refl h,
      )
      refl,
)
