-- ===== src/Transport/Tests.antt =====
-- The theorems on sessions and on TCP connections at concrete inputs.
use protorun.Prelude.{◌≡◌, refl, true, false, List, [], ◌∷◌, none, some, lookup, bytes_beq, arith}
use protorun.Wire.{Bytes}
use protorun.Transport.Host.{Host, host_beq, zero_host, host_eq}
use protorun.Transport.Host.Laws.{IsEncodable}
use protorun.Transport.HostSet.{host_string, decimal, decimal_rounds}
use protorun.Transport.Address.{Address, address_string, host_from_address, Event}
use protorun.Transport.Session.{SessionState, SessionConn, SessionEvent, Effect, SessionLayer}
use protorun.Transport.Session.Codec.{
  session, handshake_hello, handshake_reject, handshake_ack, encode_reject, parse_handshake_payload,
  payload,
}
use protorun.Transport.Session.Machine.{or_zero, logical_host_or_transport}
use protorun.Transport.Session.Layer.{Input, step, run, mark_server}
use protorun.Transport.Session.Steps.{from, hello_bytes, conn}
use protorun.Transport.Session.Handshake.{IsRouted, dial, accept, handshake-connects}
use protorun.Transport.Session.Lifecycle.{track, events_at, is_up}
use protorun.Transport.Session.Lifecycle.Runs.{run-track}
use protorun.Transport.Session.Mismatch.{refused-quiet, rejected-quiet, closing-ignores}
use protorun.Transport.Session.Routes.{disconnect-label}
use protorun.Transport.Tcp
use protorun.Transport.Tcp.Layer
use protorun.Transport.Tcp.Layer.Reading.{all_read, reads-encode_frames, redial-closed}

abbrev host_a : Host
host_a = record { port = 7001; ip = 97 ∷ [] }

abbrev host_b : Host
host_b = record { port = 7002; ip = 98 ∷ [] }

host_a-IsEncodable : IsEncodable host_a
host_a-IsEncodable = record { ip_fits = omega arith; port_fits = omega arith }

-- The address from which `host_a` dials.
abbrev dialler : Address
dialler = Address.at (record { port = 50000; ip = 97 ∷ [] })

abbrev layer_of : Host → SessionLayer
layer_of h = record {
  self = h;
  handshake_timeout = 5;
  sessions = [];
  transport_to_logical = [];
  logical_to_transport = [];
  effects = [];
}

run-track_example :
    let inputs : List Input =
      Input.event (Event.connected dialler)
      ∷ from dialler (session ∷ hello_bytes host_a)
      ∷ Input.event (Event.disconnected dialler)
      ∷ [] in
    track (events_at dialler inputs (layer_of host_b)) (is_up dialler (layer_of host_b))
    ≡ some (is_up dialler (run inputs (layer_of host_b)))
run-track_example =
    run-track dialler
      (Input.event (Event.connected dialler)
        ∷ from dialler (session ∷ hello_bytes host_a)
        ∷ Input.event (Event.disconnected dialler)
        ∷ [])
      (layer_of host_b)

handshake-connects_example :
    let peer : Address = Address.at host_b in
    let a : SessionLayer = layer_of host_a in
    let b : SessionLayer = layer_of host_b in
    (hello ack : Bytes) × ((dial host_b a).effects
      ≡ Effect.arms peer 5
        ∷ Effect.sends (record { peer = peer; msg = hello }) peer
        ∷ Effect.connects peer
        ∷ [])
    × ((accept dialler hello b).effects
        ≡ Effect.emits (SessionEvent.session_connected host_a)
          ∷ Effect.sends (record { peer = dialler; msg = ack }) dialler
          ∷ [])
    × IsRouted dialler host_a (accept dialler hello b)
    × ((step (dial host_b a) (from peer ack)).effects
        ≡ Effect.emits (SessionEvent.session_connected host_b) ∷ (dial host_b a).effects)
    × IsRouted peer host_b (step (dial host_b a) (from peer ack))
unfolding lookup
handshake-connects_example =
    handshake-connects (layer_of host_a) (layer_of host_b) host_b dialler host_a-IsEncodable refl
      refl

-- The session of `host_b` with its dialler, in a state.
abbrev served : SessionState → SessionConn
served state = conn dialler host_a state false

abbrev serving : SessionState → SessionLayer
serving state = record (layer_of host_b) {
  sessions = (address_string dialler, served state) ∷ [];
  transport_to_logical = (address_string dialler, host_a) ∷ [];
  logical_to_transport = (host_a, dialler) ∷ [];
}

refused-quiet_example :
    let l : SessionLayer = serving SessionState.established in
    let l' : SessionLayer =
      run
        (from dialler (session ∷ handshake_hello ∷ 2 ∷ [])
          ∷ Input.event (Event.disconnected dialler)
          ∷ [])
        l in
    (l'.effects
      ≡ Effect.disconnects dialler
        ∷ Effect.emits (
            SessionEvent.session_version_mismatch
              (logical_host_or_transport (served SessionState.established))
              2
              true)
        ∷ Effect.sends (record { peer = dialler; msg = session ∷ encode_reject }) dialler
        ∷ [])
    × (l'.transport_to_logical ≡ l.transport_to_logical)
    × (l'.logical_to_transport ≡ l.logical_to_transport)
unfolding lookup bytes_beq address_string host_string decimal decimal_rounds mark_server
refused-quiet_example =
    refused-quiet 2 [] (served SessionState.established) (serving SessionState.established) refl
      refl refl

rejected-quiet_example :
    (run
      (from dialler (session ∷ handshake_reject ∷ 2 ∷ [])
        ∷ Input.times_out dialler
        ∷ Input.event (Event.disconnected dialler)
        ∷ [])
      (serving SessionState.handshaking_client)).effects
    ≡ Effect.disconnects dialler
      ∷ Effect.emits (SessionEvent.session_version_mismatch host_a 2 false)
      ∷ []
unfolding lookup bytes_beq address_string host_string decimal decimal_rounds
rejected-quiet_example =
    rejected-quiet 2 (served SessionState.handshaking_client)
      (serving SessionState.handshaking_client) refl refl

closing-ignores_example :
    (run
      (Input.event (Event.connected dialler) ∷ from dialler (session ∷ handshake_ack ∷ []) ∷ [])
      (serving SessionState.closing)).effects
    ≡ []
unfolding lookup bytes_beq address_string host_string decimal decimal_rounds parse_handshake_payload
closing-ignores_example =
    closing-ignores (handshake_ack ∷ []) (payload handshake_ack zero_host 0)
      (served SessionState.idle) (serving SessionState.closing) refl refl

disconnect-label_example :
    let end : Input = Input.event (Event.disconnected dialler) in
    let l : SessionLayer = serving SessionState.established in
    ((run (end ∷ []) l).effects ≡ Effect.emits (SessionEvent.session_disconnected host_a) ∷ [])
    × ((run (Input.disconnects host_a ∷ end ∷ []) l).effects
        ≡ Effect.emits (SessionEvent.session_disconnected (or_zero (host_from_address dialler)))
          ∷ Effect.disconnects dialler
          ∷ [])
unfolding lookup bytes_beq address_string host_string decimal decimal_rounds host_beq
disconnect-label_example =
    disconnect-label host_a dialler (served SessionState.established)
      (serving SessionState.established) refl refl refl refl refl

-- One connection to `host_b`, with an empty buffer.
abbrev one_conn : Layer.TcpLayer
one_conn = record {
  active_connections = (host_b, 1) ∷ [];
  handlers = (1, (host_b, [])) ∷ [];
  effects = [];
}

reads-encode_frames_example :
    (Layer.run
      (all_read 1 ((0 ∷ 0 ∷ 0 ∷ []) ∷ (2 ∷ 8 ∷ 9 ∷ 0 ∷ 0 ∷ []) ∷ (0 ∷ 0 ∷ []) ∷ []))
      one_conn).effects
    ≡ Layer.deliver_all host_b ((8 ∷ 9 ∷ []) ∷ [] ∷ []) []
unfolding lookup Tcp.encode_frame Tcp.put_uint32
reads-encode_frames_example =
    reads-encode_frames 1 host_b ((8 ∷ 9 ∷ []) ∷ [] ∷ [])
      ((0 ∷ 0 ∷ 0 ∷ []) ∷ (2 ∷ 8 ∷ 9 ∷ 0 ∷ 0 ∷ []) ∷ (0 ∷ 0 ∷ []) ∷ []) one_conn refl
      (omega arith, (omega arith, tt)) refl

redial-closed_example :
    let addr : Address = Address.at host_b in
    let l' : Layer.TcpLayer =
      Layer.run
        (Layer.Input.disconnects addr
          ∷ Layer.Input.connects addr (some 2)
          ∷ Layer.Input.reads 1 Layer.Read.broken
          ∷ [])
        one_conn in
    (l'.effects
      ≡ Layer.Effect.emits (Event.disconnected addr)
        ∷ Layer.Effect.closes 2
        ∷ Layer.Effect.emits (Event.connected addr)
        ∷ Layer.Effect.emits (Event.disconnected addr)
        ∷ Layer.Effect.closes 1
        ∷ [])
    × (lookup host_b l'.active_connections ≡ none)
unfolding lookup host_beq bytes_beq
redial-closed_example = redial-closed 1 2 host_b [] one_conn (λ e. absurd (omega arith)) refl refl
