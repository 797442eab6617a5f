-- ===== src/Transport/Session.antt =====
-- pkg/transport/session.go: the session layer between the runtime and a transport. Its channels, into
-- and out of which it is driven, are the inputs of Session/Layer.antt and the trace of effects here,
-- newest first; the context is not cancelled, and log lines are left out.
pub mod Codec
pub mod Machine
pub mod Layer
pub mod Steps
pub mod Handshake
pub mod Lifecycle
pub mod Routes
pub mod Mismatch
use protorun.Prelude.{
  ℕ, Bool, List, [], ◌∷◌, Option, none, some, ltb, if◌then◌else◌, Error, Map, Eq, bytes_beq,
  bytes_beq_iff,
}
use protorun.Wire.{Bytes}
use protorun.Transport.Host.{Host}
use protorun.Transport.Address.{Address, Message}

instance abbrev pub bytes_eq : Eq Bytes
bytes_eq = record { beq = bytes_beq; beq_iff = bytes_beq_iff }

pub data SessionState : Type 0 where
  idle handshaking_client handshaking_server established failed closing : SessionState

-- The errors that a session keeps as its last.
pub data SessionError : Type 0 where
  empty_payload : SessionError
  reading : Error → SessionError
  encoding : Error → SessionError
  version_mismatch : ℕ → SessionError
  unknown_type : ℕ → SessionError
  rejected : Host → ℕ → SessionError
  timed_out : Host → SessionError

-- `handshake_timer` if the timer is set.
pub record SessionConn : Type 0 where
  pub logical_host : Host
  pub transport_addr : Address
  pub state : SessionState
  pub last_err : Option SessionError
  pub handshake_timer : Bool

pub record SessionMessage : Type 0 where
  pub host : Host
  pub layer : ℕ
  pub body : Bytes

pub data SessionEvent : Type 0 where
  session_connected : Host → SessionEvent
  session_disconnected : Host → SessionEvent
  session_failed : Host → SessionEvent
  session_version_mismatch : Host → (peer_version : ℕ) → (inbound : Bool) → SessionEvent

-- The calls of the transport, the timer's, and what is put into the two outgoing channels.
pub data Effect : Type 0 where
  connects : Address → Effect
  disconnects : Address → Effect
  sends : Message → Address → Effect
  arms : Address → (timeout : ℕ) → Effect
  emits : SessionEvent → Effect
  delivers : SessionMessage → Effect

pub record SessionLayer : Type 0 where
  pub self : Host
  pub handshake_timeout : ℕ
  pub sessions : Map Bytes SessionConn
  pub transport_to_logical : Map Bytes Host
  pub logical_to_transport : Map Host Address
  pub effects : List Effect

-- Nanoseconds.
abbrev pub default_handshake_timeout : ℕ
default_handshake_timeout = 5000000000

-- `NewSessionLayer` with the options `WithHandshakeTimeout` of these durations, in their order.
unfoldable pub with_handshake_timeouts : List ℕ → ℕ → ℕ
with_handshake_timeouts [] timeout = timeout
with_handshake_timeouts (d ∷ opts) timeout =
    with_handshake_timeouts opts (if ltb 0 d then d else timeout)

unfoldable pub new_session_layer : Host → List ℕ → SessionLayer
unfolding with_handshake_timeouts
new_session_layer self opts = record {
  self = self;
  handshake_timeout = with_handshake_timeouts opts default_handshake_timeout;
  sessions = [];
  transport_to_logical = [];
  logical_to_transport = [];
  effects = [];
}

abbrev pub perform : Effect → SessionLayer → SessionLayer
perform e l = record l { effects = e ∷ l.effects }

abbrev pub emit_event : SessionEvent → SessionLayer → SessionLayer
emit_event e l = perform (Effect.emits e) l
