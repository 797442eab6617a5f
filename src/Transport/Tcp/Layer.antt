-- ===== src/Transport/Tcp/Layer.antt =====
-- The connections of `TCPLayer` of pkg/transport/tcp.go. A connection is a number. The handler's loop and
-- the goroutine of each connection take turns, one input at a time: what a dial, an accepted
-- connection, a write or a read gives comes with the input. The trace of effects has the newest first.
pub mod Reading
use protorun.Prelude.{
  ℕ, Bool, true, false, List, [], ◌∷◌, Option, none, some, if◌then◌else◌, Result, ok, err, Map,
  nat_eq, lookup, insert, delete, Error, ◌++◌,
}
use protorun.Wire.{Bytes}
use protorun.Transport.Host.{Host, host_eq}
use protorun.Transport.Address.{Address, host_from_address, Message, Event}
use protorun.Transport.Tcp.{encode_frame, Decoded, decode_frames}

pub data Effect : Type 0 where
  writes : (conn : ℕ) → Bytes → Effect
  closes : (conn : ℕ) → Effect
  emits : Event → Effect
  delivers : Message → Effect

-- `handlers` are the goroutines of connections, with the host and the buffer of each.
pub record TcpLayer : Type 0 where
  pub active_connections : Map Host ℕ
  pub handlers : Map ℕ (Host × Bytes)
  pub effects : List Effect

abbrev pub perform : Effect → TcpLayer → TcpLayer
perform e l = record l { effects = e ∷ l.effects }

-- `connect` and the acceptance of an inbound connection, once there is a connection.
unfoldable pub add_active_conn : ℕ → Host → TcpLayer → TcpLayer
add_active_conn conn h l = perform (Effect.emits (Event.connected (Address.at h))) (record l {
  active_connections = insert h conn l.active_connections;
  handlers = insert conn (h, []) l.handlers;
})

unfoldable pub close_active : Host → Option ℕ → TcpLayer → TcpLayer
close_active h none l = l
close_active h (some conn) l =
    perform (Effect.emits (Event.disconnected (Address.at h))) (
      perform (Effect.closes conn)
        (record l { active_connections = delete h l.active_connections }))

unfoldable pub disconnect : Host → TcpLayer → TcpLayer
unfolding close_active
disconnect h l = close_active h (lookup h l.active_connections) l

unfoldable pub connect : Host → Option ℕ → TcpLayer → TcpLayer
unfolding add_active_conn
connect h none l = perform (Effect.emits (Event.failed (Address.at h))) l
connect h (some conn) l = add_active_conn conn h l

unfoldable pub fail : Host → TcpLayer → TcpLayer
unfolding disconnect
fail h l = disconnect h (perform (Effect.emits (Event.failed (Address.at h))) l)

unfoldable pub write_frame : Host → ℕ → (written : Bool) → Result Bytes → TcpLayer → TcpLayer
unfolding fail
write_frame h conn written (err e) l = fail h l
write_frame h conn written (ok frame) l =
    let l₁ : TcpLayer = perform (Effect.writes conn frame) l in if written then l₁ else fail h l₁

unfoldable pub send_on : Host → Option ℕ → (written : Bool) → Bytes → TcpLayer → TcpLayer
unfolding write_frame
send_on h none written msg l = l
send_on h (some conn) written msg l = write_frame h conn written (encode_frame msg) l

unfoldable pub send : Message → Host → (written : Bool) → TcpLayer → TcpLayer
unfolding send_on
send m h written l = send_on h (lookup h l.active_connections) written m.msg l

-- What a read of the connection gives: nothing in time, or no byte; an error; or bytes.
pub data Read : Type 0 where
  timed_out : Read
  broken : Read
  chunk : Bytes → Read

abbrev pub deliver_all : Host → List Bytes → List Effect → List Effect
deliver_all h [] effects = effects
deliver_all h (frame ∷ frames) effects =
    deliver_all h frames (Effect.delivers (record { peer = Address.at h; msg = frame }) ∷ effects)

-- The goroutine of a connection ends.
unfoldable pub end_handler : ℕ → Host → TcpLayer → TcpLayer
unfolding disconnect
end_handler conn h l = disconnect h (record l { handlers = delete conn l.handlers })

unfoldable pub hand_over : ℕ → Host → Decoded → TcpLayer → TcpLayer
unfolding end_handler
hand_over conn h (Decoded.decoded frames rest) l = record l {
  handlers = insert conn (h, rest) l.handlers;
  effects = deliver_all h frames l.effects;
}
hand_over conn h (Decoded.too_large n) l =
    end_handler conn h (perform (Effect.emits (Event.failed (Address.at h))) l)

unfoldable pub read_frames : ℕ → Host → Bytes → Read → TcpLayer → TcpLayer
unfolding end_handler hand_over
read_frames conn h buf Read.timed_out l = l
read_frames conn h buf Read.broken l = end_handler conn h l
read_frames conn h buf (Read.chunk bytes) l = hand_over conn h (decode_frames (buf ++ bytes)) l

unfoldable pub connection_handler : ℕ → Option (Host × Bytes) → Read → TcpLayer → TcpLayer
unfolding read_frames
connection_handler conn none r l = l
connection_handler conn (some (h, buf)) r l = read_frames conn h buf r l

-- A call of `Connect`, `Disconnect` or `Send` with what the network answers, an accepted connection with
-- its remote host if its address is a TCP one, and a read of a connection.
pub data Input : Type 0 where
  connects : Address → (dialled : Option ℕ) → Input
  disconnects : Address → Input
  sends : Message → Address → (written : Bool) → Input
  accepts : (conn : ℕ) → (remote : Option Host) → Input
  reads : (conn : ℕ) → Read → Input

-- `hostFromAddress` in the three calls: `Failed` for an address of another kind, but not to hang up.
unfoldable pub with_host : Address → (Host → TcpLayer → TcpLayer) → TcpLayer → TcpLayer
with_host (Address.at h) f l = f h l
with_host (Address.other s) f l = perform (Effect.emits (Event.failed (Address.other s))) l

unfoldable pub hang_up : Address → TcpLayer → TcpLayer
unfolding disconnect
hang_up (Address.at h) l = disconnect h l
hang_up (Address.other s) l = l

unfoldable pub listener_handler : ℕ → Option Host → TcpLayer → TcpLayer
unfolding add_active_conn
listener_handler conn none l = perform (Effect.closes conn) l
listener_handler conn (some h) l = add_active_conn conn h l

unfoldable pub step : TcpLayer → Input → TcpLayer
unfolding with_host connect hang_up send listener_handler connection_handler
step l (Input.connects addr dialled) = with_host addr (λ h. connect h dialled) l
step l (Input.disconnects addr) = hang_up addr l
step l (Input.sends m addr written) = with_host addr (λ h. send m h written) l
step l (Input.accepts conn remote) = listener_handler conn remote l
step l (Input.reads conn r) = connection_handler conn (lookup conn l.handlers) r l

unfoldable pub run : List Input → TcpLayer → TcpLayer
run [] l = l
run (i ∷ inputs) l = run inputs (step l i)
