-- ===== src/Lib.antt =====
-- Verification of protorun, a Go framework for distributed protocols: the consensus protocols that it
-- ships, Raft and single-decree Paxos, the broadcast protocol Plumtree, the membership protocol HyParView,
-- and what they stand on.
--
-- How the program's parts interact. The runtime (pkg/protorun) gives each protocol one event loop:
-- messages from peers, requests over IPC, timers and session events reach the protocol's handlers one
-- at a time. A handler changes the protocol's fields, sends messages, writes to its Storage, publishes
-- notifications and answers requests. So a protocol is modelled as a record of its fields, a handler
-- as a function on that record, and what it does to the outside is added to the field `trace`, the
-- newest effect first. `step` takes one event; histories are sequences of steps (`Reach` for Raft,
-- where an event may find no next state, and `run` for the others).
--
-- Which file models what:
-- * Prelude and its children: the operators, list and map lemmas, errors as values. A Go map is an
--   association list; reading a missing key gives the zero value, as in Go.
-- * Wire (pkg/wire/wire.go): the integers and byte strings of the wire. A writer is the bytes that it
--   writes, a reader takes bytes and returns a value with the bytes left, or an error.
-- * Wire.Kinds (pkg/protorun/wirecodec.go): the reflective codec, from a description of the type in place
--   of the type that the code reads by reflection; Kinds.Varint and
--   Kinds.Laws have the proofs.
-- * Transport.Host (pkg/transport/host.go): a host, WriteHost and ReadHost; and hostLess, the order
--   that both protocols sort their members by.
-- * Raft.Log and Raft.Rules (pkg/protocols/raft/log.go): the log with indices from 1, logIsUpToDate
--   and advanceCommitIndex.
-- * Raft.Storage and Raft.Storage.Memory (pkg/protocols/raft/storage.go): the Storage interface as a
--   record of operations and of the laws in its documentation, and MemoryStorage.
--   The model of the server takes any Storage; a file-backed one is not in the repository.
-- * Raft.Messages (pkg/protocols/raft/messages.go): the four messages and their codecs.
-- * Raft.Config and Paxos.Config (config.go of both): the defaults of the timing fields.
-- * Raft.Server (pkg/protocols/raft/protocol.go, api.go): the fields and helpers; its children
--   Replication, Election and Handlers have the rest of the methods, Step the events. setLeader,
--   stepDown, startElection, onAppendEntries and the others keep their names in snake case; a helper
--   such as `may_grant` or `follow` is a stretch of the method that the map names. Frame, Splice, Kept,
--   Steps, Runs, History, Voting, Following and CatchUp have the proofs.
-- * Paxos.Rules (pkg/protocols/paxos/state.go), Paxos.Storage (storage.go), Paxos.Messages
--   (messages.go), Paxos.Node (protocol.go, api.go) with Proposer and Step: the same for Paxos. Kept,
--   Steps, Events, Acceptor, Learner and History have the proofs.
-- * Transport.HostSet (pkg/protocols/hyparview/views.go, plumtree/views.go): the sets of hosts of both
--   protocols, and Host.String, by which they sort. A Go set is the list of its members, each once.
-- * Plumtree.Messages (pkg/protocols/plumtree/messages.go), Plumtree.Cache (cache.go), Plumtree.Config
--   (config.go), Plumtree.Node (protocol.go): the ids, messages and codecs, the payload cache, the defaults,
--   and the fields and handlers of an instance. Node.Step has the events. Node.Frames says what the loops
--   leave alone; Tree, Deliveries, Once, Missing, Retries, Push and Departed have the proofs.
-- * Hyparview.Messages (pkg/protocols/hyparview/messages.go), Hyparview.Config (config.go),
--   Hyparview.Random (views.go), Hyparview.Node (protocol.go) with Handlers and Step: the same for
--   HyParView. `Outside` is the interface to math/rand/v2 and to Connect of the runtime, and `IsRandom`
--   what the documentation of math/rand/v2 promises. Views, Admission, Kept,
--   Walks, Runs and Routes have the proofs.
-- * Membership (pkg/protocols/membership/membership.go): a plumtree instance that follows the
--   notifications of a hyparview instance on the same node.
-- * Runtime.Mailbox (pkg/protorun/mailbox.go): the queue of a protocol's events with its overflow
--   policies; Order and Fair have its proofs, Wakeup the interleaving of push and next. A producer
--   appends under the lock and signals afterwards, so that these are two steps.
-- * Runtime.Supervision (pkg/protorun/supervision.go, supervisor.go): the policy of a supervised protocol,
--   ExpBackoff, recordPanic and the decisions of the supervisor; Window and Backoff have the proofs.
-- * Runtime.Router (pkg/protorun/ipc_router.go): the routing tables; Laws and Owners have the proofs.
-- * Runtime.Sessions (pkg/protorun/retry.go, and the session events of runtime.go): the retry table and
--   what a session event tells the protocols; Retries has the proofs.
-- * Runtime.Process (pkg/protorun/protocol.go, timer.go, and the requests of ipc.go and runtime.go): one
--   hosted protocol with its mailbox, timers and requests; Process.Steps has the event loop and the
--   clean-up of supervisor.go. Balance, Requests and Timers have the proofs.
-- * Transport.Address (pkg/transport/address.go, layer.go): addresses, frames and events of a transport.
-- * Transport.Session (pkg/transport/session.go): the state of the session layer; Session.Codec its
--   payloads, Session.Machine the methods of a session, Session.Layer those of the layer and its loop.
--   Steps, Handshake, Lifecycle, Routes and Mismatch have the proofs.
-- * Transport.Tcp (pkg/transport/tcp.go): the frames on a stream; Tcp.Layer the connections. Tcp.Framing
--   and Layer.Reading have the proofs.
-- * Runtime.Durations (raft/config.go, paxos/config.go): time.Duration, durOr and the random window.
-- * The Tests modules and Paxos.RuleTests: runs at concrete inputs.
--
-- Bounds and fuel. Terms, ballots and indices are natural numbers; where the code adds to a uint64 the
-- model takes the result modulo 2 ^ 64 (the term in startElection, nextBallot), or the sum is an index
-- that the length of the log bounds. A theorem that needs room in the counter says so. The two loops
-- that Go runs by a condition are bounded by a number computed beforehand, which is exactly their
-- number of rounds: advanceCommitIndex by the distance from the commit index to the end of the log,
-- applyCommitted by the distance from lastApplied to the commit index. `at` returns an Option, none
-- where Go would panic, and the handlers pass it on. The digits of a port take as many rounds as the port
-- plus one, which is more than its digits. The uint64 counter of plumtree and the uint16 counts of the
-- codecs are written with their modulus; the TTL of a walk is only lowered when it is positive.
--
-- decodeFrames takes four bytes a round at least, so it is given as many rounds as the buffer has bytes;
-- one round more never changes the result. Request numbers are taken modulo 2 ^ 64.
--
-- A length prefix is written and read in ten bytes at most, as 64 bits need.
--
-- The restart loop of the supervisor takes its rounds from a list of what the rebuilds will meet.
--
-- What is not modelled: goroutines, channels and sockets; the seeds of the random numbers (a draw is
-- an argument); logging, metrics and tracing; copies of byte slices, since values are not shared here;
-- the failure of plumtree's first GetView, which is only logged; the phases of
-- strict mode, the registration of codecs and the rest of the runtime; the QUIC backend, maps,
-- types that refer to themselves and nil messages of the reflective codec, the test harness, the commands
-- and the visualiser. What the network does is an input of the
-- transport models: what a dial, a write or a read gives, and which frames and events arrive.
pub mod Prelude
pub mod Wire
pub mod Transport
pub mod Raft
pub mod Paxos
pub mod Runtime
pub mod Plumtree
pub mod Hyparview
pub mod Membership
