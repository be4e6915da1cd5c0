-- ===== src/Lib.antt =====
-- Punchgate is a peer-to-peer node that exposes local services over libp2p and tunnels to those
-- of other nodes, through a relay at first and directly once a hole punch works. Its core is a
-- pure state machine (src/state): an event of the network goes in, a new state and commands for
-- the runtime come out. Around it, the event loop (src/node) keeps what the swarm reports about
-- connections.
--
-- The parts, and where they stand:
-- - State/Event, State/Command: the alphabets, src/state/event.rs and src/state/command.rs.
-- - State/Peer: `PeerState` of src/state/peer.rs. It joins the DHT, learns addresses, asks for a
--   relay and decides the phase. `Machine.transition` is the `transition` of the source, each arm
--   that is longer than a line a function of Handlers.
-- - State/Tunnel: `TunnelState` of src/state/tunnel.rs. Routing finds a peer for each tunnel that
--   is wanted, HolePunch retries a hole punch over the relay, Addresses keeps the sightings that
--   the retries dial, and Machine has the transition.
-- - State/App: `AppState` of src/state/app.rs. The peer machine moves first; where its phase
--   changes, the tunnel machine gets `phase_changed` ahead of the event.
-- - Node/Connections: `ConnectionStateMachine` of src/node/connection_state.rs, which counts
--   connections and hands out the attempt ids that the tunnel machine gets in its events.
-- - Node/Backoff: src/node/backoff.rs.
-- - Node/Translate: src/node/translate.rs, which turns what libp2p reports (Swarm) into events for
--   the machines and closes the open queries (Kad).
-- - Node/Loop: how an event moves the machines in src/node/mod.rs, with the hole punches armed
--   behind it; Direct is the registry of direct peers beside the connections.
-- - Node/Reconnects, Node/Addresses: the reconnects to bootstrap peers and the external addresses
--   that the same loop keeps.
-- - Node/Turn, Node/Run, Node/Start: the loop as a whole. Turn has its variables and what one event
--   does, Run the arms of the `select!` and a run over any order of them, each with the time at
--   which it fires, and Start the node as its configuration describes it.
-- - Node/Execute: src/node/execute.rs, which carries the commands out on the swarm and opens the
--   queries that Translate closes.
-- - PortMapping: src/port_mapping.rs.
-- - Identity: src/identity.rs.
-- - Cli: of src/main.rs, the environment that the background service gets (Environment), the
--   actions of the service manager (Service), its files' texts (Templates, Xml). An action is its calls
--   in their order; the first that fails ends it.
-- - Wire: src/tunnel.rs. Frames has the messages on a stream of bytes, Sessions the two ends of a
--   tunnel's handshake, Registries the tables of tunnels and of direct peers.
-- - Specs: the parsers and printers of src/specs.rs and src/types.rs, over the functions of `str`
--   that they call (Text, Port).
-- - ExternalAddr: src/external_addr.rs, which both machines ask whether an address is public.
-- - NatProbe: how src/nat_probe.rs classifies the answers of the STUN servers; the tunnel machine
--   keeps the class.
-- - Types: the names and keys of src/types.rs, `ServiceAddr` of src/specs.rs, and `NatMapping` of
--   src/nat_probe.rs.
-- - Net: the libraries: IP addresses, and libp2p as a record of its types and of what the source
--   calls on them. Every theorem holds for every such record whose equality tests decide equality.
-- - Collections, Common: hash maps, hash sets, sorting, and shared lemmas.
-- - Tests: the theorems at concrete inputs.
--
-- How the code is modelled: `&mut self` is a state passed on; the clock is an argument that a
-- handler gets; a time counts nanoseconds, and a difference of times stops at 0 as
-- `saturating_duration_since` does. Counters keep the saturation of their width (32 or 64 bits).
-- A hash map is an association list with one entry for a key, whose order is the iteration order:
-- as the theorems hold for every list, they hold for every order. Strings are compared and
-- searched as the source does, and key bytes stand as the text they encode. Every other loop is a
-- recursion on a list.
--
-- A sending side of a stream is the bytes that arrive and how many more the connection takes
-- before it fails; the codecs of serde_json, the texts of IP addresses and peer ids, and whether a
-- local service can be reached are parameters, with laws where a theorem needs them. Digits are
-- printed with fuel 5, which a number of 16 bits does not use up.
--
-- The calls of the swarm (Node/Execute) and the answers of the gateway (PortMapping) are parameters
-- too; the race of the two gateway probes is an argument that says which of them end in time, and
-- in which order.
--
-- The file system of Identity, and the paths, files and commands of Cli, are parameters as well; a
-- number of 64 bits is printed with fuel 20. Node carries two fields
-- that the source has not, the events translated and the commands carried out, for what is said of a
-- run; nothing reads them.
--
-- Not modelled: logging, with the NAT ports and error flags of src/node/mod.rs that only feed it;
-- sockets, timers and tasks of src/tunnel.rs and src/nat_probe.rs, which are input and output, with
-- the copying of bytes between sockets; the set-up of the swarm and of its behaviours; signals; of
-- src/main.rs, the parser of the arguments and what only finds out the system and the user's id.
mod Common
mod Collections
mod Tests
pub mod Net
pub mod Types
pub mod State
pub mod Node
pub mod ExternalAddr
pub mod NatProbe
pub mod Specs
pub mod Wire
pub mod PortMapping
pub mod Identity
pub mod Cli
