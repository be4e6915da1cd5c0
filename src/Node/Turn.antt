-- ===== src/Node/Turn.antt =====
-- One turn of the loop in src/node/mod.rs: an arm of its `select!` with all that it changes, the
-- machines, the tables around them, and the swarm that carries the commands out.
pub mod Keeps
pub mod Balance
use punchgate.Common.{
  ℕ, ◌==◌, Bool, true, false, ◌&&◌, Option, none, some, String, List, [], ◌∷◌, ◌++◌, Eq,
  if◌then◌else◌, Result,
}
use punchgate.Net.{Libp2p, IpAddr}
use punchgate.Types.{ServiceName}
use punchgate.Collections.HashMap.{HashMap}
use punchgate.Collections.HashSet.{HashSet}
use punchgate.State.Event as StateEvent
use punchgate.State.Event.{Event, phase_eq}
use punchgate.State.Command.{Command}
use punchgate.State.App.Machine.{phase}
use punchgate.Specs.Addr.{IpText}
use punchgate.Specs.Named.{ExposedService}
use punchgate.Wire.Registries.{DirectPeerRegistry}
use punchgate.Node.Connections.Defs.{
  ConnectionId, ConnectionEstablishedUpdate, ConnectionClosedUpdate,
}
use punchgate.Node.Connections.Registry.{has_relayed_connection}
use punchgate.Node.Connections.Dials.{on_dialing, on_outgoing_connection_error}
use punchgate.Node.Translate.{translate_swarm_event}
use punchgate.Node.Translate.Swarm as Swarms
use punchgate.Node.Translate.Swarm.{ConnectedPoint, SwarmEvent}
use punchgate.Node.Execute.{Swarm, ExecutionContext, execute_commands}
use punchgate.Node.Addresses.{
  AddressCalls, on_external_addr_confirmed, on_external_addr_expired, on_observed_addr,
}
use punchgate.Node.Reconnects.{
  Reconnects, on_established_peer, on_fully_disconnected, on_dial_error, on_reconnects_due,
}
use punchgate.Node.Loop.{
  Machines, admit, feed, then_do, arm_hole_punch_for_tunnel_targets, on_hole_punch_timeout,
  on_established, on_closed,
}
use punchgate.Node.Loop.Direct.{note_established, note_closed}

-- The calls of the loop itself on the swarm.
pub record LoopCalls {net : Libp2p} {QueryId Handle : Type 0} (swarm : Swarm net QueryId Handle)
    : Type 0 where
  pub is_connected : swarm.State → net.PeerId → Bool
  pub close_connection : ConnectionId → swarm.State → swarm.State
  pub dial_addr : net.Multiaddr → swarm.State → Bool × swarm.State
  pub add_external_address : net.Multiaddr → swarm.State → swarm.State
  pub remove_external_address : net.Multiaddr → swarm.State → swarm.State
  pub new_external_addr_candidate : net.Multiaddr → swarm.State → swarm.State

abbrev pub addresses :
    {net : Libp2p} {QueryId Handle : Type 0} (swarm : Swarm net QueryId Handle)
    → LoopCalls swarm
    → AddressCalls net
addresses swarm loop = record {
  State = swarm.State;
  add_external_address = loop.add_external_address;
  remove_external_address = loop.remove_external_address;
  new_external_addr_candidate = loop.new_external_addr_candidate;
}

-- What the swarm reports, as far as the loop tells it apart ahead of the translation.
pub data Report (net : Libp2p) (QueryId : Type 0) : Type 0 where
  established : net.PeerId → ConnectionId → ConnectedPoint net → Report net QueryId
  -- The connections to the peer that are left, as libp2p counts them.
  closed : net.PeerId → ConnectionId → ℕ → Report net QueryId
  dialing : Option net.PeerId → ConnectionId → Report net QueryId
  dial_error : Option net.PeerId → ConnectionId → String → Report net QueryId
  confirmed expired : net.Multiaddr → Report net QueryId
  other : SwarmEvent net QueryId → Report net QueryId

-- The same report, as the translation sees it.
abbrev pub to_swarm_event :
    {net : Libp2p} {QueryId : Type 0} → Report net QueryId → SwarmEvent net QueryId
to_swarm_event (established peer id endpoint) = Swarms.connection_established peer endpoint
to_swarm_event (closed peer id num_established) = Swarms.ignored_swarm_event
to_swarm_event (dialing peer id) = Swarms.ignored_swarm_event
to_swarm_event (dial_error peer id error) = Swarms.outgoing_connection_error peer error
to_swarm_event (confirmed address) = Swarms.swarm_external_addr_confirmed address
to_swarm_event (expired address) = Swarms.swarm_external_addr_expired address
to_swarm_event (other event) = event

-- The arms of the `select!`. A swarm event comes with the address of a port mapping whose task
-- has ended by then.
pub data Arm (net : Libp2p) (QueryId : Type 0) : Type 0 where
  swarm_event : Report net QueryId → Option net.Multiaddr → Arm net QueryId
  discovery_deadline reconnects_due hole_punch_timeouts_due shutdown_signal : Arm net QueryId

-- The variables of the loop. The last two are none of the source's: the events that were
-- translated and the commands that were carried out, for what is said of a run.
pub record Node (net : Libp2p) (QueryId Handle State : Type 0) : Type 0 where
  pub machines : Machines net
  pub direct_peers : DirectPeerRegistry net
  pub reconnects : Reconnects net
  pub confirmed_external_by_ip : HashMap IpAddr net.Multiaddr
  pub bootstrap_observed_external_by_ip : HashMap IpAddr net.Multiaddr
  pub discovery_timeout_fired : Bool
  pub ctx : ExecutionContext net QueryId Handle
  pub sw : State
  pub translated : List (Event net)
  pub carried_out : List (Command net)

module _ (net : Libp2p) ⦃pe : Eq net.PeerId⦄ ⦃ae : Eq net.Multiaddr⦄ {QueryId Handle : Type 0}
    ⦃qe : Eq QueryId⦄ (swarm : Swarm net QueryId Handle) (loop : LoopCalls swarm) (ip : IpText)
    (name_to_vec : ServiceName → Result String (List ℕ)) (exposed : List ExposedService)
    (bootstrap_peers : HashSet net.PeerId) where
  open net use {PeerId, Multiaddr}

  abbrev pub LoopState : Type 0
  LoopState = Node net QueryId Handle swarm.State

  -- The commands, carried out; the panic of the registry is `none`.
  unfoldable pub executed :
      List (Command net)
      → LoopState
      → Option (swarm.State × ExecutionContext net QueryId Handle)
      → Option LoopState
  executed cmds s none = none
  executed cmds s (some (sw, ctx)) =
      some (record s { sw = sw; ctx = ctx; carried_out = s.carried_out ++ cmds })

  -- A move of the machines, with its commands.
  unfoldable pub moved : ℕ → LoopState → Machines net × List (Command net) → Option LoopState
  unfolding executed execute_commands
  moved now s (machines, cmds) =
      executed cmds (record s { machines = machines })
        (execute_commands net swarm ip name_to_vec now exposed cmds s.sw s.ctx)

  -- What an identified peer has observed of this node.
  unfoldable pub note_observed : Event net → LoopState → LoopState
  unfolding on_observed_addr has_relayed_connection
  note_observed (StateEvent.peer_identified peer listen_addrs observed_addr) s =
      let (by_ip, sw) =
        on_observed_addr net (addresses swarm loop) bootstrap_peers peer
          (has_relayed_connection net peer s.machines.connections) observed_addr
          (s.bootstrap_observed_external_by_ip, s.sw) in
      record s { bootstrap_observed_external_by_ip = by_ip; sw = sw }
  note_observed _ s = s

  -- One event of a turn, with the hole punches that are armed behind it.
  unfoldable pub handle_event : ℕ → Event net → LoopState → Option LoopState
  unfolding note_observed moved feed arm_hole_punch_for_tunnel_targets
  handle_event now event s =
      moved now (note_observed event s)
        (then_do net (feed net now event s.machines) (arm_hole_punch_for_tunnel_targets net now))

  unfoldable pub is_shutting_down : LoopState → Bool
  unfolding phase phase_eq
  is_shutting_down s = phase s.machines.app == StateEvent.shutting_down

  -- Behind an event: the rest of the turn, unless the node shuts down.
  unfoldable pub go_on : (LoopState → Option LoopState) → Option LoopState → Option LoopState
  unfolding is_shutting_down
  go_on later none = none
  go_on later (some s) = if is_shutting_down s then some s else later s

  -- The event as it is admitted, and the rest.
  unfoldable pub handle_admitted :
      ℕ → Option (Event net) → (LoopState → Option LoopState) → LoopState → Option LoopState
  unfolding handle_event go_on
  handle_admitted now none later s = later s
  handle_admitted now (some event) later s = go_on later (handle_event now event s)

  unfoldable pub handle_events : ℕ → List (Event net) → LoopState → Option LoopState
  unfolding handle_admitted admit
  handle_events now [] s = some s
  handle_events now (event ∷ events) s =
      handle_admitted now (admit net s.machines.connections event) (handle_events now events) s
