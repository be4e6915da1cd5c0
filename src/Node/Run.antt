-- ===== src/Node/Run.antt =====
-- The loop of src/node/mod.rs: what each arm of its `select!` does, and a run over any order in
-- which they fire.
pub mod Balance
pub mod Shutdown
use punchgate.Common.{
  ℕ, Bool, true, false, ◌&&◌, Option, none, some, String, List, [], ◌∷◌, ◌++◌, Eq, if◌then◌else◌,
  Result,
}
use punchgate.Net.{Libp2p}
use punchgate.Types.{ServiceName}
use punchgate.Collections.HashSet.{HashSet}
use punchgate.State.Event as StateEvent
use punchgate.State.Event.{Event}
use punchgate.Specs.Addr.{IpText}
use punchgate.Specs.Named.{ExposedService}
use punchgate.Node.Connections.Defs.{
  ConnectionId, ConnectionStateMachine, ConnectionEstablishedUpdate, ConnectionClosedUpdate,
}
use punchgate.Node.Connections.Dials.{on_dialing, on_outgoing_connection_error}
use punchgate.Node.Translate.{translate_swarm_event}
use punchgate.Node.Execute.{Swarm}
use punchgate.Node.Addresses.{on_external_addr_confirmed, on_external_addr_expired}
use punchgate.Node.Reconnects.{
  on_established_peer, on_fully_disconnected, on_dial_error, on_reconnects_due,
}
use punchgate.Node.Loop.{feed, on_hole_punch_timeout, on_established, on_closed}
use punchgate.Node.Loop.Direct.{note_established, note_closed}
use punchgate.Node.Turn.{
  LoopCalls, Report, to_swarm_event, Arm, LoopState, addresses, moved, handle_events,
  is_shutting_down,
}
use punchgate.Node.Turn as Turn

module _ (net : Libp2p) ⦃pe : Eq net.PeerId⦄ ⦃ae : Eq net.Multiaddr⦄ {QueryId Handle : Type 0}
    ⦃qe : Eq QueryId⦄ (swarm : Swarm net QueryId Handle) (loop : LoopCalls swarm) (ip : IpText)
    (name_to_vec : ServiceName → Result String (List ℕ)) (exposed : List ExposedService)
    (bootstrap_peers : HashSet net.PeerId) where
  open net use {PeerId, Multiaddr}

  -- The arguments are those of `Turn`.
  abbrev pub Loop : Type 0
  Loop = LoopState net swarm loop ip name_to_vec exposed bootstrap_peers

  unfoldable pub close_all : List ConnectionId → swarm.State → swarm.State
  close_all [] sw = sw
  close_all (id ∷ ids) sw = close_all ids (loop.close_connection id sw)

  -- `SwarmEvent::ConnectionEstablished`, with what the machine of the connections answered.
  unfoldable pub opened :
      PeerId
      → ConnectionStateMachine net × ConnectionEstablishedUpdate × List (Event net)
      → Loop
      → Loop × List (Event net)
  unfolding note_established close_all on_established_peer
  opened peer (connections, update, synthetic) s = (
    record s {
      machines = record s.machines { connections = connections };
      direct_peers = note_established net peer update s.direct_peers;
      sw = close_all update.relayed_connections_to_close s.sw;
      reconnects = on_established_peer net bootstrap_peers peer s.reconnects;
    },
    synthetic,
  )

  -- `SwarmEvent::ConnectionClosed`.
  unfoldable pub lost :
      ℕ
      → PeerId
      → ConnectionStateMachine net × ConnectionClosedUpdate × List (Event net)
      → Loop
      → Loop × List (Event net)
  unfolding note_closed on_fully_disconnected
  lost now peer (connections, update, synthetic) s = (
    record s {
      machines = record s.machines { connections = connections };
      direct_peers = note_closed net peer update s.direct_peers;
      reconnects =
          if update.peer_fully_disconnected
          then on_fully_disconnected net bootstrap_peers now peer s.reconnects
          else s.reconnects;
    },
    synthetic,
  )

  -- What the loop keeps of a report, and the events that it makes of it itself.
  unfoldable pub track_report : ℕ → Report net QueryId → Loop → Loop × List (Event net)
  unfolding on_established on_closed on_dialing on_outgoing_connection_error on_dial_error
      on_external_addr_confirmed on_external_addr_expired opened lost
  track_report now (Turn.established peer id endpoint) s =
      opened peer (on_established net now peer id endpoint s.machines) s
  track_report now (Turn.closed peer id num_established) s =
      lost now peer (on_closed net peer id num_established s.machines) s
  track_report now (Turn.dialing none id) s = (s, [])
  track_report now (Turn.dialing (some peer) id) s = (
    record s {
      machines = record s.machines {
        connections = (on_dialing net peer id s.machines.connections).0;
      };
    },
    [],
  )
  track_report now (Turn.dial_error peer_id id error) s = (
    record s {
      machines = record s.machines {
        connections = (on_outgoing_connection_error net peer_id id error s.machines.connections).0;
      };
      reconnects =
          on_dial_error net bootstrap_peers now (loop.is_connected s.sw) peer_id s.reconnects;
    },
    [],
  )
  track_report now (Turn.confirmed address) s =
      let (by_ip, sw) =
        on_external_addr_confirmed net (addresses swarm loop) address
          (s.confirmed_external_by_ip, s.sw) in
      (record s { confirmed_external_by_ip = by_ip; sw = sw }, [])
  track_report now (Turn.expired address) s = (
    record s {
      confirmed_external_by_ip =
          on_external_addr_expired net (addresses swarm loop) address s.confirmed_external_by_ip;
    },
    [],
  )
  track_report now (Turn.other event) s = (s, [])

  -- The port mapping that a task has acquired by then.
  unfoldable pub on_port_mapping : ℕ → Option Multiaddr → Loop → Option Loop
  unfolding moved feed
  on_port_mapping now none s = some s
  on_port_mapping now (some mapped_addr) s =
      moved net swarm loop ip name_to_vec exposed bootstrap_peers now
        (record s { sw = loop.add_external_address mapped_addr s.sw })
        (feed net now (StateEvent.nat_status_changed StateEvent.public) s.machines)

  -- The translation, and the events behind those that the loop made itself.
  unfoldable pub react : ℕ → Report net QueryId → List (Event net) → Option Loop → Option Loop
  unfolding translate_swarm_event handle_events
  react now report synthetic none = none
  react now report synthetic (some s) =
      let (events, queries) =
        translate_swarm_event net (to_swarm_event report) bootstrap_peers
          s.ctx.active_bootstrap_query (loop.is_connected s.sw) s.ctx.queries in
      handle_events net swarm loop ip name_to_vec exposed bootstrap_peers now (synthetic ++ events)
        (record s { ctx = record s.ctx { queries = queries }; translated = s.translated ++ events })

  unfoldable pub on_swarm_event : ℕ → Report net QueryId → Option Multiaddr → Loop → Option Loop
  unfolding track_report on_port_mapping react
  on_swarm_event now report mapped s =
      let (tracked, synthetic) = track_report now report s in
      react now report synthetic (on_port_mapping now mapped tracked)

  -- One arm. The deadline of the discovery is an arm once.
  unfoldable pub step : ℕ → Arm net QueryId → Loop → Option Loop
  unfolding on_swarm_event moved feed on_reconnects_due on_hole_punch_timeout
  step now (Turn.swarm_event report mapped) s = on_swarm_event now report mapped s
  step now Turn.discovery_deadline s =
      if s.discovery_timeout_fired
      then some s
      else moved net swarm loop ip name_to_vec exposed bootstrap_peers now
          (record s { discovery_timeout_fired = true })
          (feed net now StateEvent.discovery_timeout s.machines)
  step now Turn.reconnects_due s =
      let (reconnects, sw) = on_reconnects_due net loop.dial_addr now (s.reconnects, s.sw) in
      some (record s { reconnects = reconnects; sw = sw })
  step now Turn.hole_punch_timeouts_due s =
      moved net swarm loop ip name_to_vec exposed bootstrap_peers now s
        (on_hole_punch_timeout net now s.machines)
  step now Turn.shutdown_signal s =
      moved net swarm loop ip name_to_vec exposed bootstrap_peers now s
        (feed net now StateEvent.shutdown_requested s.machines)

  -- The arms behind which the loop looks at the phase.
  abbrev pub may_end : Arm net QueryId → Bool
  may_end (Turn.swarm_event report mapped) = true
  may_end Turn.shutdown_signal = true
  may_end _ = false

  -- Behind an arm: the loop ends, or goes on.
  unfoldable pub again : Bool → (Loop → Option Loop) → Option Loop → Option Loop
  unfolding is_shutting_down
  again ends later none = none
  again ends later (some s) =
      if ends && is_shutting_down net swarm loop ip name_to_vec exposed bootstrap_peers s
      then some s
      else later s

  unfoldable pub run : List (ℕ × Arm net QueryId) → Loop → Option Loop
  unfolding step again
  run [] s = some s
  run ((now, arm) ∷ arms) s = again (may_end arm) (run arms) (step now arm s)
