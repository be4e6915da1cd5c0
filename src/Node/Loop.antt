-- ===== src/Node/Loop.antt =====
-- The arms of the event loop in src/node/mod.rs that move the machines: what reaches the state
-- machine, and the hole punches that are armed behind it. The commands are collected in the
-- order in which the loop executes them; executing them changes neither machine.
pub mod Conserved
pub mod Admitted
pub mod Direct
use punchgate.Common.{
  ℕ, ◌+◌, ◌%◌, ◌^◌, ◌==◌, Bool, true, false, ◌&&◌, Option, none, some, String, List, [], ◌∷◌, ◌++◌,
  Eq, nat_eq, saturating_add, if◌then◌else◌,
}
use punchgate.Net.{Libp2p}
use punchgate.Collections.HashMap.{get}
use punchgate.State.Event as StateEvent
use punchgate.State.Event.{Event, phase_eq}
use punchgate.State.Command.{Command}
use punchgate.State.Tunnel.Defs.{from_secs, has_holepunch_intent}
use punchgate.State.Tunnel.Targets.{holepunch_target_peers}
use punchgate.State.App.Machine.{AppState, phase, transition}
use punchgate.Node.Connections.Defs.{
  ConnectionId, ConnectionStateMachine, ConnectionEstablishedUpdate, ConnectionClosedUpdate,
}
use punchgate.Node.Connections.Registry.{peer_is_relay_only, connection_count_for_peer}
use punchgate.Node.Connections.Attempts.{
  start_hole_punch_attempt, on_connection_established, on_connection_closed,
}
use punchgate.Node.Connections.Timeouts.{take_due_hole_punch_timeouts}
use punchgate.Node.Translate.{is_relayed}
use punchgate.Node.Translate.Swarm.{ConnectedPoint}

abbrev pub hole_punch_timeout : ℕ
hole_punch_timeout = from_secs 30

-- The two machines that the loop moves.
pub record Machines (net : Libp2p) : Type 0 where
  pub app : AppState net
  pub connections : ConnectionStateMachine net

-- `Option::or`.
abbrev pub or_else : Option ℕ → Option ℕ → Option ℕ
or_else none b = b
or_else (some a) b = some a

module _ (net : Libp2p) ⦃pe : Eq net.PeerId⦄ ⦃ae : Eq net.Multiaddr⦄ where
  open net use {PeerId, Multiaddr}

  -- The event that goes on to the state machine, if any: a failure that DCUtR reports becomes
  -- one of the attempt that is active, and a failure of another attempt is stale.
  unfoldable pub admit : ConnectionStateMachine net → Event net → Option (Event net)
  unfolding get
  admit m (StateEvent.hole_punch_failed peer reason) = elim (get peer m.hole_punch_attempts) [
    | none ↦ none
    | some stats ↦ some (StateEvent.hole_punch_attempt_failed peer stats.attempt_id reason)
  ]
  admit m (StateEvent.hole_punch_attempt_failed peer attempt_id reason) =
      elim (get peer m.hole_punch_attempts) [
        | none ↦ some (StateEvent.hole_punch_attempt_failed peer attempt_id reason)
        | some stats ↦
            if stats.attempt_id == attempt_id
            then some (StateEvent.hole_punch_attempt_failed peer attempt_id reason)
            else none
      ]
  admit m event = some event

  -- One event through the state machine.
  unfoldable pub feed : ℕ → Event net → Machines net → Machines net × List (Command net)
  unfolding transition
  feed now event s =
      let (app, commands) = transition net now s.app event in (record s { app = app }, commands)

  -- One step behind another, with the commands of both.
  abbrev pub then_do :
      Machines net × List (Command net)
      → (Machines net → Machines net × List (Command net))
      → Machines net × List (Command net)
  then_do (s, commands) f = let (t, later) = f s in (t, commands ++ later)

  -- Behind `start_hole_punch_attempt` of one target: the attempt that started, if any, and the
  -- other targets.
  unfoldable pub arm_started :
      ℕ
      → PeerId
      → Option ℕ
      → (Machines net → Machines net × List (Command net))
      → Machines net
      → Machines net × List (Command net)
  unfolding feed
  arm_started now peer none later s = later s
  arm_started now peer (some attempt_id) later s =
      then_do (feed now (StateEvent.hole_punch_attempt_started peer attempt_id) s) later

  -- The loop of `arm_hole_punch_for_tunnel_targets`, whose targets are taken before it.
  unfoldable pub arm_targets : ℕ → List PeerId → Machines net → Machines net × List (Command net)
  unfolding start_hole_punch_attempt arm_started
  arm_targets now [] s = (s, [])
  arm_targets now (peer ∷ peers) s =
      let (connections, started) =
        start_hole_punch_attempt net peer hole_punch_timeout now s.connections in
      arm_started now peer started (arm_targets now peers) (record s { connections = connections })

  unfoldable pub arm_hole_punch_for_tunnel_targets :
      ℕ → Machines net → Machines net × List (Command net)
  unfolding phase holepunch_target_peers arm_targets
  arm_hole_punch_for_tunnel_targets now s =
      if phase s.app == StateEvent.shutting_down
      then (s, [])
      else arm_targets now (holepunch_target_peers net s.app.tunnel) s

  -- The arm for the deadlines that are due: an attempt times out only where the peer is still
  -- reached through a relay alone.
  unfoldable pub fire_timeouts :
      ℕ → List (PeerId × ℕ) → Machines net → Machines net × List (Command net)
  unfolding peer_is_relay_only feed
  fire_timeouts now [] s = (s, [])
  fire_timeouts now ((peer, attempt_id) ∷ due) s =
      let later = fire_timeouts now due in
      if peer_is_relay_only net peer s.connections
      then then_do (feed now (StateEvent.hole_punch_attempt_timeout peer attempt_id) s) later
      else later s

  unfoldable pub on_hole_punch_timeout : ℕ → Machines net → Machines net × List (Command net)
  unfolding take_due_hole_punch_timeouts fire_timeouts
  on_hole_punch_timeout now s =
      let (connections, due) = take_due_hole_punch_timeouts net now s.connections in
      fire_timeouts now due (record s { connections = connections })

  -- `SwarmEvent::ConnectionEstablished`: the machine of the connections moves, and an attempt
  -- that starts is an event of its own, ahead of the translated ones.
  unfoldable pub on_established :
      ℕ
      → PeerId
      → ConnectionId
      → ConnectedPoint net
      → Machines net
      → ConnectionStateMachine net × ConnectionEstablishedUpdate × List (Event net)
  unfolding is_relayed on_connection_established start_hole_punch_attempt has_holepunch_intent
  on_established now peer connection_id endpoint s =
      let relayed = is_relayed net endpoint in
      let (opened, update) =
        on_connection_established net peer connection_id relayed s.connections in
      let (connections, started) =
        if relayed && has_holepunch_intent net peer s.app.tunnel
        then start_hole_punch_attempt net peer hole_punch_timeout now opened
        else (opened, none) in
      (
        connections,
        update,
        elim (or_else started update.started_attempt_id) [
          | none ↦ []
          | some attempt_id ↦ StateEvent.hole_punch_attempt_started peer attempt_id ∷ []
        ],
      )

  -- `SwarmEvent::ConnectionClosed`: the connections that are left are those that the machine
  -- counts, not the number that libp2p reports.
  unfoldable pub on_closed :
      PeerId
      → ConnectionId
      → ℕ
      → Machines net
      → ConnectionStateMachine net × ConnectionClosedUpdate × List (Event net)
  unfolding on_connection_closed connection_count_for_peer
  on_closed peer connection_id num_established s =
      let (connections, update) =
        on_connection_closed net peer connection_id num_established s.connections in
      let remaining =
        saturating_add 64 (connection_count_for_peer net connections.relayed_connections peer)
          (connection_count_for_peer net connections.direct_connections peer)
        % 2 ^ 32 in
      (connections, update, StateEvent.connection_lost peer remaining ∷ [])
