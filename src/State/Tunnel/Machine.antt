-- ===== src/State/Tunnel/Machine.antt =====
-- `transition` of src/state/tunnel.rs. The time at which the event is handled is an argument:
-- the source reads the clock at most once for an event.
use Prim.Native.String.{String}
use text.Mathlib.Text.{find?}
use punchgate.Common.{
  ℕ, zero, Bool, true, false, ◌&&◌, not, none, some, List, [], ◌∷◌, ◌++◌, nat_eq, Eq, ◌==◌,
  if◌then◌else◌,
}
use punchgate.Net.{Libp2p}
use punchgate.Types.{ServiceName, service_name_eq}
use punchgate.Collections.HashMap
use punchgate.Collections.HashMap.{HashMap, get_or, contains_key, is_some}
use punchgate.Collections.HashSet
use punchgate.State.Event.{
  ready, Event, relay_reservation_accepted, dht_peer_lookup_complete, dht_service_resolved,
  dht_service_failed, tunnel_dial_failed, peer_identified, tunnel_peer_connected,
  hole_punch_attempt_started, hole_punch_attempt_failed, hole_punch_attempt_timeout,
  connection_lost, phase_changed,
}
use punchgate.State.Command.{Command, publish_services}
use punchgate.State.Tunnel.Defs.{HolePunchSession, TunnelState, clear_retry_state}
use punchgate.State.Tunnel.HolePunch.{
  spawn_all, is_waiting_disconnect, begin_holepunch_attempt, retry_holepunch_attempt,
  update_address_oracle, redial_command, on_last_connection_lost,
}
use punchgate.State.Tunnel.Routing.{
  initiate_lookups, get_providers_command, queue_for_direct, reroute_specs_after_dial_failure,
  on_dht_service_resolved, on_dht_peer_lookup_complete,
}

unfoldable pub is_pending_abort_dial_error : String → Bool
is_pending_abort_dial_error reason =
    is_some (find? reason "Pending connection attempt has been aborted")

module _ (net : Libp2p) ⦃pe : Eq net.PeerId⦄ where
  open net use {PeerId}

  unfoldable pub on_dht_service_failed : ServiceName → TunnelState net → List (Command net)
  on_dht_service_failed service_name s =
      if contains_key service_name s.pending_by_service
      then get_providers_command net service_name ∷ []
      else []

  -- The relayed arm. The warning about a NAT that is not viable is only logged.
  unfoldable pub on_relayed_connection : PeerId → TunnelState net → TunnelState net
  unfolding queue_for_direct
  on_relayed_connection peer s =
      let s' = record s { relayed_peers = HashSet.insert peer s.relayed_peers } in
      elim (HashMap.get peer s'.pending_by_peer) [
        | none ↦ s'
        | some specs ↦
            queue_for_direct net peer specs
              (record s' { pending_by_peer = HashMap.remove peer s'.pending_by_peer })
      ]

  unfoldable pub on_direct_connection :
      PeerId → TunnelState net → TunnelState net × List (Command net)
  unfolding clear_retry_state
  on_direct_connection peer s =
      let s' =
        clear_retry_state net peer
          (record s { relayed_peers = HashSet.remove peer s.relayed_peers }) in
      (
        record s' {
          pending_by_peer = HashMap.remove peer s'.pending_by_peer;
          awaiting_holepunch = HashMap.remove peer s'.awaiting_holepunch;
        },
        spawn_all net peer (
            get_or (HashMap.get peer s'.pending_by_peer) []
            ++ get_or (HashMap.get peer s'.awaiting_holepunch) []),
      )

  unfoldable pub on_tunnel_peer_connected :
      PeerId → Bool → TunnelState net → TunnelState net × List (Command net)
  unfolding on_relayed_connection on_direct_connection
  on_tunnel_peer_connected peer true s = (on_relayed_connection peer s, [])
  on_tunnel_peer_connected peer false s = on_direct_connection peer s

  unfoldable pub on_phase_ready : TunnelState net → List (Command net)
  unfolding initiate_lookups
  on_phase_ready s = publish_services ∷ initiate_lookups net s

module _ (net : Libp2p) ⦃pe : Eq net.PeerId⦄ ⦃ae : Eq net.Multiaddr⦄ where
  open net use {PeerId}

  -- `TunnelDialFailed` while tunnels wait for a direct path and a session is active.
  unfoldable pub dial_failed_in_session :
      PeerId → HolePunchSession net → ℕ → TunnelState net → TunnelState net × List (Command net)
  unfolding redial_command
  dial_failed_in_session peer session now s =
      if is_waiting_disconnect session.phase
      then (s, [])
      else if session.dial_retry_dispatched
      then (s, [])
      else let s' = record s {
        holepunch_sessions =
            HashMap.modify peer
              (λ active_session.
                if active_session.attempt_id == session.attempt_id
                then record active_session { dial_retry_dispatched = true }
                else active_session)
              s.holepunch_sessions;
      } in
        (s', redial_command net peer session now s' ∷ [])

  unfoldable pub on_tunnel_dial_failed :
      PeerId → String → ℕ → TunnelState net → TunnelState net × List (Command net)
  unfolding is_pending_abort_dial_error dial_failed_in_session reroute_specs_after_dial_failure
  on_tunnel_dial_failed peer reason now s =
      let awaiting_direct = contains_key peer s.awaiting_holepunch in
      let pending_tunnel = contains_key peer s.pending_by_peer in
      if not awaiting_direct && not pending_tunnel
      then (s, [])
      else if awaiting_direct && is_pending_abort_dial_error reason
      then (s, [])
      else elim (if awaiting_direct then HashMap.get peer s.holepunch_sessions else none) [
        | some session ↦ dial_failed_in_session peer session now s
        | none ↦ if pending_tunnel then reroute_specs_after_dial_failure net peer s else (s, [])
      ]

  unfoldable pub transition : ℕ → TunnelState net → Event net → TunnelState net × List (Command net)
  unfolding on_phase_ready on_dht_peer_lookup_complete on_dht_service_resolved on_dht_service_failed
      on_tunnel_dial_failed update_address_oracle on_tunnel_peer_connected begin_holepunch_attempt
      retry_holepunch_attempt on_last_connection_lost
  transition now s (phase_changed _ ready) = (s, on_phase_ready net s)
  transition now s (relay_reservation_accepted _) = (s, publish_services ∷ [])
  transition now s (dht_peer_lookup_complete peer connected) =
      on_dht_peer_lookup_complete net peer connected s
  transition now s (dht_service_resolved service_name providers) =
      on_dht_service_resolved net service_name providers s
  transition now s (dht_service_failed service_name _) =
      (s, on_dht_service_failed net service_name s)
  transition now s (tunnel_dial_failed peer reason) = on_tunnel_dial_failed peer reason now s
  transition now s (peer_identified peer listen_addrs _) =
      (update_address_oracle net peer listen_addrs now s, [])
  transition now s (tunnel_peer_connected peer relayed) =
      on_tunnel_peer_connected net peer relayed s
  transition now s (hole_punch_attempt_started peer attempt_id) =
      (begin_holepunch_attempt net peer attempt_id s, [])
  transition now s (hole_punch_attempt_failed peer attempt_id _) =
      retry_holepunch_attempt net peer attempt_id s
  transition now s (hole_punch_attempt_timeout peer attempt_id) =
      retry_holepunch_attempt net peer attempt_id s
  transition now s (connection_lost peer zero) = on_last_connection_lost net peer now s
  transition now s _ = (s, [])
