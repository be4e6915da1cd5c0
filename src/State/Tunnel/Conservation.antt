-- ===== src/State/Tunnel/Conservation.antt =====
-- No event loses or doubles a tunnel: one lemma for each handler of src/state/tunnel.rs that
-- moves tunnels, and the theorem over every event.
use punchgate.Common.{
  ℕ, zero, suc, ◌+◌, ◌≡◌, Bool, true, false, List, [], ◌++◌, map, count, count-append, arith, Eq,
}
use punchgate.Net.{Libp2p}
use punchgate.Types.{service_name_eq, Spec, spec_eq}
use punchgate.Collections.HashMap.{get_or, get, keys}
use punchgate.Collections.Weight.{weight-remove}
use punchgate.State.Command.{dht_lookup_peer}
use Prim.Native.String.{String}
use punchgate.State.Event.{
  ready, Event, dht_peer_lookup_complete, dht_service_resolved, tunnel_dial_failed,
  tunnel_peer_connected, hole_punch_attempt_failed, hole_punch_attempt_timeout, connection_lost,
  phase_changed,
}
use punchgate.State.Tunnel.Reroute.{reroute-Conserves, on_dht_service_resolved-Conserves}
use punchgate.State.Tunnel.Defs.{TunnelState}
use punchgate.State.Tunnel.HolePunch.{retry_holepunch_attempt, on_last_connection_lost}
use punchgate.State.Tunnel.Routing.{
  get_providers_command, route_connected_peer, on_dht_peer_lookup_complete,
}
use punchgate.State.Tunnel.Machine.{
  on_tunnel_peer_connected, on_tunnel_dial_failed, on_phase_ready, transition,
}
use punchgate.State.Tunnel.Wanted.{
  in_entry, at_peers-extend_entry, spawned, spawned-append, spawned-spawn_all, spawned-lookups,
  spawned-get_providers, wanted, Conserves, HasMaps,
}

module _ (q : Spec) (net : Libp2p) ⦃pe : Eq net.PeerId⦄ where
  open net use {PeerId, Multiaddr}

  route_connected_peer-Conserves :
      (peer : PeerId) (specs : List Spec) (s : TunnelState net)
      → wanted q net (route_connected_peer net peer specs s).0
          + spawned q net (route_connected_peer net peer specs s).1
        ≡ wanted q net s + count q specs
  unfolding route_connected_peer spawned
  route_connected_peer-Conserves peer specs s = ground (
    arith,
    at_peers-extend_entry q peer specs s.awaiting_holepunch,
    spawned-spawn_all q net peer specs,
  )

  on_dht_peer_lookup_complete-Conserves :
      (peer : PeerId) (connected : Bool) (s : TunnelState net)
      → HasMaps s
      → Conserves q net s (on_dht_peer_lookup_complete net peer connected s)
  unfolding on_dht_peer_lookup_complete spawned
  on_dht_peer_lookup_complete-Conserves peer false s h = ground arith
  on_dht_peer_lookup_complete-Conserves peer true s h = ground (
    arith,
    weight-remove (in_entry q) peer s.pending_by_peer h.pending_by_peer,
    at_peers-extend_entry q peer (get_or (get peer s.pending_by_peer) []) s.awaiting_holepunch,
    spawned-spawn_all q net peer (get_or (get peer s.pending_by_peer) []),
  )

  retry_holepunch_attempt-Conserves :
      (peer : PeerId) (attempt_id : ℕ) (s : TunnelState net)
      → HasMaps s
      → Conserves q net s (retry_holepunch_attempt net peer attempt_id s)
  unfolding retry_holepunch_attempt spawned
  retry_holepunch_attempt-Conserves peer attempt_id s h = ground (
    arith,
    weight-remove (in_entry q) peer s.awaiting_holepunch h.awaiting_holepunch,
    spawned-spawn_all q net peer (get_or (get peer s.awaiting_holepunch) []),
  )

  on_tunnel_peer_connected-Conserves :
      (peer : PeerId) (relayed : Bool) (s : TunnelState net)
      → HasMaps s
      → Conserves q net s (on_tunnel_peer_connected net peer relayed s)
  unfolding on_tunnel_peer_connected spawned
  on_tunnel_peer_connected-Conserves peer true s h = ground (
    arith,
    weight-remove (in_entry q) peer s.pending_by_peer h.pending_by_peer,
    at_peers-extend_entry q peer (get_or (get peer s.pending_by_peer) []) s.awaiting_holepunch,
  )
  on_tunnel_peer_connected-Conserves peer false s h =
      let pending = get_or (get peer s.pending_by_peer) [] in
      let awaiting = get_or (get peer s.awaiting_holepunch) [] in
      ground (
        arith,
        weight-remove (in_entry q) peer s.pending_by_peer h.pending_by_peer,
        weight-remove (in_entry q) peer s.awaiting_holepunch h.awaiting_holepunch,
        spawned-spawn_all q net peer (pending ++ awaiting),
        count-append q pending awaiting,
      )

  on_phase_ready-Conserves : (s : TunnelState net) → Conserves q net s (s, on_phase_ready net s)
  unfolding on_phase_ready spawned
  on_phase_ready-Conserves s = omega (
    arith,
    spawned-append q net (map dht_lookup_peer (keys s.pending_by_peer))
        (map (get_providers_command net) (keys s.pending_by_service)),
    spawned-lookups q net (keys s.pending_by_peer),
    spawned-get_providers q net (keys s.pending_by_service),
  )

  module _ ⦃ae : Eq net.Multiaddr⦄ where
    on_last_connection_lost-Conserves :
        (peer : PeerId) (now : ℕ) (s : TunnelState net)
        → HasMaps s
        → Conserves q net s (on_last_connection_lost net peer now s)
    unfolding on_last_connection_lost spawned
    on_last_connection_lost-Conserves peer now s h = ground (
      arith,
      weight-remove (in_entry q) peer s.awaiting_holepunch h.awaiting_holepunch,
      at_peers-extend_entry q peer (get_or (get peer s.awaiting_holepunch) []) s.pending_by_peer,
    )

    on_tunnel_dial_failed-Conserves :
        (peer : PeerId) (reason : String) (now : ℕ) (s : TunnelState net)
        → HasMaps s
        → Conserves q net s (on_tunnel_dial_failed net peer reason now s)
    unfolding on_tunnel_dial_failed spawned
    on_tunnel_dial_failed-Conserves peer reason now s h =
        ground (arith, reroute-Conserves q net peer s h)

    -- No event loses or doubles a tunnel, in a state whose maps have one entry for a key: of
    -- each spec, what waits after the transition and what its commands spawn is what waited
    -- before.
    pub transition-Conserves :
        (now : ℕ) (s : TunnelState net) (e : Event net)
        → HasMaps s
        → Conserves q net s (transition net now s e)
    unfolding transition spawned
    transition-Conserves now s (dht_peer_lookup_complete peer connected) h =
        on_dht_peer_lookup_complete-Conserves peer connected s h
    transition-Conserves now s (dht_service_resolved service providers) h =
        on_dht_service_resolved-Conserves q net service providers s h
    transition-Conserves now s (tunnel_dial_failed peer reason) h =
        on_tunnel_dial_failed-Conserves peer reason now s h
    transition-Conserves now s (tunnel_peer_connected peer relayed) h =
        on_tunnel_peer_connected-Conserves peer relayed s h
    transition-Conserves now s (hole_punch_attempt_failed peer attempt_id _) h =
        retry_holepunch_attempt-Conserves peer attempt_id s h
    transition-Conserves now s (hole_punch_attempt_timeout peer attempt_id) h =
        retry_holepunch_attempt-Conserves peer attempt_id s h
    transition-Conserves now s (connection_lost peer zero) h =
        on_last_connection_lost-Conserves peer now s h
    transition-Conserves now s (connection_lost peer (suc n)) h = omega arith
    transition-Conserves now s (phase_changed _ ready) h = on_phase_ready-Conserves s
    transition-Conserves now s _ h = ground arith
