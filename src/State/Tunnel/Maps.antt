-- ===== src/State/Tunnel/Maps.antt =====
-- The maps of src/state/tunnel.rs that hold tunnels keep one entry for a key.
use Prim.Native.String.{String}
use punchgate.Common.{ℕ, zero, suc, Bool, true, false, Option, none, some, List, [], ◌∷◌, arith, Eq}
use punchgate.Net.{Libp2p}
use punchgate.Types.{ServiceName, service_name_eq, ServiceAddr, Spec}
use punchgate.Collections.HashMap.{HashMap, IsMap, insert-IsMap, remove-IsMap}
use punchgate.State.Event.{
  ready, Event, dht_peer_lookup_complete, dht_service_resolved, tunnel_dial_failed,
  tunnel_peer_connected, hole_punch_attempt_failed, hole_punch_attempt_timeout, connection_lost,
  phase_changed,
}
use punchgate.State.Tunnel.Defs.{
  TunnelState, new, extend_entry, add_peer_tunnel, add_service_tunnel,
}
use punchgate.State.Tunnel.HolePunch.{retry_holepunch_attempt, on_last_connection_lost}
use punchgate.State.Tunnel.Routing.{
  Reroute, assign, assign_all, reassign_all, reroute_specs_after_dial_failure,
  next_fallback_provider, on_dht_service_resolved, on_dht_peer_lookup_complete,
}
use punchgate.State.Tunnel.Machine.{on_tunnel_peer_connected, on_tunnel_dial_failed, transition}
use punchgate.State.Tunnel.Wanted.{HasMaps}

module _ (net : Libp2p) ⦃pe : Eq net.PeerId⦄ where
  open net use {PeerId}

  pub new-HasMaps : HasMaps (new net)
  unfolding new
  new-HasMaps = record { pending_by_peer = tt; pending_by_service = tt; awaiting_holepunch = tt }

  pub add_peer_tunnel-HasMaps :
      (peer : PeerId) (service : ServiceName) (bind : ServiceAddr) (s : TunnelState net)
      → HasMaps s
      → HasMaps (add_peer_tunnel net peer service bind s)
  unfolding add_peer_tunnel
  add_peer_tunnel-HasMaps peer service bind s h = grind (arith, insert-IsMap)

  pub add_service_tunnel-HasMaps :
      (service : ServiceName) (bind : ServiceAddr) (s : TunnelState net)
      → HasMaps s
      → HasMaps (add_service_tunnel net service bind s)
  unfolding add_service_tunnel
  add_service_tunnel-HasMaps service bind s h = grind (arith, insert-IsMap)

  assign-IsMap :
      (spec : Spec) (choice : HashMap ServiceName (List PeerId) × Option PeerId) (r : Reroute net)
      → IsMap r.by_service
      → IsMap (assign net spec choice r).by_service
  unfolding assign
  assign-IsMap spec (candidates, some next_peer) r h = h
  assign-IsMap (service, bind) (candidates, none) r h = insert-IsMap _ _ _ h

  assign_all-IsMap :
      (peer : PeerId) (specs : List Spec) (r : Reroute net)
      → IsMap r.by_service
      → IsMap (assign_all net peer specs r).by_service
  unfolding assign_all
  assign_all-IsMap peer [] r h = h
  assign_all-IsMap peer (spec ∷ rest) r h =
      let choice = next_fallback_provider net spec.0 peer r.candidates in
      assign_all-IsMap peer rest (assign net spec choice r) (assign-IsMap spec choice r h)

  reassign_all-IsMap :
      (moved pending : HashMap PeerId (List Spec))
      → IsMap pending
      → IsMap (reassign_all net moved pending).0
  unfolding reassign_all
  reassign_all-IsMap [] pending h = h
  reassign_all-IsMap ((peer, specs) ∷ rest) pending h =
      reassign_all-IsMap rest (extend_entry peer specs pending) (insert-IsMap _ _ _ h)

  reroute-HasMaps :
      (peer : PeerId) (s : TunnelState net)
      → HasMaps s
      → HasMaps (reroute_specs_after_dial_failure net peer s).0
  unfolding reroute_specs_after_dial_failure
  reroute-HasMaps peer s h = grind (arith, remove-IsMap, assign_all-IsMap, reassign_all-IsMap)

  on_dht_service_resolved-HasMaps :
      (service : ServiceName) (providers : List (PeerId × Bool)) (s : TunnelState net)
      → HasMaps s
      → HasMaps (on_dht_service_resolved net service providers s).0
  unfolding on_dht_service_resolved
  on_dht_service_resolved-HasMaps service providers s h = grind (arith, remove-IsMap, insert-IsMap)

  on_dht_peer_lookup_complete-HasMaps :
      (peer : PeerId) (connected : Bool) (s : TunnelState net)
      → HasMaps s
      → HasMaps (on_dht_peer_lookup_complete net peer connected s).0
  unfolding on_dht_peer_lookup_complete
  on_dht_peer_lookup_complete-HasMaps peer true s h = grind (arith, remove-IsMap, insert-IsMap)
  on_dht_peer_lookup_complete-HasMaps peer false s h = h

  retry_holepunch_attempt-HasMaps :
      (peer : PeerId) (attempt_id : ℕ) (s : TunnelState net)
      → HasMaps s
      → HasMaps (retry_holepunch_attempt net peer attempt_id s).0
  unfolding retry_holepunch_attempt
  retry_holepunch_attempt-HasMaps peer attempt_id s h = grind (arith, remove-IsMap)

  on_tunnel_peer_connected-HasMaps :
      (peer : PeerId) (relayed : Bool) (s : TunnelState net)
      → HasMaps s
      → HasMaps (on_tunnel_peer_connected net peer relayed s).0
  unfolding on_tunnel_peer_connected
  on_tunnel_peer_connected-HasMaps peer true s h = grind (arith, remove-IsMap, insert-IsMap)
  on_tunnel_peer_connected-HasMaps peer false s h = grind (arith, remove-IsMap)

  module _ ⦃ae : Eq net.Multiaddr⦄ where
    on_last_connection_lost-HasMaps :
        (peer : PeerId) (now : ℕ) (s : TunnelState net)
        → HasMaps s
        → HasMaps (on_last_connection_lost net peer now s).0
    unfolding on_last_connection_lost
    on_last_connection_lost-HasMaps peer now s h = grind (arith, remove-IsMap, insert-IsMap)

    on_tunnel_dial_failed-HasMaps :
        (peer : PeerId) (reason : String) (now : ℕ) (s : TunnelState net)
        → HasMaps s
        → HasMaps (on_tunnel_dial_failed net peer reason now s).0
    unfolding on_tunnel_dial_failed
    on_tunnel_dial_failed-HasMaps peer reason now s h = ground (arith, reroute-HasMaps peer s h)

    -- A transition from a state whose maps of tunnels have one entry for a key leads to one.
    pub transition-HasMaps :
        (now : ℕ) (s : TunnelState net) (e : Event net)
        → HasMaps s
        → HasMaps (transition net now s e).0
    unfolding transition
    transition-HasMaps now s (dht_peer_lookup_complete peer connected) h =
        on_dht_peer_lookup_complete-HasMaps peer connected s h
    transition-HasMaps now s (dht_service_resolved service providers) h =
        on_dht_service_resolved-HasMaps service providers s h
    transition-HasMaps now s (tunnel_dial_failed peer reason) h =
        on_tunnel_dial_failed-HasMaps peer reason now s h
    transition-HasMaps now s (tunnel_peer_connected peer relayed) h =
        on_tunnel_peer_connected-HasMaps peer relayed s h
    transition-HasMaps now s (hole_punch_attempt_failed peer attempt_id _) h =
        retry_holepunch_attempt-HasMaps peer attempt_id s h
    transition-HasMaps now s (hole_punch_attempt_timeout peer attempt_id) h =
        retry_holepunch_attempt-HasMaps peer attempt_id s h
    transition-HasMaps now s (connection_lost peer zero) h =
        on_last_connection_lost-HasMaps peer now s h
    transition-HasMaps now s (connection_lost peer (suc n)) h = h
    transition-HasMaps now s (phase_changed _ ready) h = h
    transition-HasMaps now s _ h = ground arith
