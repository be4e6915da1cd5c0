-- ===== src/State/Tunnel/Bound.antt =====
-- The retry counter of src/state/tunnel.rs never passes the bound, over any history of events.
use Prim.Native.String.{String}
use punchgate.Common.{ℕ, zero, suc, ◌+◌, ◌≤◌, Bool, true, false, List, [], ◌∷◌, arith, Eq}
use punchgate.Net.{Libp2p}
use punchgate.Types.{ServiceName, ServiceAddr, Spec, NatMapping}
use punchgate.Collections.HashMap.{get, get-insert, get-remove}
use punchgate.State.Event.{
  ready, Event, dht_peer_lookup_complete, dht_service_resolved, tunnel_dial_failed,
  tunnel_peer_connected, peer_identified, hole_punch_attempt_started, hole_punch_attempt_failed,
  hole_punch_attempt_timeout, connection_lost, phase_changed,
}
use punchgate.State.Tunnel.Defs.{
  TunnelState, new, max_relay_reconnect_retries, set_nat_mapping, add_peer_tunnel,
  add_service_tunnel,
}
use punchgate.State.Tunnel.HolePunch.{
  retries_so_far, retry_holepunch_attempt, on_last_connection_lost, begin_holepunch_attempt,
  update_address_oracle,
}
use punchgate.State.Tunnel.Routing.{on_dht_service_resolved, on_dht_peer_lookup_complete}
use punchgate.State.Tunnel.Machine.{on_tunnel_peer_connected, on_tunnel_dial_failed, transition}
use punchgate.State.Tunnel.Runs.{run, configure, configure_peers, configure_services}

module _ (net : Libp2p) ⦃pe : Eq net.PeerId⦄ where
  open net use {PeerId}

  -- No peer has more retries counted than the bound.
  abbrev pub IsBounded : TunnelState net → Type 0
  IsBounded s = (peer : PeerId) → retries_so_far net peer s ≤ max_relay_reconnect_retries

  retry-IsBounded :
      (peer : PeerId) (attempt_id : ℕ) (s : TunnelState net)
      → IsBounded s
      → IsBounded (retry_holepunch_attempt net peer attempt_id s).0
  unfolding retry_holepunch_attempt
  retry-IsBounded peer attempt_id s h p = ground (
    arith,
    h p,
    h peer,
    get-insert peer p (retries_so_far net peer s + 1) s.holepunch_retry_attempts,
    get-remove peer p s.holepunch_retry_attempts,
  )

  on_tunnel_peer_connected-IsBounded :
      (peer : PeerId) (relayed : Bool) (s : TunnelState net)
      → IsBounded s
      → IsBounded (on_tunnel_peer_connected net peer relayed s).0
  unfolding on_tunnel_peer_connected retries_so_far
  on_tunnel_peer_connected-IsBounded peer true s h p = ground (arith, h p)
  on_tunnel_peer_connected-IsBounded peer false s h p =
      ground (arith, h p, get-remove peer p s.holepunch_retry_attempts)

  on_dht_service_resolved-IsBounded :
      (service : ServiceName) (providers : List (PeerId × Bool)) (s : TunnelState net)
      → IsBounded s
      → IsBounded (on_dht_service_resolved net service providers s).0
  unfolding on_dht_service_resolved retries_so_far
  on_dht_service_resolved-IsBounded service providers s h p = ground (arith, h p)

  on_dht_peer_lookup_complete-IsBounded :
      (peer : PeerId) (connected : Bool) (s : TunnelState net)
      → IsBounded s
      → IsBounded (on_dht_peer_lookup_complete net peer connected s).0
  unfolding on_dht_peer_lookup_complete retries_so_far
  on_dht_peer_lookup_complete-IsBounded peer true s h p = ground (arith, h p)
  on_dht_peer_lookup_complete-IsBounded peer false s h p = h p

  new-IsBounded : IsBounded (new net)
  unfolding new retries_so_far get
  new-IsBounded peer = omega arith

  configure_peers-IsBounded :
      (tunnels : List (PeerId × ServiceName × ServiceAddr)) (s : TunnelState net)
      → IsBounded s
      → IsBounded (configure_peers net tunnels s)
  unfolding configure_peers add_peer_tunnel retries_so_far
  configure_peers-IsBounded [] s h = h
  configure_peers-IsBounded ((peer, service, bind) ∷ rest) s h =
      configure_peers-IsBounded rest (add_peer_tunnel net peer service bind s) h

  configure_services-IsBounded :
      (tunnels : List Spec) (s : TunnelState net)
      → IsBounded s
      → IsBounded (configure_services net tunnels s)
  unfolding configure_services add_service_tunnel retries_so_far
  configure_services-IsBounded [] s h = h
  configure_services-IsBounded ((service, bind) ∷ rest) s h =
      configure_services-IsBounded rest (add_service_tunnel net service bind s) h

  begin-IsBounded :
      (peer : PeerId) (attempt_id : ℕ) (s : TunnelState net)
      → IsBounded s
      → IsBounded (begin_holepunch_attempt net peer attempt_id s)
  unfolding begin_holepunch_attempt retries_so_far
  begin-IsBounded peer attempt_id s h p = h p

  module _ ⦃ae : Eq net.Multiaddr⦄ where
    on_last_connection_lost-IsBounded :
        (peer : PeerId) (now : ℕ) (s : TunnelState net)
        → IsBounded s
        → IsBounded (on_last_connection_lost net peer now s).0
    unfolding on_last_connection_lost retries_so_far
    on_last_connection_lost-IsBounded peer now s h p =
        ground (arith, h p, get-remove peer p s.holepunch_retry_attempts)

    on_tunnel_dial_failed-IsBounded :
        (peer : PeerId) (reason : String) (now : ℕ) (s : TunnelState net)
        → IsBounded s
        → IsBounded (on_tunnel_dial_failed net peer reason now s).0
    unfolding on_tunnel_dial_failed retries_so_far
    on_tunnel_dial_failed-IsBounded peer reason now s h p = ground (arith, h p)

    identified-IsBounded :
        (peer : PeerId) (addrs : List net.Multiaddr) (now : ℕ) (s : TunnelState net)
        → IsBounded s
        → IsBounded (update_address_oracle net peer addrs now s)
    unfolding update_address_oracle retries_so_far
    identified-IsBounded peer addrs now s h p = h p

    transition-IsBounded :
        (now : ℕ) (s : TunnelState net) (e : Event net)
        → IsBounded s
        → IsBounded (transition net now s e).0
    unfolding transition
    transition-IsBounded now s (dht_peer_lookup_complete peer connected) h =
        on_dht_peer_lookup_complete-IsBounded peer connected s h
    transition-IsBounded now s (dht_service_resolved service providers) h =
        on_dht_service_resolved-IsBounded service providers s h
    transition-IsBounded now s (tunnel_dial_failed peer reason) h =
        on_tunnel_dial_failed-IsBounded peer reason now s h
    transition-IsBounded now s (tunnel_peer_connected peer relayed) h =
        on_tunnel_peer_connected-IsBounded peer relayed s h
    transition-IsBounded now s (hole_punch_attempt_failed peer attempt_id _) h =
        retry-IsBounded peer attempt_id s h
    transition-IsBounded now s (hole_punch_attempt_timeout peer attempt_id) h =
        retry-IsBounded peer attempt_id s h
    transition-IsBounded now s (connection_lost peer zero) h =
        on_last_connection_lost-IsBounded peer now s h
    transition-IsBounded now s (connection_lost peer (suc n)) h = h
    transition-IsBounded now s (phase_changed _ ready) h = h
    transition-IsBounded now s (peer_identified peer addrs _) h =
        identified-IsBounded peer addrs now s h
    transition-IsBounded now s (hole_punch_attempt_started peer attempt_id) h =
        begin-IsBounded peer attempt_id s h
    transition-IsBounded now s _ h = h

    run-IsBounded :
        (history : List (ℕ × Event net)) (s : TunnelState net)
        → IsBounded s
        → IsBounded (run net history s).0
    unfolding run
    run-IsBounded [] s h = h
    run-IsBounded ((now, e) ∷ history) s h =
        run-IsBounded history (transition net now s e).0 (transition-IsBounded now s e h)

    -- In every state that a configured machine reaches, with any tunnels and any class of NAT, no
    -- peer has more than three retries counted, so the u32 counter never saturates.
    pub run-configured-IsBounded :
        (mapping : NatMapping) (tunnels : List (PeerId × ServiceName × ServiceAddr))
        (by_name : List Spec) (history : List (ℕ × Event net)) (peer : PeerId)
        → retries_so_far net peer
            (run net history (set_nat_mapping net mapping (configure net tunnels by_name))).0
          ≤ max_relay_reconnect_retries
    unfolding set_nat_mapping configure retries_so_far
    run-configured-IsBounded mapping tunnels by_name history =
        run-IsBounded history (set_nat_mapping net mapping (configure net tunnels by_name)) (
          configure_services-IsBounded by_name (configure_peers net tunnels (new net))
            (configure_peers-IsBounded tunnels (new net) new-IsBounded))
