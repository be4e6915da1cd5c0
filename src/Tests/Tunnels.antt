-- ===== src/Tests/Tunnels.antt =====
-- Runs of the tunnel machine (src/state/tunnel.rs) and of the composition (src/state/app.rs).
use punchgate.Common.{
  arith, ℕ, ◌+◌, ◌≤◌, ◌<◌, ◌≡◌, ◌⊎◌, refl, true, false, none, some, List, [], ◌∷◌, count, length,
  contains, nat_eq, string_eq,
}
use punchgate.Types.{endpoint_independent, ServiceName, ServiceAddr, Spec, spec_eq, service_name_eq}
use punchgate.Collections.HashMap
use punchgate.Collections.HashMap.{HashMap, get, get_or, contains_key, IsMap}
use punchgate.Collections.HashSet.{IsDistinct}
use punchgate.State.Event.{
  phase_eq, Event, phase_changed, joining, ready, tunnel_peer_connected, dht_peer_lookup_complete,
  hole_punch_attempt_started, hole_punch_attempt_failed, kademlia_bootstrap_ok,
}
use punchgate.State.Command.{disconnect_peer}
use punchgate.State.Peer.Defs.{PeerState}
use punchgate.State.Peer.Defs as Peers
use punchgate.State.Tunnel.Defs.{
  has_holepunch_intent, set_nat_mapping, TunnelState, HolePunchSession, punching,
  waiting_disconnect, waiting_redial, max_relay_reconnect_retries, max_redial_addresses, from_secs,
}
use punchgate.State.Tunnel.Defs as Tunnels
use punchgate.State.Tunnel.HolePunch.{
  on_last_connection_lost, retries_so_far, retry_holepunch_attempt, spawn_all,
}
use punchgate.State.Tunnel.Addresses.{prioritized_redial_addrs}
use punchgate.State.Tunnel.Machine
use punchgate.State.Peer.Machine as PeerMachine
use punchgate.State.Tunnel.Wanted.{wanted, spawned, Conserves, HasMaps}
use punchgate.State.Tunnel.Conservation.{transition-Conserves}
use punchgate.State.Tunnel.Runs.{run, configure, specs_of}
use punchgate.State.Tunnel.Retries.{
  IsRetriable, IsRetryDial, retry_progress, retry_twice, retry_redials,
}
use punchgate.State.Tunnel.Bound.{run-configured-IsBounded}
use punchgate.State.Tunnel.Redial.{prioritized_redial_addrs_lem}
use punchgate.State.App.Machine.{AppState}
use punchgate.State.App.Machine as App
use punchgate.State.App.Tunnels as AppTunnels
use punchgate.State.App.Activation.{publishes, looks_up, asks_providers, ready_activates}
use punchgate.Tests.Toy.{toy, web, ssh, local, web_spec}

-- Two tunnels to the peer 5, and one to whoever provides the service.
abbrev tunnels : List (ℕ × ServiceName × ServiceAddr)
tunnels = (5, web, local) ∷ (5, ssh, local) ∷ []

abbrev by_name : List Spec
by_name = web_spec ∷ []

-- The peer is connected over a relay, and its hole punch fails.
abbrev history : List (ℕ × Event toy)
history =
    (0, phase_changed joining ready)
    ∷ (1, dht_peer_lookup_complete 5 true)
    ∷ (2, tunnel_peer_connected 5 true)
    ∷ (3, hole_punch_attempt_started 5 1)
    ∷ (4, hole_punch_attempt_failed 5 1 "refused")
    ∷ []

abbrev pub waiting : TunnelState toy
waiting = record (Tunnels.new toy) {
  awaiting_holepunch = (5, web_spec ∷ []) ∷ [];
  holepunch_sessions =
      (
        5,
        record {
          attempt_id = 1;
          phase = punching;
          relay_redial_addrs = 3 ∷ [];
          direct_snapshot = 0 ∷ [];
          dial_retry_dispatched = false;
        },
      )
      ∷ [];
  address_last_seen = (5, (0, from_secs 10) ∷ (3, from_secs 20) ∷ []) ∷ [];
}

abbrev session : HolePunchSession toy
session = record {
  attempt_id = 1;
  phase = punching;
  relay_redial_addrs = 3 ∷ [];
  direct_snapshot = 0 ∷ [];
  dial_retry_dispatched = false;
}

pub waiting-HasMaps : HasMaps {net = toy} waiting
unfolding Tunnels.new get
waiting-HasMaps = record {
  pending_by_peer = tt;
  pending_by_service = tt;
  awaiting_holepunch = (refl, tt);
}

waiting-IsRetriable : IsRetriable toy 5 1 waiting
unfolding Tunnels.new get nat_eq
waiting-IsRetriable = record {
  session = session;
  active = refl;
  current = refl;
  punching_now = refl;
  waiting = refl;
}

run-configured_example :
    wanted web_spec toy
        (AppTunnels.run toy history
          (record { peer = Peers.new toy; tunnel = configure toy tunnels by_name })).0.tunnel
      + spawned web_spec toy
          (AppTunnels.run toy history
            (record { peer = Peers.new toy; tunnel = configure toy tunnels by_name })).1
    ≡ count web_spec (specs_of toy tunnels) + count web_spec by_name
run-configured_example =
    AppTunnels.run-configured toy web_spec tunnels by_name (Peers.new toy) history

transition-Conserves_example :
    Conserves web_spec toy waiting
      (Machine.transition toy 7 waiting (hole_punch_attempt_failed 5 1 "refused"))
transition-Conserves_example =
    transition-Conserves web_spec toy 7 waiting (hole_punch_attempt_failed 5 1 "refused")
      waiting-HasMaps

retry_progress_example :
    let result = retry_holepunch_attempt toy 5 1 waiting in
    ((retries_so_far toy 5 waiting < max_relay_reconnect_retries)
      × (retries_so_far toy 5 result.0 ≡ retries_so_far toy 5 waiting + 1)
      × (contains 5 result.0.pending_retry_redial ≡ true)
      × (result.0.awaiting_holepunch ≡ waiting.awaiting_holepunch)
      × (result.1 ≡ disconnect_peer 5 ∷ []))
    ⊎ ((max_relay_reconnect_retries ≤ retries_so_far toy 5 waiting)
        × (retries_so_far toy 5 result.0 ≡ 0)
        × (contains_key 5 result.0.awaiting_holepunch ≡ false)
        × (get 5 result.0.holepunch_sessions ≡ none)
        × (result.1 ≡ spawn_all toy 5 (get_or (get 5 waiting.awaiting_holepunch) [])))
retry_progress_example = retry_progress toy 5 1 waiting waiting-IsRetriable

retry_twice_example :
    retry_holepunch_attempt toy 5 1 (retry_holepunch_attempt toy 5 1 waiting).0
    ≡ ((retry_holepunch_attempt toy 5 1 waiting).0, [])
retry_twice_example = retry_twice toy 5 1 waiting

-- The peer is reached over a relay first, and its hole punch fails: that uses a retry up.
abbrev relayed_first : List (ℕ × Event toy)
relayed_first =
    (2, tunnel_peer_connected 5 true)
    ∷ (3, hole_punch_attempt_started 5 1)
    ∷ (4, hole_punch_attempt_failed 5 1 "refused")
    ∷ []

abbrev configured : TunnelState toy
configured = set_nat_mapping toy endpoint_independent (configure toy tunnels by_name)

run-configured-IsBounded_example :
    retries_so_far toy 5 (run toy relayed_first configured).0 ≤ max_relay_reconnect_retries
run-configured-IsBounded_example =
    run-configured-IsBounded toy endpoint_independent tunnels by_name relayed_first 5

one_retry : retries_so_far toy 5 (run toy relayed_first configured).0 ≡ 1
unfolding retries_so_far get run Machine.transition HashMap.insert set_nat_mapping configure
    Tunnels.add_service_tunnel Tunnels.add_peer_tunnel Tunnels.new nat_eq HashMap.remove
one_retry = refl

prioritized_redial_addrs_lem_example :
    (length (prioritized_redial_addrs toy 5 session (from_secs 30) waiting) ≤ max_redial_addresses)
    × IsDistinct (prioritized_redial_addrs toy 5 session (from_secs 30) waiting)
prioritized_redial_addrs_lem_example =
    prioritized_redial_addrs_lem toy 5 session (from_secs 30) waiting

-- A node that has joined the DHT and learns that it can be reached.
abbrev joined : AppState toy
joined = record {
  peer = record (Peers.new toy) { external_addrs = 0 ∷ [] };
  tunnel = configure toy tunnels by_name;
}

ready_activates_example :
    (publishes (App.transition toy 1 joined kademlia_bootstrap_ok).1 ≡ true)
    × ((contains_key 5 joined.tunnel.pending_by_peer ≡ false)
        ⊎ (looks_up toy 5 (App.transition toy 1 joined kademlia_bootstrap_ok).1 ≡ true))
    × ((contains_key web joined.tunnel.pending_by_service ≡ false)
        ⊎ (asks_providers toy web (App.transition toy 1 joined kademlia_bootstrap_ok).1 ≡ true))
unfolding Peers.new App.transition phase_eq PeerMachine.transition
ready_activates_example = ready_activates toy 1 joined kademlia_bootstrap_ok 5 web refl refl

retry_redials_example :
    let lost =
      on_last_connection_lost toy 5 (from_secs 30) (retry_holepunch_attempt toy 5 1 waiting).0 in
    IsRetryDial toy 5 session (from_secs 30) waiting lost.1
    × (lost.0.awaiting_holepunch ≡ waiting.awaiting_holepunch)
    × (get 5 lost.0.holepunch_sessions ≡ some (record session { phase = waiting_redial }))
    × (contains 5 lost.0.pending_retry_redial ≡ false)
unfolding waiting-IsRetriable Tunnels.new retries_so_far get
retry_redials_example =
    retry_redials toy 5 1 (from_secs 30) waiting waiting-IsRetriable (omega arith)
