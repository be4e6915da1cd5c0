-- ===== src/State/App/Tunnels.antt =====
-- The tunnels of a whole node (src/state/app.rs): the peer machine spawns none, so what the
-- tunnel machine keeps is kept by the composition.
use punchgate.Common.{
  ℕ, zero, ◌+◌, ◌≡◌, refl, false, List, [], ◌∷◌, ◌++◌, arith, Eq, count, if_rule, ◌&&◌, contains,
  if◌then◌else◌,
}
use punchgate.Net.{Libp2p, ip_addr_eq}
use punchgate.Types.{ServiceName, ServiceAddr, Spec, spec_eq}
use punchgate.Collections.HashMap
use punchgate.Collections.HashMap.{HashMap, get_or}
use punchgate.Collections.HashSet
use punchgate.Collections.HashSet.{HashSet, inserted}
use punchgate.ExternalAddr.{has_public_ip}
use punchgate.State.Event.{
  Event, nat_status_changed, mdns_discovered, peer_identified, relay_reservation_failed,
  connection_lost,
}
use punchgate.State.Command.{Command}
use punchgate.State.Peer.Defs.{
  PeerState, to_list, replace_stale_public_addr_for_ip, maybe_request_relay,
}
use punchgate.State.Peer.Handlers.{discover, learn}
use punchgate.State.Peer.Machine
use punchgate.State.Tunnel.Defs.{TunnelState}
use punchgate.State.Tunnel.Machine as TunnelMachine
use punchgate.State.Tunnel.Wanted.{spawned, spawned-append, wanted, Conserves, HasMaps}
use punchgate.State.Tunnel.Maps.{transition-HasMaps}
use punchgate.State.Tunnel.Conservation.{transition-Conserves}
use punchgate.State.Tunnel.Runs.{configure, specs_of, configure_lem}
use punchgate.State.App.Machine.{AppState, bridge, run_tunnel, transition}

module _ (net : Libp2p) ⦃pe : Eq net.PeerId⦄ ⦃ae : Eq net.Multiaddr⦄ where
  open net use {PeerId, Multiaddr}

  module _ (q : Spec) where
    spawned-discover :
        (peers : List (PeerId × Multiaddr)) (known : HashMap PeerId (HashSet Multiaddr))
        → spawned q net (discover net peers known).1 ≡ 0
    unfolding discover spawned
    spawned-discover [] known = refl
    spawned-discover ((peer, addr) ∷ rest) known =
        spawned-discover rest (HashMap.upsert peer [] (HashSet.insert addr) known)

    spawned-learn :
        (peer : PeerId) (addrs : List Multiaddr) (entry : HashSet Multiaddr)
        → spawned q net (learn net peer addrs entry).1 ≡ 0
    unfolding learn spawned
    spawned-learn peer [] entry = refl
    spawned-learn peer (addr ∷ rest) entry =
        let fresh = replace_stale_public_addr_for_ip net entry addr in
        let later = spawned-learn peer rest (HashSet.insert addr fresh) in
        if_rule (λ commands. spawned q net commands ≡ 0)
          (inserted addr fresh && has_public_ip net addr) later later

    spawned-relay : (s : PeerState net) → spawned q net (to_list (maybe_request_relay net s)) ≡ 0
    unfolding maybe_request_relay spawned
    spawned-relay s = ground arith

    spawned-peer :
        (s : PeerState net) (e : Event net) → spawned q net (Machine.transition net s e).1 ≡ 0
    unfolding Machine.transition spawned
    spawned-peer s (mdns_discovered peers) = spawned-discover peers s.known_peers
    spawned-peer s (nat_status_changed status) =
        ground (arith, spawned-relay (record s { nat_status = status }))
    spawned-peer s (peer_identified peer addrs observed) =
        let known = get_or (HashMap.get peer s.known_peers) [] in
        let (entry, commands) = learn net peer addrs known in
        let s' = record s { known_peers = HashMap.insert peer entry s.known_peers } in
        let request = to_list (maybe_request_relay net s') in
        omega (
          arith,
          spawned-append q net commands (if contains peer s.bootstrap_peers then request else []),
          spawned-learn peer addrs known,
          if_rule (λ later. spawned q net later ≡ 0) (contains peer s.bootstrap_peers) {x = request}
              {y = []} (spawned-relay s') refl,
        )
    spawned-peer s (relay_reservation_failed _ _) =
        spawned-relay (record s { relay_reserved = false })
    spawned-peer s (connection_lost peer zero) = ground arith
    spawned-peer s e = ground arith

  unfoldable pub run : List (ℕ × Event net) → AppState net → AppState net × List (Command net)
  run [] app = (app, [])
  run ((now, e) ∷ history) app =
      let (app', commands) = transition net now app e in
      let (last, later) = run history app' in (last, commands ++ later)

  pub run_tunnel-HasMaps :
      (now : ℕ) (s : TunnelState net) (events : List (Event net))
      → HasMaps s
      → HasMaps (run_tunnel net now s events).0
  unfolding run_tunnel
  run_tunnel-HasMaps now s [] h = h
  run_tunnel-HasMaps now s (e ∷ events) h =
      run_tunnel-HasMaps now (TunnelMachine.transition net now s e).0 events
        (transition-HasMaps net now s e h)

  module _ (q : Spec) where
    run_tunnel-Conserves :
        (now : ℕ) (s : TunnelState net) (events : List (Event net))
        → HasMaps s
        → Conserves q net s (run_tunnel net now s events)
    unfolding run_tunnel spawned
    run_tunnel-Conserves now s [] h = omega arith
    run_tunnel-Conserves now s (e ∷ events) h =
        let next = TunnelMachine.transition net now s e in
        let after = run_tunnel net now next.0 events in
        omega (
          arith,
          transition-Conserves q net now s e h,
          run_tunnel-Conserves now next.0 events (transition-HasMaps net now s e h),
          spawned-append q net next.1 after.1,
        )

    pub run-Conserves :
        (history : List (ℕ × Event net)) (app : AppState net)
        → HasMaps app.tunnel
        → wanted q net (run history app).0.tunnel + spawned q net (run history app).1
          ≡ wanted q net app.tunnel
    unfolding run transition spawned
    run-Conserves [] app h = omega arith
    run-Conserves ((now, e) ∷ history) app h =
        let (peer, peer_cmds) = Machine.transition net app.peer e in
        let events = bridge net app.peer.phase peer.phase ++ e ∷ [] in
        let next = run_tunnel net now app.tunnel events in
        let app' : AppState net = record { peer = peer; tunnel = next.0 } in
        let after = run history app' in
        omega (
          arith,
          spawned-peer q app.peer e,
          run_tunnel-Conserves now app.tunnel events h,
          run-Conserves history app' (run_tunnel-HasMaps now app.tunnel events h),
          spawned-append q net peer_cmds next.1,
          spawned-append q net (peer_cmds ++ next.1) after.1,
        )

    -- Over any history of a node that starts with a configured tunnel machine, whatever its
    -- peer machine, each tunnel is spawned or still waits, as often together as it is
    -- configured.
    pub run-configured :
        (tunnels : List (PeerId × ServiceName × ServiceAddr)) (by_name : List Spec)
        (peer : PeerState net) (history : List (ℕ × Event net))
        → let result =
            run history (record { peer = peer; tunnel = configure net tunnels by_name }) in
          wanted q net result.0.tunnel + spawned q net result.1
          ≡ count q (specs_of net tunnels) + count q by_name
    run-configured tunnels by_name peer history =
        let (maps, total) = configure_lem net q tunnels by_name in
        omega (
          arith,
          total,
          run-Conserves history (record { peer = peer; tunnel = configure net tunnels by_name })
              maps,
        )
