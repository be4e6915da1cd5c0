-- ===== src/State/Tunnel/Runs.antt =====
-- The tunnel machine of src/state/tunnel.rs over a history of events, each with the time at
-- which it is handled.
use punchgate.Common.{ℕ, ◌+◌, ◌≡◌, refl, List, [], ◌∷◌, ◌++◌, arith, Eq, count}
use punchgate.Net.{Libp2p}
use punchgate.Types.{ServiceName, ServiceAddr, Spec, spec_eq}
use punchgate.Collections.Weight.{weight}
use punchgate.State.Event.{Event}
use punchgate.State.Command.{Command}
use punchgate.State.Tunnel.Defs.{TunnelState, new, add_peer_tunnel, add_service_tunnel}
use punchgate.State.Tunnel.Machine.{transition}
use punchgate.State.Tunnel.Wanted.{
  spawned, spawned-append, wanted, Conserves, HasMaps, at_peers-extend_entry,
  at_services-extend_entry,
}
use punchgate.State.Tunnel.Maps.{
  new-HasMaps, add_peer_tunnel-HasMaps, add_service_tunnel-HasMaps, transition-HasMaps,
}
use punchgate.State.Tunnel.Conservation.{transition-Conserves}

module _ (net : Libp2p) ⦃pe : Eq net.PeerId⦄ where
  open net use {PeerId}

  -- The two loops of `run` in src/node/mod.rs that configure the machine.
  unfoldable pub configure_peers :
      List (PeerId × ServiceName × ServiceAddr) → TunnelState net → TunnelState net
  configure_peers [] s = s
  configure_peers ((peer, service, bind) ∷ rest) s =
      configure_peers rest (add_peer_tunnel net peer service bind s)

  unfoldable pub configure_services :
      List (ServiceName × ServiceAddr) → TunnelState net → TunnelState net
  configure_services [] s = s
  configure_services ((service, bind) ∷ rest) s =
      configure_services rest (add_service_tunnel net service bind s)

  unfoldable pub configure : List (PeerId × ServiceName × ServiceAddr) → List Spec → TunnelState net
  unfolding configure_peers configure_services
  configure tunnel_specs tunnel_by_name_specs =
      configure_services tunnel_by_name_specs (configure_peers tunnel_specs (new net))

  -- The specs of the peer tunnels, without the peer.
  abbrev pub specs_of : List (PeerId × ServiceName × ServiceAddr) → List Spec
  specs_of [] = []
  specs_of ((peer, service, bind) ∷ rest) = (service, bind) ∷ specs_of rest

  new-wanted : (q : Spec) → wanted q net (new net) ≡ 0
  unfolding new weight
  new-wanted q = refl

  add_peer_tunnel-wanted :
      (q : Spec) (peer : PeerId) (service : ServiceName) (bind : ServiceAddr) (s : TunnelState net)
      → wanted q net (add_peer_tunnel net peer service bind s)
        ≡ wanted q net s + count q ((service, bind) ∷ [])
  unfolding add_peer_tunnel
  add_peer_tunnel-wanted q peer service bind s =
      omega (arith, at_peers-extend_entry q peer ((service, bind) ∷ []) s.pending_by_peer)

  add_service_tunnel-wanted :
      (q : Spec) (service : ServiceName) (bind : ServiceAddr) (s : TunnelState net)
      → wanted q net (add_service_tunnel net service bind s)
        ≡ wanted q net s + count q ((service, bind) ∷ [])
  unfolding add_service_tunnel
  add_service_tunnel-wanted q service bind s =
      omega (arith, at_services-extend_entry q service (bind ∷ []) s.pending_by_service)

  configure_peers_lem :
      (q : Spec) (tunnels : List (PeerId × ServiceName × ServiceAddr)) (s : TunnelState net)
      → HasMaps s
      → HasMaps (configure_peers tunnels s)
        × (wanted q net (configure_peers tunnels s) ≡ wanted q net s + count q (specs_of tunnels))
  unfolding configure_peers
  configure_peers_lem q [] s h = (h, omega arith)
  configure_peers_lem q ((peer, service, bind) ∷ rest) s h =
      let s' = add_peer_tunnel net peer service bind s in
      let (maps, total) =
        configure_peers_lem q rest s' (add_peer_tunnel-HasMaps net peer service bind s h) in
      (maps, omega (arith, total, add_peer_tunnel-wanted q peer service bind s))

  configure_services_lem :
      (q : Spec) (tunnels : List Spec) (s : TunnelState net)
      → HasMaps s
      → HasMaps (configure_services tunnels s)
        × (wanted q net (configure_services tunnels s) ≡ wanted q net s + count q tunnels)
  unfolding configure_services
  configure_services_lem q [] s h = (h, omega arith)
  configure_services_lem q ((service, bind) ∷ rest) s h =
      let s' = add_service_tunnel net service bind s in
      let (maps, total) =
        configure_services_lem q rest s' (add_service_tunnel-HasMaps net service bind s h) in
      (maps, omega (arith, total, add_service_tunnel-wanted q service bind s))

  -- A configured machine waits for each tunnel as often as it is configured, and its maps have
  -- one entry for a key.
  pub configure_lem :
      (q : Spec) (tunnels : List (PeerId × ServiceName × ServiceAddr)) (by_name : List Spec)
      → HasMaps (configure tunnels by_name)
        × (wanted q net (configure tunnels by_name) ≡ count q (specs_of tunnels) + count q by_name)
  unfolding configure
  configure_lem q tunnels by_name =
      let (maps, total) = configure_peers_lem q tunnels (new net) (new-HasMaps net) in
      let (maps', total') =
        configure_services_lem q by_name (configure_peers tunnels (new net)) maps in
      (maps', omega (arith, total, total', new-wanted q))

  module _ ⦃ae : Eq net.Multiaddr⦄ where
    unfoldable pub run :
        List (ℕ × Event net) → TunnelState net → TunnelState net × List (Command net)
    run [] s = (s, [])
    run ((now, e) ∷ history) s =
        let (s', commands) = transition net now s e in
        let (last, later) = run history s' in (last, commands ++ later)

    run-Conserves :
        (q : Spec) (history : List (ℕ × Event net)) (s : TunnelState net)
        → HasMaps s
        → Conserves q net s (run history s)
    unfolding run spawned
    run-Conserves q [] s h = omega arith
    run-Conserves q ((now, e) ∷ history) s h =
        let next = transition net now s e in
        let after = run history next.0 in
        omega (
          arith,
          transition-Conserves q net now s e h,
          run-Conserves q history next.0 (transition-HasMaps net now s e h),
          spawned-append q net next.1 after.1,
        )

    -- Over any history from a configured machine, each tunnel is spawned or still waits, as
    -- often together as it is configured.
    pub run-configure :
        (q : Spec) (tunnels : List (PeerId × ServiceName × ServiceAddr)) (by_name : List Spec)
        (history : List (ℕ × Event net))
        → let result = run history (configure tunnels by_name) in
          wanted q net result.0 + spawned q net result.1
          ≡ count q (specs_of tunnels) + count q by_name
    run-configure q tunnels by_name history =
        let (maps, total) = configure_lem q tunnels by_name in
        omega (arith, total, run-Conserves q history (configure tunnels by_name) maps)
