-- ===== src/Node/Start/Books.antt =====
-- The books of a configured node, over any run of its loop.
use punchgate.Common.{
  ℕ, ◌+◌, ◌≡◌, refl, Option, some, String, List, map, count, arith, Eq, Result, subst,
}
use punchgate.Net.{Libp2p}
use punchgate.Types.{ServiceName, Spec, spec_eq, NatMapping}
use punchgate.Collections.HashMap.{get}
use punchgate.Collections.Weight.{weight}
use punchgate.State.Tunnel.Defs.{TunnelState, set_nat_mapping}
use punchgate.State.Tunnel.Runs.{configure, configure_lem, specs_of}
use punchgate.State.Tunnel.Wanted.{spawned, wanted, HasMaps}
use punchgate.Specs.Addr.{IpText}
use punchgate.Node.Translate.Answers.{
  answers, answers_service, answers_peer, service_asked, peer_asked,
}
use punchgate.Node.Execute.{Swarm}
use punchgate.Node.Execute.QueryIds.{SwarmLaws}
use punchgate.Node.Execute.Asked.{asks, asks_service, asks_peer}
use punchgate.Node.Loop.{feed}
use punchgate.Node.Loop.Conserved.{feed-IsKept}
use punchgate.Node.Turn.{LoopCalls, Arm}
use punchgate.Node.Turn.Keeps.{LoopLaws}
use punchgate.Node.Turn.Balance.{IsBalanced, IsBalancedAfter, moved-IsBalanced}
use punchgate.Node.Run.{run}
use punchgate.Node.Run.Balance.{run-Balanced}
use punchgate.Node.Start.{
  NodeConfig, peer_spec, name_spec, initial_nat_mapping, bootstrap_peer_ids, Configured, initial,
  first_event, start,
}

module _ (net : Libp2p) ⦃pe : Eq net.PeerId⦄ ⦃ae : Eq net.Multiaddr⦄ {QueryId Handle : Type 0}
    ⦃qe : Eq QueryId⦄ (swarm : Swarm net QueryId Handle) (loop : LoopCalls swarm) (ip : IpText)
    (name_to_vec : ServiceName → Result String (List ℕ)) (config : NodeConfig net)
    (laws : SwarmLaws swarm) (loop_laws : LoopLaws laws loop) (n : ServiceName) (p : net.PeerId)
    (q : Spec) where
  -- How often the tunnel is configured.
  abbrev pub configured : ℕ
  configured =
      count q (specs_of net (map peer_spec config.tunnel_specs))
      + count q (map name_spec config.tunnel_by_name_specs)

  abbrev Node : Type 0
  Node = Configured net swarm loop ip name_to_vec config

  abbrev Balanced : Node → Type 0
  Balanced =
      IsBalanced net swarm loop ip name_to_vec config.exposed (bootstrap_peer_ids net config) laws
        loop_laws n p q configured

  abbrev BalancedAfter : Option Node → Type 0
  BalancedAfter =
      IsBalancedAfter net swarm loop ip name_to_vec config.exposed (bootstrap_peer_ids net config)
        laws loop_laws n p q configured

  set_nat_mapping-HasMaps :
      (mapping : NatMapping) (s : TunnelState net)
      → HasMaps s
      → HasMaps (set_nat_mapping net mapping s)
  unfolding set_nat_mapping
  set_nat_mapping-HasMaps mapping s h = record {
    pending_by_peer = h.pending_by_peer;
    pending_by_service = h.pending_by_service;
    awaiting_holepunch = h.awaiting_holepunch;
  }

  initial-Balanced :
      (probed : NatMapping) (sw : swarm.State)
      → Balanced (initial net swarm loop ip name_to_vec config probed sw)
  unfolding initial set_nat_mapping weight get spawned
  initial-Balanced probed sw =
      let (maps, total) =
        configure_lem net q (map peer_spec config.tunnel_specs)
          (map name_spec config.tunnel_by_name_specs) in
      record {
        services = refl;
        peers = refl;
        tunnels = omega (arith, total);
        maps =
            set_nat_mapping-HasMaps (initial_nat_mapping net config probed)
              (configure net (map peer_spec config.tunnel_specs)
                (map name_spec config.tunnel_by_name_specs))
              maps;
        query_maps = (tt, tt);
        issued = λ id e. (refl, refl);
      }

  start-Balanced :
      (now : ℕ) (probed : NatMapping) (sw : swarm.State)
      → BalancedAfter (start net swarm loop ip name_to_vec config now probed sw)
  unfolding start
  start-Balanced now probed sw =
      let s = initial net swarm loop ip name_to_vec config probed sw in
      let h = initial-Balanced probed sw in
      let event = first_event net swarm loop ip name_to_vec config in
      moved-IsBalanced net swarm loop ip name_to_vec config.exposed (bootstrap_peer_ids net config)
        laws loop_laws n p q configured now s (feed net now event s.machines) h
        (feed-IsKept q net now event s.machines h.maps)

  -- The books of a node: over any run of its loop from the start, whatever the swarm reports and
  -- in whatever order the arms fire, where no registration panics, each query for a service or a
  -- peer that a command asked for is still open or was answered, once, and each tunnel is
  -- spawned or still waits, as often together as it is configured.
  pub run_books :
      (now : ℕ) (probed : NatMapping) (sw : swarm.State) (arms : List (ℕ × Arm net QueryId))
      (s t : Node)
      → start net swarm loop ip name_to_vec config now probed sw ≡ some s
      → run net swarm loop ip name_to_vec config.exposed (bootstrap_peer_ids net config) arms s
        ≡ some t
      → (service_asked net n t.ctx.queries + answers net (answers_service net n) t.translated
          ≡ asks net (asks_service net n) t.carried_out)
        × (peer_asked net p t.ctx.queries + answers net (answers_peer net p) t.translated
            ≡ asks net (asks_peer net p) t.carried_out)
        × (wanted q net t.machines.app.tunnel + spawned q net t.carried_out ≡ configured)
  run_books now probed sw arms s t e f =
      let h = subst BalancedAfter e (start-Balanced now probed sw) in
      let k = subst BalancedAfter f (
        run-Balanced net swarm loop ip name_to_vec config.exposed (bootstrap_peer_ids net config)
          laws loop_laws n p q configured arms s h) in
      (k.services, k.peers, k.tunnels)
