-- ===== src/State/Tunnel/Reroute.antt =====
-- `reroute_specs_after_dial_failure` and `DhtServiceResolved` of src/state/tunnel.rs keep every
-- tunnel: each round of their loops moves one spec.
use punchgate.Common.{
  ℕ, ◌+◌, ◌≡◌, refl, Bool, true, false, Option, none, some, List, [], ◌∷◌, map, count, arith, Eq,
  Option-cases, inl, inr,
}
use punchgate.Net.{Libp2p}
use punchgate.Types.{ServiceName, service_name_eq, ServiceAddr, Spec, spec_eq}
use punchgate.Collections.HashMap
use punchgate.Collections.HashMap.{HashMap, get_or, get, IsMap}
use punchgate.Collections.Weight.{weight, weight-insert, weight-remove}
use punchgate.State.Tunnel.Defs.{TunnelState, extend_entry}
use punchgate.State.Tunnel.Routing.{
  specs_for, Reroute, assign, assign_all, reassign_all, reroute_specs,
  reroute_specs_after_dial_failure, next_fallback_provider, get_providers_command,
  route_to_provider, resolve_service, on_dht_service_resolved,
}
use punchgate.State.Tunnel.Wanted.{
  in_service, at_services, in_entry, at_peers, at_services-extend_entry, at_peers-extend_entry,
  spawned, spawned-append, spawned-spawn_all, spawned-get_providers, wanted, Conserves, HasMaps,
}

module _ (q : Spec) (net : Libp2p) ⦃pe : Eq net.PeerId⦄ where
  open net use {PeerId}

  -- What the loop has placed.
  abbrev placed : Reroute net → ℕ
  placed r = at_services q r.by_service + at_peers q r.reassign_to_peer

  assign-placed :
      (spec : Spec) (choice : HashMap ServiceName (List PeerId) × Option PeerId) (r : Reroute net)
      → placed (assign net spec choice r) ≡ placed r + count q (spec ∷ [])
  unfolding assign
  assign-placed spec (candidates, some next_peer) r =
      omega (arith, at_peers-extend_entry q next_peer (spec ∷ []) r.reassign_to_peer)
  assign-placed (service, bind) (candidates, none) r =
      omega (arith, at_services-extend_entry q service (bind ∷ []) r.by_service)

  assign_all-placed :
      (peer : PeerId) (specs : List Spec) (r : Reroute net)
      → placed (assign_all net peer specs r) ≡ placed r + count q specs
  unfolding assign_all
  assign_all-placed peer [] r = omega arith
  assign_all-placed peer (spec ∷ rest) r =
      let choice = next_fallback_provider net spec.0 peer r.candidates in
      omega
        (arith, assign-placed spec choice r, assign_all-placed peer rest (assign net spec choice r))

  reassign_all-at_peers :
      (moved pending : HashMap PeerId (List Spec))
      → at_peers q (reassign_all net moved pending).0 ≡ at_peers q pending + at_peers q moved
  unfolding reassign_all weight
  reassign_all-at_peers [] pending = omega arith
  reassign_all-at_peers ((peer, specs) ∷ rest) pending = omega (
    arith,
    at_peers-extend_entry q peer specs pending,
    reassign_all-at_peers rest (extend_entry peer specs pending),
  )

  reassign_all-spawned :
      (moved pending : HashMap PeerId (List Spec))
      → spawned q net (reassign_all net moved pending).1 ≡ 0
  unfolding reassign_all spawned
  reassign_all-spawned [] pending = refl
  reassign_all-spawned ((peer, specs) ∷ rest) pending = reassign_all-spawned rest _

  reroute_specs-Conserves :
      (peer : PeerId) (specs : List Spec) (s : TunnelState net)
      → HasMaps s
      → get peer s.pending_by_peer ≡ some specs
      → Conserves q net s (reroute_specs net peer specs s)
  unfolding reroute_specs weight
  reroute_specs-Conserves peer specs s h e =
      let start : Reroute net = record {
        candidates = s.service_provider_candidates;
        by_service = s.pending_by_service;
        reassign_to_peer = [];
        refresh_services = [];
      } in
      let r = assign_all net peer specs start in
      let pending = HashMap.remove peer s.pending_by_peer in
      let moved = reassign_all net r.reassign_to_peer pending in
      ground (
        arith,
        weight-remove (in_entry q) peer s.pending_by_peer h.pending_by_peer,
        assign_all-placed peer specs start,
        reassign_all-at_peers r.reassign_to_peer pending,
        reassign_all-spawned r.reassign_to_peer pending,
        spawned-append q net moved.1 (map (get_providers_command net) r.refresh_services),
        spawned-get_providers q net r.refresh_services,
      )

  pub reroute-Conserves :
      (peer : PeerId) (s : TunnelState net)
      → HasMaps s
      → Conserves q net s (reroute_specs_after_dial_failure net peer s)
  unfolding reroute_specs_after_dial_failure spawned
  reroute-Conserves peer s h = elim (Option-cases (get peer s.pending_by_peer)) [
    | inl e ↦ rw (e, reroute_specs_after_dial_failure) (omega arith)
    | inr (specs, e) ↦
        rw (e, reroute_specs_after_dial_failure) (reroute_specs-Conserves peer specs s h e)
  ]

  route_to_provider-Conserves :
      (provider : PeerId) (connected : Bool) (specs : List Spec) (s : TunnelState net)
      → wanted q net (route_to_provider net provider connected specs s).0
          + spawned q net (route_to_provider net provider connected specs s).1
        ≡ wanted q net s + count q specs
  unfolding route_to_provider spawned
  route_to_provider-Conserves provider true specs s = ground (
    arith,
    at_peers-extend_entry q provider specs s.awaiting_holepunch,
    spawned-spawn_all q net provider specs,
  )
  route_to_provider-Conserves provider false specs s =
      ground (arith, at_peers-extend_entry q provider specs s.pending_by_peer)

  resolve_service-Conserves :
      (service : ServiceName) (binds : List ServiceAddr) (providers : List (PeerId × Bool))
      (s : TunnelState net)
      → get service s.pending_by_service ≡ none
      → wanted q net (resolve_service net service binds providers s).0
          + spawned q net (resolve_service net service binds providers s).1
        ≡ wanted q net s + count q (specs_for service binds)
  unfolding resolve_service spawned
  resolve_service-Conserves service binds [] s h =
      ground (arith, weight-insert (in_service q) service binds s.pending_by_service)
  resolve_service-Conserves service binds ((provider, connected) ∷ rest) s h =
      route_to_provider-Conserves provider connected (specs_for service binds) _

  pub on_dht_service_resolved-Conserves :
      (service : ServiceName) (providers : List (PeerId × Bool)) (s : TunnelState net)
      → HasMaps s
      → Conserves q net s (on_dht_service_resolved net service providers s)
  unfolding on_dht_service_resolved spawned
  on_dht_service_resolved-Conserves service providers s h =
      elim (Option-cases (get service s.pending_by_service)) [
        | inl e ↦ rw (e, on_dht_service_resolved) (omega arith)
        | inr (binds, e) ↦
            let s' = record s {
              pending_by_service = HashMap.remove service s.pending_by_service;
            } in
            rw (e, on_dht_service_resolved)
              (ground (
                arith,
                weight-remove (in_service q) service s.pending_by_service h.pending_by_service,
                HashMap.get-remove service service s.pending_by_service,
                resolve_service-Conserves service binds providers s',
              ))
      ]
