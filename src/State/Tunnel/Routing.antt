-- ===== src/State/Tunnel/Routing.antt =====
-- The routing of wanted tunnels in src/state/tunnel.rs: to a connected peer, from a service name
-- to a provider, and away from a provider that cannot be dialled.
use punchgate.Common.{
  Bool, true, false, not, Option, none, some, List, [], ◌∷◌, ◌++◌, map, is_empty, contains, Eq,
  ◌==◌, if◌then◌else◌,
}
use punchgate.Net.{Libp2p}
use punchgate.Types.{ServiceName, service_name_eq, ServiceAddr, Spec, for_service}
use punchgate.Collections.HashMap
use punchgate.Collections.HashMap.{HashMap, get_or, contains_key, keys}
use punchgate.Collections.HashSet
use punchgate.Collections.HashSet.{HashSet}
use punchgate.State.Command.{Command, dht_lookup_peer, dht_get_providers, dial_peer}
use punchgate.State.Tunnel.Defs.{TunnelState, extend_entry}
use punchgate.State.Tunnel.Dedup.{dedup_peers, dedup_provider_candidates}
use punchgate.State.Tunnel.HolePunch.{spawn_all}

-- The specs of one service.
abbrev pub specs_for : ServiceName → List ServiceAddr → List Spec
specs_for service_name = map (λ addr. (service_name, addr))

module _ (net : Libp2p) where
  abbrev pub get_providers_command : ServiceName → Command net
  get_providers_command service_name = dht_get_providers service_name (for_service service_name)

  unfoldable pub initiate_lookups : TunnelState net → List (Command net)
  unfolding for_service
  initiate_lookups s =
      map dht_lookup_peer (keys s.pending_by_peer)
      ++ map get_providers_command (keys s.pending_by_service)

module _ (net : Libp2p) ⦃pe : Eq net.PeerId⦄ where
  open net use {PeerId}

  abbrev pub Candidates : Type 0
  Candidates = HashMap ServiceName (List PeerId)

  unfoldable pub store_provider_candidates : ServiceName → List PeerId → Candidates → Candidates
  unfolding dedup_peers
  store_provider_candidates service_name providers candidates =
      let providers' = dedup_peers net providers in
      if is_empty providers'
      then HashMap.remove service_name candidates
      else HashMap.insert service_name providers' candidates

  -- The `while let` loop of `next_fallback_provider`: the provider taken, and those behind it.
  unfoldable pub next_other : PeerId → List PeerId → Option (PeerId × List PeerId)
  next_other exclude_peer [] = none
  next_other exclude_peer (next_peer ∷ rest) =
      let later = next_other exclude_peer rest in
      if not (next_peer == exclude_peer) then some (next_peer, rest) else later

  -- What is left of the candidates of a service, and the provider to try.
  unfoldable pub take_other :
      ServiceName → Option (PeerId × List PeerId) → Candidates → Candidates × Option PeerId
  take_other service_name none candidates = (HashMap.remove service_name candidates, none)
  take_other service_name (some (next_peer, rest)) candidates = (
    if is_empty rest
        then HashMap.remove service_name candidates
        else HashMap.insert service_name rest candidates,
    some next_peer,
  )

  unfoldable pub next_fallback_provider :
      ServiceName → PeerId → Candidates → Candidates × Option PeerId
  unfolding next_other take_other
  next_fallback_provider service_name exclude_peer candidates =
      elim (HashMap.get service_name candidates) [
        | none ↦ (candidates, none)
        | some providers ↦ take_other service_name (next_other exclude_peer providers) candidates
      ]

  unfoldable pub queue_for_direct : PeerId → List Spec → TunnelState net → TunnelState net
  queue_for_direct peer specs s = record s {
    awaiting_holepunch = extend_entry peer specs s.awaiting_holepunch;
  }

  unfoldable pub route_connected_peer :
      PeerId → List Spec → TunnelState net → TunnelState net × List (Command net)
  unfolding queue_for_direct
  route_connected_peer peer specs s =
      if contains peer s.relayed_peers
      then (queue_for_direct peer specs s, [])
      else (s, spawn_all net peer specs)

-- The variables of the loops in `reroute_specs_after_dial_failure`.
pub record Reroute (net : Libp2p) : Type 0 where
  pub candidates : HashMap ServiceName (List net.PeerId)
  pub by_service : HashMap ServiceName (List ServiceAddr)
  pub reassign_to_peer : HashMap net.PeerId (List Spec)
  pub refresh_services : HashSet ServiceName

module _ (net : Libp2p) ⦃pe : Eq net.PeerId⦄ where
  open net use {PeerId}

  -- One round of the first loop, after the call of `next_fallback_provider`.
  unfoldable pub assign :
      Spec → HashMap ServiceName (List PeerId) × Option PeerId → Reroute net → Reroute net
  assign spec (candidates', some next_peer) r = record r {
    candidates = candidates';
    reassign_to_peer = extend_entry next_peer (spec ∷ []) r.reassign_to_peer;
  }
  assign (service_name, bind_addr) (candidates', none) r = record r {
    candidates = candidates';
    by_service = extend_entry service_name (bind_addr ∷ []) r.by_service;
    refresh_services = HashSet.insert service_name r.refresh_services;
  }

  unfoldable pub assign_all : PeerId → List Spec → Reroute net → Reroute net
  unfolding assign next_fallback_provider
  assign_all peer [] r = r
  assign_all peer (spec ∷ rest) r =
      assign_all peer rest (assign spec (next_fallback_provider net spec.0 peer r.candidates) r)

  -- The second loop.
  unfoldable pub reassign_all :
      HashMap PeerId (List Spec)
      → HashMap PeerId (List Spec)
      → HashMap PeerId (List Spec) × List (Command net)
  reassign_all [] pending = (pending, [])
  reassign_all ((next_peer, next_specs) ∷ rest) pending =
      let (pending', commands) = reassign_all rest (extend_entry next_peer next_specs pending) in
      (pending', dht_lookup_peer next_peer ∷ commands)

  unfoldable pub reroute_specs :
      PeerId → List Spec → TunnelState net → TunnelState net × List (Command net)
  unfolding assign_all reassign_all
  reroute_specs peer specs s =
      let start : Reroute net = record {
        candidates = s.service_provider_candidates;
        by_service = s.pending_by_service;
        reassign_to_peer = [];
        refresh_services = [];
      } in
      let r = assign_all peer specs start in
      let (pending, commands) =
        reassign_all r.reassign_to_peer (HashMap.remove peer s.pending_by_peer) in
      (
        record s {
          pending_by_peer = pending;
          pending_by_service = r.by_service;
          service_provider_candidates = r.candidates;
        },
        commands ++ map (get_providers_command net) r.refresh_services,
      )

  unfoldable pub reroute_specs_after_dial_failure :
      PeerId → TunnelState net → TunnelState net × List (Command net)
  unfolding reroute_specs
  reroute_specs_after_dial_failure peer s = elim (HashMap.get peer s.pending_by_peer) [
    | none ↦ (s, [])
    | some specs ↦ reroute_specs peer specs s
  ]

  -- `DhtServiceResolved` once a provider is chosen.
  unfoldable pub route_to_provider :
      PeerId → Bool → List Spec → TunnelState net → TunnelState net × List (Command net)
  unfolding route_connected_peer
  route_to_provider provider true specs s = route_connected_peer net provider specs s
  route_to_provider provider false specs s = (
    record s { pending_by_peer = extend_entry provider specs s.pending_by_peer },
    dht_lookup_peer provider ∷ [],
  )

  -- `providers.remove(0)` and what follows; the list is not empty where the code runs.
  unfoldable pub choose_provider :
      ServiceName
      → List ServiceAddr
      → List (PeerId × Bool)
      → TunnelState net
      → TunnelState net × List (Command net)
  unfolding store_provider_candidates route_to_provider
  choose_provider service_name bind_addrs [] s = (s, [])
  choose_provider service_name bind_addrs ((provider, connected) ∷ providers) s =
      route_to_provider provider connected (specs_for service_name bind_addrs) (record s {
        service_provider_candidates =
            store_provider_candidates net service_name (map (λ p. p.0) providers)
              s.service_provider_candidates;
      })

  -- `DhtServiceResolved` for a service with tunnels that wait; `s` is without its entry.
  unfoldable pub resolve_service :
      ServiceName
      → List ServiceAddr
      → List (PeerId × Bool)
      → TunnelState net
      → TunnelState net × List (Command net)
  unfolding choose_provider dedup_provider_candidates
  resolve_service service_name bind_addrs providers s =
      if is_empty providers
      then (
        record s {
          pending_by_service = HashMap.insert service_name bind_addrs s.pending_by_service;
        },
        get_providers_command net service_name ∷ [],
      )
      else choose_provider service_name bind_addrs (dedup_provider_candidates net providers) s

  unfoldable pub on_dht_service_resolved :
      ServiceName → List (PeerId × Bool) → TunnelState net → TunnelState net × List (Command net)
  unfolding resolve_service
  on_dht_service_resolved service_name providers s =
      elim (HashMap.get service_name s.pending_by_service) [
        | none ↦ (s, [])
        | some bind_addrs ↦
            resolve_service service_name bind_addrs providers
              (record s { pending_by_service = HashMap.remove service_name s.pending_by_service })
      ]

  unfoldable pub on_dht_peer_lookup_complete :
      PeerId → Bool → TunnelState net → TunnelState net × List (Command net)
  unfolding route_connected_peer
  on_dht_peer_lookup_complete peer true s = elim (HashMap.get peer s.pending_by_peer) [
    | none ↦ (s, [])
    | some specs ↦
        route_connected_peer net peer specs
          (record s { pending_by_peer = HashMap.remove peer s.pending_by_peer })
  ]
  on_dht_peer_lookup_complete peer false s =
      (s, if contains_key peer s.pending_by_peer then dial_peer peer ∷ [] else [])
