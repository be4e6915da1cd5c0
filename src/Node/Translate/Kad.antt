-- ===== src/Node/Translate/Kad.antt =====
-- The answers of Kademlia in src/node/translate.rs, and the tables of open queries.
use punchgate.Common.{
  ◌==◌, Bool, true, false, ◌&&◌, Option, none, some, String, List, [], ◌∷◌, map, is_empty, Eq,
  if◌then◌else◌,
}
use punchgate.Net.{Libp2p}
use punchgate.Types.{ServiceName}
use punchgate.Collections.HashMap.{HashMap, get, contains_key, remove}
use punchgate.Collections.Sort.{sort_by}
use punchgate.State.Event as StateEvent
use punchgate.State.Event.{Event}
use punchgate.State.Tunnel.Addresses.{text_le}
use punchgate.Node.Translate.Swarm as Swarm
use punchgate.Node.Translate.Swarm.{KadEvent, QueryResult, GetProvidersResult}

-- `kad_tunnel_queries` and `kad_service_queries`, which the translation changes.
pub record Queries (net : Libp2p) (QueryId : Type 0) : Type 0 where
  pub tunnels : HashMap QueryId net.PeerId
  pub services : HashMap QueryId ServiceName

abbrev pub no_providers_found : String
no_providers_found = "no providers found"

module _ (net : Libp2p) where
  open net use {PeerId, peer_string}

  -- The comparison of `provider_candidates.sort_by`: connected first, then by text.
  abbrev pub provider_le : PeerId × Bool → PeerId × Bool → Bool
  provider_le (a_peer, a_connected) (b_peer, b_connected) =
      if a_connected
      then (if b_connected then text_le (peer_string a_peer) (peer_string b_peer) else true)
      else (if b_connected then false else text_le (peer_string a_peer) (peer_string b_peer))

  unfoldable pub provider_candidates : (PeerId → Bool) → List PeerId → List (PeerId × Bool)
  unfolding sort_by
  provider_candidates is_connected providers =
      sort_by provider_le (map (λ provider. (provider, is_connected provider)) providers)

  -- The events for a service whose providers were asked for.
  unfoldable pub provider_events :
      (PeerId → Bool) → ServiceName → GetProvidersResult net → List (Event net)
  unfolding provider_candidates
  provider_events is_connected service_name (Swarm.found_providers providers) =
      let candidates = provider_candidates is_connected providers in
      if is_empty candidates
      then StateEvent.dht_service_failed service_name no_providers_found ∷ []
      else StateEvent.dht_service_resolved service_name candidates ∷ []
  provider_events is_connected service_name Swarm.finished_with_no_additional_record =
      StateEvent.dht_service_failed service_name no_providers_found ∷ []
  provider_events is_connected service_name (Swarm.get_providers_error e) =
      StateEvent.dht_service_failed service_name e ∷ []

  module _ {QueryId : Type 0} ⦃qe : Eq QueryId⦄ where
    unfoldable pub is_active_bootstrap_result : QueryId → Option QueryId → Bool → Bool
    is_active_bootstrap_result event_id none step_last = false
    is_active_bootstrap_result event_id (some active) step_last = active == event_id && step_last

    -- Every branch of the source removes the query before it looks at the name.
    unfoldable pub translate_get_providers :
        (PeerId → Bool)
        → QueryId
        → GetProvidersResult net
        → Queries net QueryId
        → List (Event net) × Queries net QueryId
    unfolding get remove provider_events
    translate_get_providers is_connected id result queries = elim (get id queries.services) [
      | some service_name ↦ (
        provider_events is_connected service_name result,
        record { tunnels = queries.tunnels; services = remove id queries.services },
      )
      | none ↦ ([], queries)
    ]

    -- The arms of `translate_behaviour_event` for `kad::Event`.
    unfoldable pub translate_kad_event :
        Option QueryId
        → (PeerId → Bool)
        → KadEvent net QueryId
        → Queries net QueryId
        → List (Event net) × Queries net QueryId
    unfolding get remove is_active_bootstrap_result translate_get_providers
    translate_kad_event active is_connected
          (Swarm.outbound_query_progressed id (Swarm.bootstrap none) last) queries =
        if is_active_bootstrap_result id active last
        then (StateEvent.kademlia_bootstrap_ok ∷ [], queries)
        else ([], queries)
    translate_kad_event active is_connected
          (Swarm.outbound_query_progressed id (Swarm.bootstrap (some e)) last) queries =
        if is_active_bootstrap_result id active last
        then (StateEvent.kademlia_bootstrap_failed e ∷ [], queries)
        else ([], queries)
    translate_kad_event active is_connected
          (Swarm.outbound_query_progressed id Swarm.get_closest_peers true) queries =
        elim (get id queries.tunnels) [
          | some target_peer ↦ (
            StateEvent.dht_peer_lookup_complete target_peer (is_connected target_peer) ∷ [],
            record { tunnels = remove id queries.tunnels; services = queries.services },
          )
          | none ↦ ([], queries)
        ]
    translate_kad_event active is_connected
          (Swarm.outbound_query_progressed id (Swarm.get_providers result) last) queries =
        if contains_key id queries.services
        then translate_get_providers is_connected id result queries
        else ([], queries)
    translate_kad_event active is_connected _ queries = ([], queries)
