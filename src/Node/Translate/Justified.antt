-- ===== src/Node/Translate/Justified.antt =====
-- Why src/node/translate.rs reports an event: what it takes from libp2p.
use punchgate.Common.{
  ◌≡◌, refl, Bool, true, false, ◌&&◌, not, Option, none, some, String, List, is_empty, Option-cases,
  inl, inr, Eq, arith, contains, if_cases, if_rule, All,
}
use punchgate.Net.{Libp2p}
use punchgate.Types.{ServiceName}
use punchgate.Collections.HashMap.{get, is_some}
use punchgate.Collections.HashSet.{HashSet}
use punchgate.Specs.Text.{contains_text}
use punchgate.State.Event as StateEvent
use punchgate.State.Event.{Event}
use punchgate.Node.Translate.{
  extract_relay_peer_from_addrs, is_relayed, relay_failure, dial_failure, translate_behaviour_event,
  translate_swarm_event, nat_status,
}
use punchgate.Node.Translate.Kad.{
  Queries, no_providers_found, provider_candidates, provider_events, translate_get_providers,
  translate_kad_event, is_active_bootstrap_result,
}
use punchgate.Node.Translate.Swarm as Swarm
use punchgate.Node.Translate.Swarm.{
  SwarmEvent, BehaviourEvent, KadEvent, GetProvidersResult, get_remote_address,
}

module _ (net : Libp2p) ⦃pe : Eq net.PeerId⦄ {QueryId : Type 0} ⦃qe : Eq QueryId⦄ where
  open net use {PeerId, Multiaddr}

  active_lem :
      (id : QueryId) (a : Option QueryId) (last : Bool)
      → is_active_bootstrap_result net id a last ≡ true
      → (a ≡ some id) × (last ≡ true)
  unfolding is_active_bootstrap_result
  active_lem id none last h = absurd (ground (arith, h))
  active_lem id (some a) last h = ground (arith, h)

  module _ (bootstrap_peers : HashSet PeerId) (active : Option QueryId)
      (is_connected : PeerId → Bool) (queries : Queries net QueryId) where
    -- A result with no provider in it, and the reason that is given for it.
    abbrev pub IsFailure : GetProvidersResult net → String → Type 0
    IsFailure (Swarm.found_providers found) reason =
        (is_empty (provider_candidates net is_connected found) ≡ true)
        × (reason ≡ no_providers_found)
    IsFailure Swarm.finished_with_no_additional_record reason = reason ≡ no_providers_found
    IsFailure (Swarm.get_providers_error e) reason = reason ≡ e

    -- What libp2p reported, and what the tables hold, when the translation gives the event.
    abbrev pub IsJustified : SwarmEvent net QueryId → Event net → Type 0
    IsJustified cause (StateEvent.listening_on addr) = cause ≡ Swarm.new_listen_addr addr
    IsJustified cause (StateEvent.bootstrap_connected peer addr) =
        (contains peer bootstrap_peers ≡ true)
        × ((endpoint : Swarm.ConnectedPoint net) × (cause
              ≡ Swarm.connection_established peer endpoint)
            × (addr ≡ get_remote_address net endpoint))
    IsJustified cause (StateEvent.kademlia_bootstrap_ok) =
        (id : QueryId) × (active ≡ some id)
        × (cause
            ≡ Swarm.behaviour
                (Swarm.kademlia (Swarm.outbound_query_progressed id (Swarm.bootstrap none) true)))
    IsJustified cause (StateEvent.kademlia_bootstrap_failed e) =
        (id : QueryId) × (active ≡ some id)
        × (cause
            ≡ Swarm.behaviour (
                Swarm.kademlia
                  (Swarm.outbound_query_progressed id (Swarm.bootstrap (some e)) true)))
    IsJustified cause (StateEvent.mdns_discovered list) =
        cause ≡ Swarm.behaviour (Swarm.discovered list)
    IsJustified cause (StateEvent.mdns_expired list) = cause ≡ Swarm.behaviour (Swarm.expired list)
    IsJustified cause (StateEvent.peer_identified peer listen observed) =
        cause ≡ Swarm.behaviour (Swarm.identify_received peer listen observed)
    IsJustified cause (StateEvent.nat_status_changed status) =
        (new : Swarm.AutonatStatus net) × (status ≡ nat_status net new)
        × (cause ≡ Swarm.behaviour (Swarm.status_changed new))
    IsJustified cause (StateEvent.relay_reservation_accepted peer) =
        cause ≡ Swarm.behaviour (Swarm.reservation_req_accepted peer)
    IsJustified cause (StateEvent.relay_reservation_failed peer reason) =
        (addrs : List Multiaddr) × (cause ≡ Swarm.listener_closed (some reason) addrs)
        × (extract_relay_peer_from_addrs net addrs ≡ some peer)
    IsJustified cause (StateEvent.external_addr_confirmed addr) =
        cause ≡ Swarm.swarm_external_addr_confirmed addr
    IsJustified cause (StateEvent.external_addr_expired addr) =
        cause ≡ Swarm.swarm_external_addr_expired addr
    IsJustified cause (StateEvent.dht_peer_lookup_complete peer connected) =
        (connected ≡ is_connected peer)
        × ((id : QueryId) × (get id queries.tunnels ≡ some peer)
            × (cause
                ≡ Swarm.behaviour (
                    Swarm.kademlia
                      (Swarm.outbound_query_progressed id Swarm.get_closest_peers true))))
    IsJustified cause (StateEvent.dht_service_resolved name providers) =
        (is_empty providers ≡ false)
        × ((id : QueryId) × (last : Bool) × (found : List PeerId) × (get id queries.services
              ≡ some name)
            × (providers ≡ provider_candidates net is_connected found)
            × (cause
                ≡ Swarm.behaviour (
                    Swarm.kademlia (
                      Swarm.outbound_query_progressed id
                        (Swarm.get_providers (Swarm.found_providers found)) last))))
    IsJustified cause (StateEvent.dht_service_failed name reason) =
        (id : QueryId) × (last : Bool) × (result : GetProvidersResult net) × (get id
            queries.services
          ≡ some name)
        × IsFailure result reason
        × (cause
            ≡ Swarm.behaviour (
                Swarm.kademlia
                  (Swarm.outbound_query_progressed id (Swarm.get_providers result) last)))
    IsJustified cause (StateEvent.tunnel_dial_failed peer reason) =
        (cause ≡ Swarm.outgoing_connection_error (some peer) reason)
        × (contains peer bootstrap_peers ≡ false)
        × (contains_text "local peer id" reason ≡ false)
    IsJustified cause (StateEvent.tunnel_peer_connected peer relayed) =
        (endpoint : Swarm.ConnectedPoint net) × (cause ≡ Swarm.connection_established peer endpoint)
        × (relayed ≡ is_relayed net endpoint)
    IsJustified cause (StateEvent.hole_punch_failed peer reason) =
        cause ≡ Swarm.behaviour (Swarm.dcutr peer (some reason))
    -- No other event comes from libp2p.
    IsJustified cause _ = ⊥

    provider_events-IsJustified :
        (id : QueryId) (last : Bool) (name : ServiceName) (result : GetProvidersResult net)
        → get id queries.services ≡ some name
        → All
            (IsJustified (
              Swarm.behaviour (
                Swarm.kademlia
                  (Swarm.outbound_query_progressed id (Swarm.get_providers result) last))))
            (provider_events net is_connected name result)
    unfolding provider_events
    provider_events-IsJustified id last name (Swarm.found_providers found) h =
        let candidates = provider_candidates net is_connected found in
        if_cases
          (All (
            IsJustified (
              Swarm.behaviour (
                Swarm.kademlia (
                  Swarm.outbound_query_progressed id
                    (Swarm.get_providers (Swarm.found_providers found)) last)))))
          (is_empty candidates)
          (λ e. ((id, last, Swarm.found_providers found, h, (e, refl), refl), tt))
          (λ e. ((e, (id, last, found, h, refl, refl)), tt))
    provider_events-IsJustified id last name Swarm.finished_with_no_additional_record h =
        ((id, last, Swarm.finished_with_no_additional_record, h, refl, refl), tt)
    provider_events-IsJustified id last name (Swarm.get_providers_error e) h =
        ((id, last, Swarm.get_providers_error e, h, refl, refl), tt)

    -- The events of a translation of what Kademlia reports.
    abbrev AreJustified : KadEvent net QueryId → List (Event net) × Queries net QueryId → Type 0
    AreJustified event r = All (IsJustified (Swarm.behaviour (Swarm.kademlia event))) r.0

    translate_get_providers-AreJustified :
        (id : QueryId) (last : Bool) (result : GetProvidersResult net)
        → AreJustified
            (Swarm.outbound_query_progressed id (Swarm.get_providers result) last)
            (translate_get_providers net is_connected id result queries)
    unfolding translate_get_providers
    translate_get_providers-AreJustified id last result =
        elim (Option-cases (get id queries.services)) [
          | inl e ↦ rw (All, e) tt
          | inr (name, e) ↦ rw (All, e) (provider_events-IsJustified id last name result e)
        ]

    translate_kad_event-IsJustified :
        (event : KadEvent net QueryId)
        → All
            (IsJustified (Swarm.behaviour (Swarm.kademlia event)))
            (translate_kad_event net active is_connected event queries).0
    unfolding translate_kad_event
    translate_kad_event-IsJustified
          (Swarm.outbound_query_progressed id (Swarm.bootstrap none) last) =
        if_cases (AreJustified (Swarm.outbound_query_progressed id (Swarm.bootstrap none) last))
          (is_active_bootstrap_result net id active last)
          (λ h. let k = active_lem id active last h in ((id, k.0, rw k.1 refl), tt)) (λ _. tt)
    translate_kad_event-IsJustified
          (Swarm.outbound_query_progressed id (Swarm.bootstrap (some e)) last) =
        if_cases (AreJustified (Swarm.outbound_query_progressed id (Swarm.bootstrap (some e)) last))
          (is_active_bootstrap_result net id active last)
          (λ h. let k = active_lem id active last h in ((id, k.0, rw k.1 refl), tt)) (λ _. tt)
    translate_kad_event-IsJustified
          (Swarm.outbound_query_progressed id Swarm.get_closest_peers true) =
        elim (Option-cases (get id queries.tunnels)) [
          | inl e ↦ rw (All, e) tt
          | inr (peer, e) ↦ rw (All, e) ((refl, (id, e, refl)), tt)
        ]
    translate_kad_event-IsJustified
          (Swarm.outbound_query_progressed id Swarm.get_closest_peers false) =
        tt
    translate_kad_event-IsJustified
          (Swarm.outbound_query_progressed id (Swarm.get_providers result) last) =
        if_rule
          (AreJustified (Swarm.outbound_query_progressed id (Swarm.get_providers result) last))
          (is_some (get id queries.services)) (translate_get_providers-AreJustified id last result)
          tt
    translate_kad_event-IsJustified (Swarm.outbound_query_progressed id Swarm.other_result last) =
        tt
    translate_kad_event-IsJustified Swarm.other_kad_event = tt

    translate_behaviour_event-IsJustified :
        (event : BehaviourEvent net QueryId)
        → All
            (IsJustified (Swarm.behaviour event))
            (translate_behaviour_event net active is_connected event queries).0
    unfolding translate_behaviour_event
    translate_behaviour_event-IsJustified (Swarm.kademlia event) =
        translate_kad_event-IsJustified event
    translate_behaviour_event-IsJustified (Swarm.discovered list) = (refl, tt)
    translate_behaviour_event-IsJustified (Swarm.expired list) = (refl, tt)
    translate_behaviour_event-IsJustified (Swarm.identify_received peer listen observed) =
        (refl, tt)
    translate_behaviour_event-IsJustified (Swarm.status_changed new) = ((new, refl, refl), tt)
    translate_behaviour_event-IsJustified (Swarm.reservation_req_accepted peer) = (refl, tt)
    translate_behaviour_event-IsJustified (Swarm.dcutr peer none) = tt
    translate_behaviour_event-IsJustified (Swarm.dcutr peer (some e)) = (refl, tt)
    translate_behaviour_event-IsJustified Swarm.ignored_behaviour = tt

    relay_failure-IsJustified :
        (reason : Option String) (addrs : List Multiaddr)
        → All
            (IsJustified (Swarm.listener_closed reason addrs))
            (relay_failure net reason (extract_relay_peer_from_addrs net addrs))
    unfolding relay_failure
    relay_failure-IsJustified none addrs = tt
    relay_failure-IsJustified (some reason) addrs =
        elim (Option-cases (extract_relay_peer_from_addrs net addrs)) [
          | inl e ↦ rw (All, e) tt
          | inr (peer, e) ↦ rw (All, e) ((addrs, refl, e), tt)
        ]

    both_not : (a b : Bool) → (not a && not b) ≡ true → (a ≡ false) × (b ≡ false)
    both_not a b h = ground (arith, h)

    dial_failure-IsJustified :
        (peer : Option PeerId) (error : String)
        → All
            (IsJustified (Swarm.outgoing_connection_error peer error))
            (dial_failure net bootstrap_peers peer error)
    unfolding dial_failure
    dial_failure-IsJustified none error = tt
    dial_failure-IsJustified (some peer) error =
        if_cases (All (IsJustified (Swarm.outgoing_connection_error (some peer) error)))
          (not (contains peer bootstrap_peers) && not (contains_text "local peer id" error))
          (λ h.
            let k =
              both_not (contains peer bootstrap_peers) (contains_text "local peer id" error) h in
            ((refl, k.0, k.1), tt))
          (λ _. tt)

    -- All the events are justified.
    unfoldable pub AreEventsJustified : SwarmEvent net QueryId → List (Event net) → Type 0
    AreEventsJustified cause events = All (IsJustified cause) events

    -- Every event that the translation gives is for what libp2p reported, with the test of
    -- the source passed: a dial failure counts for a tunnel only where the peer is no
    -- bootstrap peer and the node did not dial itself, an answer only where the query is open, and
    -- a service failed only where its query found no provider, or with the error that it ended in.
    pub translate_swarm_event-AreEventsJustified :
        (event : SwarmEvent net QueryId)
        → AreEventsJustified event
            (translate_swarm_event net event bootstrap_peers active is_connected queries).0
    unfolding translate_swarm_event AreEventsJustified
    translate_swarm_event-AreEventsJustified (Swarm.new_listen_addr address) = (refl, tt)
    translate_swarm_event-AreEventsJustified (Swarm.connection_established peer endpoint) =
        if_cases (All (IsJustified (Swarm.connection_established peer endpoint)))
          (contains peer bootstrap_peers)
          (λ h. ((h, (endpoint, refl, refl)), ((endpoint, refl, refl), tt)))
          (λ _. ((endpoint, refl, refl), tt))
    translate_swarm_event-AreEventsJustified (Swarm.behaviour event) =
        translate_behaviour_event-IsJustified event
    translate_swarm_event-AreEventsJustified Swarm.listener_error = tt
    translate_swarm_event-AreEventsJustified (Swarm.listener_closed reason addrs) =
        relay_failure-IsJustified reason addrs
    translate_swarm_event-AreEventsJustified (Swarm.outgoing_connection_error peer error) =
        dial_failure-IsJustified peer error
    translate_swarm_event-AreEventsJustified (Swarm.swarm_external_addr_confirmed address) =
        (refl, tt)
    translate_swarm_event-AreEventsJustified (Swarm.swarm_external_addr_expired address) =
        (refl, tt)
    translate_swarm_event-AreEventsJustified Swarm.ignored_swarm_event = tt
