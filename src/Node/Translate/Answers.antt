-- ===== src/Node/Translate/Answers.antt =====
-- Every open query of src/node/translate.rs is answered once, and its entry is then gone.
use punchgate.Common.{
  ℕ, ◌+◌, ◌≡◌, ◌==◌, Bool, true, false, Option, none, some, List, [], ◌∷◌, ◌++◌, arith, Eq, if_rule,
  contains, ◌&&◌, not, String,
}
use punchgate.Specs.Text.{contains_text}
use punchgate.Net.{Libp2p}
use punchgate.Types.{ServiceName, service_name_eq}
use punchgate.Collections.HashMap.{get, IsMap, remove-IsMap, is_some}
use punchgate.Collections.HashSet.{HashSet}
use punchgate.Collections.Weight.{weight, weight-remove}
use punchgate.State.Event.{
  Event, dht_peer_lookup_complete, dht_service_resolved, dht_service_failed,
}
use punchgate.Node.Translate.{
  relay_failure, dial_failure, extract_relay_peer_from_addrs, translate_behaviour_event,
  translate_swarm_event,
}
use punchgate.Node.Translate.Kad.{Queries, translate_get_providers, translate_kad_event}
use punchgate.Node.Translate.Swarm as Swarm
use punchgate.Node.Translate.Swarm.{
  SwarmEvent, BehaviourEvent, KadEvent, GetProvidersResult, get_remote_address,
}

-- 1 where the test holds.
abbrev pub one_if : Bool → ℕ
one_if true = 1
one_if false = 0

-- One turn of the loop: what libp2p reports, with the query of the bootstrap and the connected
-- peers at that time.
pub record Turn (net : Libp2p) (QueryId : Type 0) : Type 0 where
  pub event : SwarmEvent net QueryId
  pub active_bootstrap_query : Option QueryId
  pub is_connected : net.PeerId → Bool

module _ (net : Libp2p) ⦃pe : Eq net.PeerId⦄ where
  open net use {PeerId, Multiaddr}

  -- Whether the event answers a query for the service, and for the peer.
  abbrev pub answers_service : ServiceName → Event net → ℕ
  answers_service n (dht_service_resolved name providers) = one_if (name == n)
  answers_service n (dht_service_failed name reason) = one_if (name == n)
  answers_service n _ = 0

  abbrev pub answers_peer : PeerId → Event net → ℕ
  answers_peer p (dht_peer_lookup_complete peer connected) = one_if (peer == p)
  answers_peer p _ = 0

  abbrev pub answers : (Event net → ℕ) → List (Event net) → ℕ
  answers f [] = 0
  answers f (e ∷ es) = f e + answers f es

  pub answers-append :
      (f : Event net → ℕ) (xs ys : List (Event net))
      → answers f (xs ++ ys) ≡ answers f xs + answers f ys
  answers-append f [] ys = omega arith
  answers-append f (e ∷ xs) ys = omega (arith, answers-append f xs ys)

  module _ {QueryId : Type 0} ⦃qe : Eq QueryId⦄ where
    -- How many of the open queries ask for the service, and for the peer.
    abbrev pub service_asked : ServiceName → Queries net QueryId → ℕ
    service_asked n queries = weight (λ id name. one_if (name == n)) queries.services

    abbrev pub peer_asked : PeerId → Queries net QueryId → ℕ
    peer_asked p queries = weight (λ id peer. one_if (peer == p)) queries.tunnels

    -- What a step returns answers as many queries, for a service and for a peer, as it closes.
    abbrev pub IsAnswered :
        ServiceName → PeerId → Queries net QueryId → List (Event net) × Queries net QueryId → Type 0
    IsAnswered n p queries step =
        (answers (answers_service n) step.0 + service_asked n step.1 ≡ service_asked n queries)
        × (answers (answers_peer p) step.0 + peer_asked p step.1 ≡ peer_asked p queries)

    abbrev pub AreMaps : Queries net QueryId → Type 0
    AreMaps queries = IsMap queries.tunnels × IsMap queries.services

    module _ (n : ServiceName) (p : PeerId) where
      translate_get_providers-IsAnswered :
          (is_connected : PeerId → Bool) (id : QueryId) (result : GetProvidersResult net)
          (queries : Queries net QueryId)
          → AreMaps queries
          → IsAnswered n p queries (translate_get_providers net is_connected id result queries)
      unfolding translate_get_providers
      translate_get_providers-IsAnswered is_connected id result queries h =
          ground (arith, weight-remove (λ i name. one_if (name == n)) id queries.services h.1)

      translate_kad_event-IsAnswered :
          (active : Option QueryId) (is_connected : PeerId → Bool) (event : KadEvent net QueryId)
          (queries : Queries net QueryId)
          → AreMaps queries
          → IsAnswered n p queries (translate_kad_event net active is_connected event queries)
      unfolding translate_kad_event
      translate_kad_event-IsAnswered active is_connected
            (Swarm.outbound_query_progressed id (Swarm.bootstrap none) last) queries h =
          ground arith
      translate_kad_event-IsAnswered active is_connected
            (Swarm.outbound_query_progressed id (Swarm.bootstrap (some e)) last) queries h =
          ground arith
      translate_kad_event-IsAnswered active is_connected
            (Swarm.outbound_query_progressed id Swarm.get_closest_peers true) queries h =
          ground (arith, weight-remove (λ i peer. one_if (peer == p)) id queries.tunnels h.0)
      translate_kad_event-IsAnswered active is_connected
            (Swarm.outbound_query_progressed id Swarm.get_closest_peers false) queries h =
          ground arith
      translate_kad_event-IsAnswered active is_connected
            (Swarm.outbound_query_progressed id (Swarm.get_providers result) last) queries h =
          if_rule (IsAnswered n p queries) (is_some (get id queries.services))
            (translate_get_providers-IsAnswered is_connected id result queries h)
            (omega arith, omega arith)
      translate_kad_event-IsAnswered active is_connected
            (Swarm.outbound_query_progressed id Swarm.other_result last) queries h =
          ground arith
      translate_kad_event-IsAnswered active is_connected Swarm.other_kad_event queries h =
          ground arith

      translate_behaviour_event-IsAnswered :
          (active : Option QueryId) (is_connected : PeerId → Bool)
          (event : BehaviourEvent net QueryId) (queries : Queries net QueryId)
          → AreMaps queries
          → IsAnswered n p queries (translate_behaviour_event net active is_connected event queries)
      unfolding translate_behaviour_event
      translate_behaviour_event-IsAnswered active is_connected (Swarm.kademlia event) queries h =
          translate_kad_event-IsAnswered active is_connected event queries h
      translate_behaviour_event-IsAnswered active is_connected (Swarm.dcutr peer none) queries h =
          (omega arith, omega arith)
      translate_behaviour_event-IsAnswered active is_connected (Swarm.dcutr peer (some e)) queries
            h =
          (omega arith, omega arith)
      translate_behaviour_event-IsAnswered active is_connected event queries h =
          (omega arith, omega arith)

      relay_failure-IsAnswered :
          (reason : Option String) (peer : Option PeerId) (queries : Queries net QueryId)
          → IsAnswered n p queries (relay_failure net reason peer, queries)
      unfolding relay_failure
      relay_failure-IsAnswered (some reason) (some peer) queries = (omega arith, omega arith)
      relay_failure-IsAnswered (some reason) none queries = (omega arith, omega arith)
      relay_failure-IsAnswered none peer queries = (omega arith, omega arith)

      dial_failure-IsAnswered :
          (bootstrap_peers : HashSet PeerId) (peer : Option PeerId) (error : String)
          (queries : Queries net QueryId)
          → IsAnswered n p queries (dial_failure net bootstrap_peers peer error, queries)
      unfolding dial_failure
      dial_failure-IsAnswered bootstrap_peers none error queries = (omega arith, omega arith)
      dial_failure-IsAnswered bootstrap_peers (some peer) error queries =
          if_rule (λ (es : List (Event net)). IsAnswered n p queries (es, queries))
            (not (contains peer bootstrap_peers) && not (contains_text "local peer id" error))
            (omega arith, omega arith) (omega arith, omega arith)

      -- Each event that libp2p reports.
      pub translate_swarm_event-IsAnswered :
          (event : SwarmEvent net QueryId) (bootstrap_peers : HashSet PeerId)
          (active : Option QueryId) (is_connected : PeerId → Bool) (queries : Queries net QueryId)
          → AreMaps queries
          → IsAnswered n p queries
              (translate_swarm_event net event bootstrap_peers active is_connected queries)
      unfolding translate_swarm_event
      translate_swarm_event-IsAnswered (Swarm.connection_established peer endpoint) bootstrap_peers
            active is_connected queries h =
          ground arith
      translate_swarm_event-IsAnswered (Swarm.behaviour event) bootstrap_peers active is_connected
            queries h =
          translate_behaviour_event-IsAnswered active is_connected event queries h
      translate_swarm_event-IsAnswered (Swarm.listener_closed reason addresses) bootstrap_peers
            active is_connected queries h =
          relay_failure-IsAnswered reason (extract_relay_peer_from_addrs net addresses) queries
      translate_swarm_event-IsAnswered (Swarm.outgoing_connection_error peer error) bootstrap_peers
            active is_connected queries h =
          dial_failure-IsAnswered bootstrap_peers peer error queries
      translate_swarm_event-IsAnswered event bootstrap_peers active is_connected queries h =
          (omega arith, omega arith)

    -- The tables stay maps: only `remove` changes them.
    translate_kad_event-AreMaps :
        (active : Option QueryId) (is_connected : PeerId → Bool) (event : KadEvent net QueryId)
        (queries : Queries net QueryId)
        → AreMaps queries
        → AreMaps (translate_kad_event net active is_connected event queries).1
    unfolding translate_kad_event
    translate_kad_event-AreMaps active is_connected (Swarm.outbound_query_progressed id result last)
          queries h =
        ground (arith, remove-IsMap id queries.tunnels h.0, remove-IsMap id queries.services h.1)
    translate_kad_event-AreMaps active is_connected Swarm.other_kad_event queries h = h

    translate_behaviour_event-AreMaps :
        (active : Option QueryId) (is_connected : PeerId → Bool)
        (event : BehaviourEvent net QueryId) (queries : Queries net QueryId)
        → AreMaps queries
        → AreMaps (translate_behaviour_event net active is_connected event queries).1
    unfolding translate_behaviour_event
    translate_behaviour_event-AreMaps active is_connected (Swarm.kademlia event) queries h =
        translate_kad_event-AreMaps active is_connected event queries h
    translate_behaviour_event-AreMaps active is_connected (Swarm.dcutr peer none) queries h = h
    translate_behaviour_event-AreMaps active is_connected (Swarm.dcutr peer (some e)) queries h = h
    translate_behaviour_event-AreMaps active is_connected event queries h = h

    pub translate_swarm_event-AreMaps :
        (event : SwarmEvent net QueryId) (bootstrap_peers : HashSet PeerId)
        (active : Option QueryId) (is_connected : PeerId → Bool) (queries : Queries net QueryId)
        → AreMaps queries
        → AreMaps (translate_swarm_event net event bootstrap_peers active is_connected queries).1
    unfolding translate_swarm_event
    translate_swarm_event-AreMaps (Swarm.behaviour event) bootstrap_peers active is_connected
          queries h =
        translate_behaviour_event-AreMaps active is_connected event queries h
    translate_swarm_event-AreMaps event bootstrap_peers active is_connected queries h = h

    unfoldable pub translate_all :
        HashSet PeerId
        → List (Turn net QueryId)
        → Queries net QueryId
        → List (Event net) × Queries net QueryId
    unfolding translate_swarm_event
    translate_all bootstrap_peers [] queries = ([], queries)
    translate_all bootstrap_peers (turn ∷ turns) queries =
        let (events, left) =
          translate_swarm_event net turn.event bootstrap_peers turn.active_bootstrap_query
            turn.is_connected queries in
        let (later, last) = translate_all bootstrap_peers turns left in (events ++ later, last)

    -- Over any turns of the loop, the answers for a service and for a peer, with the queries
    -- still open for them, are as many as the queries that were open: none is lost or
    -- answered twice.
    pub translate_all-IsAnswered :
        (n : ServiceName) (p : PeerId) (bootstrap_peers : HashSet PeerId)
        (turns : List (Turn net QueryId)) (queries : Queries net QueryId)
        → AreMaps queries
        → IsAnswered n p queries (translate_all bootstrap_peers turns queries)
    unfolding translate_all
    translate_all-IsAnswered n p bootstrap_peers [] queries h = (omega arith, omega arith)
    translate_all-IsAnswered n p bootstrap_peers (turn ∷ turns) queries h =
        let step =
          translate_swarm_event net turn.event bootstrap_peers turn.active_bootstrap_query
            turn.is_connected queries in
        let one =
          translate_swarm_event-IsAnswered n p turn.event bootstrap_peers
            turn.active_bootstrap_query turn.is_connected queries h in
        let rest = translate_all-IsAnswered n p bootstrap_peers turns step.1 (
          translate_swarm_event-AreMaps turn.event bootstrap_peers turn.active_bootstrap_query
            turn.is_connected queries h) in
        let later = (translate_all bootstrap_peers turns step.1).0 in
        (
          omega (arith, one.0, rest.0, answers-append (answers_service n) step.0 later),
          omega (arith, one.1, rest.1, answers-append (answers_peer p) step.0 later),
        )
