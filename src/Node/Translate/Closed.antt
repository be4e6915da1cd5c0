-- ===== src/Node/Translate/Closed.antt =====
-- The translation of src/node/translate.rs opens no query.
use punchgate.Common.{◌≡◌, Bool, Option, none, some, arith, Eq}
use punchgate.Net.{Libp2p}
use punchgate.Collections.HashMap.{get, get-remove}
use punchgate.Collections.HashSet.{HashSet}
use punchgate.Node.Translate.{translate_behaviour_event, translate_swarm_event}
use punchgate.Node.Translate.Kad.{Queries, translate_kad_event}
use punchgate.Node.Translate.Swarm as Swarm
use punchgate.Node.Translate.Swarm.{SwarmEvent, BehaviourEvent, KadEvent}

module _ (net : Libp2p) ⦃pe : Eq net.PeerId⦄ {QueryId : Type 0} ⦃qe : Eq QueryId⦄
    (q : QueryId) where
  open net use {PeerId}

  abbrev pub IsClosed : Queries net QueryId → Type 0
  IsClosed queries = (get q queries.tunnels ≡ none) × (get q queries.services ≡ none)

  kad-IsClosed :
      (active : Option QueryId) (is_connected : PeerId → Bool) (event : KadEvent net QueryId)
      (queries : Queries net QueryId)
      → IsClosed queries
      → IsClosed (translate_kad_event net active is_connected event queries).1
  unfolding translate_kad_event
  kad-IsClosed active is_connected (Swarm.outbound_query_progressed id result last) queries h =
      ground (arith, get-remove id q queries.tunnels, get-remove id q queries.services, h)
  kad-IsClosed active is_connected Swarm.other_kad_event queries h = h

  behaviour-IsClosed :
      (active : Option QueryId) (is_connected : PeerId → Bool) (event : BehaviourEvent net QueryId)
      (queries : Queries net QueryId)
      → IsClosed queries
      → IsClosed (translate_behaviour_event net active is_connected event queries).1
  unfolding translate_behaviour_event
  behaviour-IsClosed active is_connected (Swarm.kademlia event) queries h =
      kad-IsClosed active is_connected event queries h
  behaviour-IsClosed active is_connected (Swarm.dcutr peer none) queries h = h
  behaviour-IsClosed active is_connected (Swarm.dcutr peer (some e)) queries h = h
  behaviour-IsClosed active is_connected event queries h = h

  -- A query that is not open is not open behind a report.
  pub translate_swarm_event-IsClosed :
      (event : SwarmEvent net QueryId) (bootstrap_peers : HashSet PeerId) (active : Option QueryId)
      (is_connected : PeerId → Bool) (queries : Queries net QueryId)
      → IsClosed queries
      → IsClosed (translate_swarm_event net event bootstrap_peers active is_connected queries).1
  unfolding translate_swarm_event
  translate_swarm_event-IsClosed (Swarm.behaviour event) bootstrap_peers active is_connected queries
        h =
      behaviour-IsClosed active is_connected event queries h
  translate_swarm_event-IsClosed event bootstrap_peers active is_connected queries h = h
