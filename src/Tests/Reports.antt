-- ===== src/Tests/Reports.antt =====
-- The translation of src/node/translate.rs at concrete inputs.
use punchgate.Common.{ℕ, ◌≡◌, ◌==◌, refl, Bool, true, false, none, some, List, [], ◌∷◌, nat_eq}
use punchgate.Types.{service_name_eq}
use punchgate.Collections.HashMap.{get}
use punchgate.State.Event.{dht_peer_lookup_complete, dht_service_resolved, tunnel_dial_failed}
use punchgate.Node.Translate.{translate_swarm_event}
use punchgate.Node.Translate.Answers.{Turn, translate_all, translate_all-IsAnswered, IsAnswered}
use punchgate.Node.Translate.Justified.{
  AreEventsJustified, translate_swarm_event-AreEventsJustified,
}
use punchgate.Node.Translate.Kad.{Queries}
use punchgate.Node.Translate.Swarm.{
  SwarmEvent, behaviour, kademlia, outbound_query_progressed, get_closest_peers, get_providers,
  found_providers, outgoing_connection_error,
}
use punchgate.Tests.Toy.{toy, web}

-- Peer 3 is connected.
abbrev only_three : ℕ → Bool
only_three p = p == 3

-- Query 1 looks for peer 5, query 2 for the service.
abbrev open_queries : Queries toy ℕ
open_queries = record { tunnels = (1, 5) ∷ []; services = (2, web) ∷ [] }

abbrev lookup_done : SwarmEvent toy ℕ
lookup_done = behaviour (kademlia (outbound_query_progressed 1 get_closest_peers true))

abbrev providers_found : SwarmEvent toy ℕ
providers_found =
    behaviour
      (kademlia (outbound_query_progressed 2 (get_providers (found_providers (4 ∷ 3 ∷ []))) false))

abbrev turn : SwarmEvent toy ℕ → Turn toy ℕ
turn event = record { event = event; active_bootstrap_query = none; is_connected = only_three }

-- Each report comes twice; only the first is answered.
abbrev turns : List (Turn toy ℕ)
turns = turn lookup_done ∷ turn providers_found ∷ turn lookup_done ∷ turn providers_found ∷ []

run_turns :
    (translate_all toy [] turns open_queries).0
    ≡ dht_peer_lookup_complete 5 false ∷ dht_service_resolved web ((3, true) ∷ (4, false) ∷ []) ∷ []
unfolding translate_all nat_eq
run_turns = refl

translate_all-IsAnswered_example :
    IsAnswered toy web 5 open_queries (translate_all toy [] turns open_queries)
unfolding get
translate_all-IsAnswered_example =
    translate_all-IsAnswered toy web 5 [] turns open_queries ((refl, tt), (refl, tt))

translate_swarm_event-AreEventsJustified_example :
    AreEventsJustified toy
      (9 ∷ [])
      none
      only_three
      open_queries
      providers_found
      (translate_swarm_event toy providers_found (9 ∷ []) none only_three open_queries).0
translate_swarm_event-AreEventsJustified_example =
    translate_swarm_event-AreEventsJustified toy (9 ∷ []) none only_three open_queries
      providers_found

dial_fails :
    (translate_swarm_event toy
      (outgoing_connection_error (some 4) "refused")
      (9 ∷ [])
      none
      only_three
      open_queries).0
    ≡ tunnel_dial_failed 4 "refused" ∷ []
unfolding translate_swarm_event nat_eq
dial_fails = refl
