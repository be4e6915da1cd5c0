-- ===== src/Tests/Runs.antt =====
-- Runs of the loop in src/node/mod.rs at concrete inputs.
use punchgate.Common.{
  ℕ, ◌+◌, ◌≡◌, ◌<◌, ◌==◌, ◌&&◌, not, refl, true, false, Option, none, some, List, [], ◌∷◌, contains,
  if◌then◌else◌, arith, nat_eq, string_eq, Bool-cases,
}
use punchgate.Types.{service_name_eq, spec_eq}
use punchgate.Types as Types
use punchgate.Collections.HashMap.{get}
use punchgate.Net.{ip_addr_eq, v4}
use punchgate.ExternalAddr.{
  extract_public_ip_port, is_valid_external_candidate, is_circuit_addr, has_public_ip,
  needs_external_rewrite,
}
use punchgate.State.Event.{phase_eq}
use punchgate.State.Peer.Machine as PeerMachine
use punchgate.State.Tunnel.Defs as TunnelDefs
use punchgate.State.Tunnel.Defs.{add_service_tunnel}
use punchgate.State.Tunnel.Machine as TunnelMachine
use punchgate.State.Tunnel.Wanted.{spawned, wanted}
use punchgate.Wire.Registries.{is_direct}
use punchgate.Node.Addresses.{AddressCalls, observe}
use punchgate.Node.Addresses.Advertised.{AddressLaws, IsRefreshed, observe_replaces}
use punchgate.Node.Backoff as Backoff
use punchgate.Node.Connections.Defs.{new}
use punchgate.Node.Connections.Registry.{has_direct_connection}
use punchgate.Node.Connections.Reachable as Reachable
use punchgate.Node.Connections.Reachable.{Call}
use punchgate.Node.Loop.Direct.{track_all, is_direct-track_all}
use punchgate.Node.Reconnects.{Reconnects, next_reconnect, on_reconnects_due}
use punchgate.Node.Reconnects.Later.{next_reconnect-on_reconnects_due}
use punchgate.Node.Turn.{LoopCalls, Arm, LoopState}
use punchgate.Node.Turn as Turn
use punchgate.Node.Turn.Keeps.{LoopLaws}
use punchgate.Node.Run.{run}
use punchgate.Node.Run.Shutdown.{IsEnding, run_until_shutdown}
use punchgate.Node.Start.{NodeConfig, Configured, bootstrap_peer_ids, initial, start}
use punchgate.Node.Start.Books.{run_books}
use punchgate.Node.Translate.Answers.{
  answers, answers_service, answers_peer, service_asked, peer_asked,
}
use punchgate.Node.Translate.Swarm as Swarms
use punchgate.Node.Execute.Asked.{asks, asks_service, asks_peer}
use punchgate.Tests.Parsing.{tallies}
use punchgate.Tests.Runtime.{counting, counting-SwarmLaws, json_name}
use punchgate.Tests.Toy.{toy, public_ip, web, local, web_spec}

-- Peer 5 is reached directly, and lost.
abbrev calls : List (Call toy)
calls =
    Reachable.established 5 1 true ∷ Reachable.established 5 2 false ∷ Reachable.closed 5 2 0 ∷ []

is_direct-track_all_example :
    is_direct toy 5 (track_all toy calls (new toy, record { peers = [] })).1
    ≡ has_direct_connection toy 5 (track_all toy calls (new toy, record { peers = [] })).0
is_direct-track_all_example = is_direct-track_all toy calls 5

unfoldable without : ℕ → List ℕ → List ℕ
without a [] = []
without a (b ∷ s) = let rest = without a s in if a == b then rest else b ∷ rest

contains-without :
    (a b : ℕ) (s : List ℕ) → contains b (without a s) ≡ (not (b == a) && contains b s)
unfolding without
contains-without a b [] = ground arith
contains-without a b (c ∷ s) = ground (arith, contains-without a b s)

-- A swarm that lists its external addresses.
abbrev listing : AddressCalls toy
listing = record {
  State = List ℕ;
  add_external_address = λ a s. a ∷ s;
  remove_external_address = without;
  new_external_addr_candidate = λ a s. s;
}

listing-AddressLaws : AddressLaws listing
listing-AddressLaws = record {
  advertised = λ s a. contains a s;
  advertised-add = λ a b s. refl;
  advertised-remove = contains-without;
  advertised-candidate = λ a b s. refl;
}

observe_replaces_example :
    (get (v4 public_ip) (observe toy listing 0 ((v4 public_ip, 7) ∷ [], 7 ∷ 3 ∷ [])).0 ≡ some 0)
    × IsRefreshed toy listing listing-AddressLaws
        (get (v4 public_ip) ((v4 public_ip, 7) ∷ []))
        0
        (7 ∷ 3 ∷ [])
        (observe toy listing 0 ((v4 public_ip, 7) ∷ [], 7 ∷ 3 ∷ [])).1
unfolding is_valid_external_candidate extract_public_ip_port get nat_eq is_circuit_addr
    has_public_ip needs_external_rewrite listing-AddressLaws
observe_replaces_example =
    observe_replaces toy listing listing-AddressLaws 0 ((v4 public_ip, 7) ∷ []) (7 ∷ 3 ∷ [])
      (v4 public_ip) 4001 refl refl

-- Peers 8 and 9 are due at 5; the dial of peer 9 fails at once.
abbrev due : Reconnects toy
due = record { backoff = Backoff.new toy ((8, 0) ∷ (9, 1) ∷ []); pending = (8, 4) ∷ (9, 5) ∷ [] }

next_reconnect-on_reconnects_due_example : 5 < 1_000_000_005
unfolding next_reconnect on_reconnects_due Backoff.new get nat_eq
next_reconnect-on_reconnects_due_example =
    next_reconnect-on_reconnects_due toy {State = ℕ} (λ addr s. (addr == 0, s)) 5 due 0
      1_000_000_005 (λ peer. omega arith) ((refl, (refl, tt))) refl

-- The counting swarm, for the loop.
abbrev quiet : LoopCalls counting
quiet = record {
  is_connected = λ s peer. false;
  close_connection = λ id s. s;
  dial_addr = λ addr s. (true, s);
  add_external_address = λ a s. s;
  remove_external_address = λ a s. s;
  new_external_addr_candidate = λ a s. s;
}

quiet-LoopLaws : LoopLaws counting-SwarmLaws quiet
quiet-LoopLaws = record {
  close_keep = λ id s q h. h;
  dial_addr_keep = λ a s q h. h;
  add_external_keep = λ a s q h. h;
  remove_external_keep = λ a s q h. h;
  candidate_keep = λ a s q h. h;
}

-- A tunnel to the service `web`, with no bootstrap peer.
abbrev config : NodeConfig toy
config = record {
  bootstrap_addrs = [];
  exposed = [];
  tunnel_specs = [];
  tunnel_by_name_specs = record { service_name = web; bind_addr = local } ∷ [];
}

abbrev State : Type 0
State = Configured toy counting quiet tallies json_name config

-- A provider is found and reached, and the user stops the node.
abbrev arms : List (ℕ × Arm toy ℕ)
arms =
    (
      2,
      Turn.swarm_event
          (Turn.other (
            Swarms.behaviour (
              Swarms.kademlia (
                Swarms.outbound_query_progressed 0
                  (Swarms.get_providers (Swarms.found_providers (5 ∷ []))) true))))
          none,
    )
    ∷ (3, Turn.swarm_event (Turn.established 5 1 (Swarms.dialer 0)) none)
    ∷ (4, Turn.shutdown_signal)
    ∷ []

or_initial : Option State → State
or_initial none = initial toy counting quiet tallies json_name config Types.unknown 0
or_initial (some s) = s

started : State
unfolding start or_initial
started = or_initial (start toy counting quiet tallies json_name config 0 Types.unknown 0)

stopped : State
unfolding started run or_initial
stopped = or_initial (run toy counting quiet tallies json_name [] [] arms started)

node_starts : start toy counting quiet tallies json_name config 0 Types.unknown 0 ≡ some started
unfolding started nat_eq PeerMachine.transition phase_eq TunnelMachine.transition add_service_tunnel
    TunnelDefs.new
node_starts = refl

node_stops : run toy counting quiet tallies json_name [] [] arms started ≡ some stopped
unfolding stopped nat_eq service_name_eq phase_eq spec_eq PeerMachine.transition
    TunnelMachine.transition add_service_tunnel TunnelDefs.new string_eq Bool-cases
node_stops = refl

run_books_example :
    (service_asked toy web stopped.ctx.queries
        + answers toy (answers_service toy web) stopped.translated
      ≡ asks toy (asks_service toy web) stopped.carried_out)
    × (peer_asked toy 5 stopped.ctx.queries + answers toy (answers_peer toy 5) stopped.translated
        ≡ asks toy (asks_peer toy 5) stopped.carried_out)
    × (wanted web_spec toy stopped.machines.app.tunnel + spawned web_spec toy stopped.carried_out
        ≡ 1)
unfolding bootstrap_peer_ids spec_eq Types.ServiceName-discrete string_eq Bool-cases
    Types.ServiceAddr-discrete nat_eq
run_books_example =
    run_books toy counting quiet tallies json_name config counting-SwarmLaws quiet-LoopLaws web 5
      web_spec 0 Types.unknown 0 arms started stopped node_starts node_stops

run_until_shutdown_example :
    (run toy counting quiet tallies json_name [] []
        ((3, Turn.discovery_deadline) ∷ (4, Turn.shutdown_signal) ∷ (9, Turn.reconnects_due) ∷ [])
        started
      ≡ run toy counting quiet tallies json_name [] []
          ((3, Turn.discovery_deadline) ∷ (4, Turn.shutdown_signal) ∷ [])
          started)
    × IsEnding toy counting quiet tallies json_name [] [] (
        run toy counting quiet tallies json_name [] []
          ((3, Turn.discovery_deadline) ∷ (4, Turn.shutdown_signal) ∷ (9, Turn.reconnects_due) ∷ [])
          started)
run_until_shutdown_example =
    run_until_shutdown toy counting quiet tallies json_name [] [] 4
      ((3, Turn.discovery_deadline) ∷ []) ((9, Turn.reconnects_due) ∷ []) started
