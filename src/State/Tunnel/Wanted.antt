-- ===== src/State/Tunnel/Wanted.antt =====
-- How often a tunnel is wanted: the measure under which no event of src/state/tunnel.rs loses
-- or doubles a tunnel. A spec is counted where it waits for a peer, for a service, or for a
-- direct path, and in the commands where it is spawned.
use punchgate.Common.{ℕ, ◌+◌, ◌≡◌, refl, List, [], ◌∷◌, ◌++◌, map, count, count-append, arith, Eq}
use mathlib.Core.List.{map-append}
use punchgate.Net.{Libp2p}
use punchgate.Types.{ServiceName, service_name_eq, ServiceAddr, Spec, spec_eq}
use punchgate.Collections.HashMap.{HashMap, get_or, get, IsMap}
use punchgate.Collections.Weight.{weight, weight-insert}
use punchgate.State.Command.{Command, spawn_tunnel, dht_lookup_peer}
use punchgate.State.Tunnel.Defs.{TunnelState, extend_entry}
use punchgate.State.Tunnel.HolePunch.{spawn_all}
use punchgate.State.Tunnel.Routing.{specs_for, get_providers_command}

module _ (q : Spec) where
  abbrev pub in_service : ServiceName → List ServiceAddr → ℕ
  in_service service_name binds = count q (specs_for service_name binds)

  abbrev pub at_services : HashMap ServiceName (List ServiceAddr) → ℕ
  at_services = weight in_service

  pub at_services-extend_entry :
      (service_name : ServiceName) (binds : List ServiceAddr)
      (m : HashMap ServiceName (List ServiceAddr))
      → at_services (extend_entry service_name binds m)
        ≡ at_services m + count q (specs_for service_name binds)
  at_services-extend_entry service_name binds m =
      let old = get_or (get service_name m) [] in
      ground (
        arith,
        weight-insert in_service service_name (old ++ binds) m,
        map-append {B = Spec} (λ (addr : ServiceAddr). (service_name, addr)) old binds,
        count-append q (specs_for service_name old) (specs_for service_name binds),
      )

  module _ {K : Type 0} ⦃e : Eq K⦄ where
    abbrev pub in_entry : K → List Spec → ℕ
    in_entry _ specs = count q specs

    abbrev pub at_peers : HashMap K (List Spec) → ℕ
    at_peers = weight in_entry

    pub at_peers-extend_entry :
        (k : K) (specs : List Spec) (m : HashMap K (List Spec))
        → at_peers (extend_entry k specs m) ≡ at_peers m + count q specs
    at_peers-extend_entry k specs m =
        let old = get_or (get k m) [] in
        ground (arith, weight-insert in_entry k (old ++ specs) m, count-append q old specs)

  module _ (net : Libp2p) where
    -- How often the commands spawn the tunnel.
    unfoldable pub spawned : List (Command net) → ℕ
    spawned [] = 0
    spawned (spawn_tunnel _ service bind ∷ commands) =
        count q ((service, bind) ∷ []) + spawned commands
    spawned (_ ∷ commands) = spawned commands

    pub spawned-append : (xs ys : List (Command net)) → spawned (xs ++ ys) ≡ spawned xs + spawned ys
    unfolding spawned
    spawned-append [] ys = omega arith
    spawned-append (spawn_tunnel _ service bind ∷ xs) ys = omega (arith, spawned-append xs ys)
    spawned-append (_ ∷ xs) ys = spawned-append xs ys

    pub spawned-spawn_all :
        (peer : net.PeerId) (specs : List Spec) → spawned (spawn_all net peer specs) ≡ count q specs
    unfolding spawned
    spawned-spawn_all peer [] = refl
    spawned-spawn_all peer (spec ∷ specs) = omega (arith, spawned-spawn_all peer specs)

    pub spawned-lookups : (peers : List net.PeerId) → spawned (map dht_lookup_peer peers) ≡ 0
    unfolding spawned
    spawned-lookups [] = refl
    spawned-lookups (peer ∷ peers) = spawned-lookups peers

    pub spawned-get_providers :
        (services : List ServiceName) → spawned (map (get_providers_command net) services) ≡ 0
    unfolding spawned
    spawned-get_providers [] = refl
    spawned-get_providers (service ∷ services) = spawned-get_providers services

  module _ (net : Libp2p) ⦃pe : Eq net.PeerId⦄ where
    -- How often the tunnel waits in a state.
    abbrev pub wanted : TunnelState net → ℕ
    wanted s =
        at_peers s.pending_by_peer
        + at_services s.pending_by_service
        + at_peers s.awaiting_holepunch

    -- The tunnel is neither lost nor doubled: what waits after a step and what the step spawns
    -- is what waited before.
    abbrev pub Conserves : TunnelState net → TunnelState net × List (Command net) → Type 0
    Conserves s result = wanted result.0 + spawned net result.1 ≡ wanted s

-- The maps that the measure reads have one entry for a key.
pub record HasMaps {net : Libp2p} ⦃pe : Eq net.PeerId⦄ (s : TunnelState net) : Type 0 where
  pub pending_by_peer : IsMap s.pending_by_peer
  pub pending_by_service : IsMap s.pending_by_service
  pub awaiting_holepunch : IsMap s.awaiting_holepunch
