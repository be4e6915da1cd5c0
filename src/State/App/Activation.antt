-- ===== src/State/App/Activation.antt =====
-- What a node asks for when it becomes ready (src/state/app.rs): the change of phase of the peer
-- machine reaches the tunnel machine in the same step.
use punchgate.Common.{
  ℕ, ◌≡◌, refl, Bool, true, false, string_eq, ◌||◌, ◌⊎◌, ◌&&◌, List, [], ◌∷◌, ◌++◌, map, arith, Eq,
  ◌==◌,
}
use punchgate.Net.{Libp2p}
use punchgate.Collections.HashMap.{HashMap, contains_key, get, keys}
use punchgate.Types.{ServiceName, service_name_eq, for_service}
use punchgate.State.Event.{Event, Phase, ready, phase_eq, phase_changed}
use punchgate.State.Command.{Command, publish_services, dht_lookup_peer, dht_get_providers}
use punchgate.State.Peer.Machine
use punchgate.State.Tunnel.Defs.{TunnelState}
use punchgate.State.Tunnel.Machine as TunnelMachine
use punchgate.State.Tunnel.Machine.{on_phase_ready}
use punchgate.State.Tunnel.Routing.{get_providers_command}
use punchgate.State.App.Machine.{AppState, bridge, run_tunnel, transition}

-- Whether the services are published.
unfoldable pub publishes : {net : Libp2p} → List (Command net) → Bool
publishes [] = false
publishes (publish_services ∷ _) = true
publishes (_ ∷ commands) = publishes commands

module _ (net : Libp2p) ⦃pe : Eq net.PeerId⦄ where
  open net use {PeerId}

  -- Whether a peer is looked up in the DHT.
  unfoldable pub looks_up : PeerId → List (Command net) → Bool
  looks_up peer [] = false
  looks_up peer (dht_lookup_peer q ∷ commands) = q == peer || looks_up peer commands
  looks_up peer (_ ∷ commands) = looks_up peer commands

  publishes-append :
      (xs ys : List (Command net)) → publishes (xs ++ ys) ≡ (publishes xs || publishes ys)
  unfolding publishes
  publishes-append [] ys = refl
  publishes-append (publish_services ∷ xs) ys = refl
  publishes-append (_ ∷ xs) ys = publishes-append xs ys

  looks_up-append :
      (peer : PeerId) (xs ys : List (Command net))
      → looks_up peer (xs ++ ys) ≡ (looks_up peer xs || looks_up peer ys)
  unfolding looks_up
  looks_up-append peer [] ys = refl
  looks_up-append peer (dht_lookup_peer q ∷ xs) ys = ground (arith, looks_up-append peer xs ys)
  looks_up-append peer (_ ∷ xs) ys = looks_up-append peer xs ys

  looks_up-keys :
      {V : Type 0} (peer : PeerId) (m : HashMap PeerId V)
      → contains_key peer m ≡ true
      → looks_up peer (map dht_lookup_peer (keys m)) ≡ true
  unfolding looks_up get
  looks_up-keys peer [] h = ground arith
  looks_up-keys peer ((k, v) ∷ m) h = ground (arith, looks_up-keys peer m)

  -- Whether the providers of a service are asked for, under the service's key.
  unfoldable pub asks_providers : ServiceName → List (Command net) → Bool
  asks_providers service [] = false
  asks_providers service (dht_get_providers name key ∷ commands) =
      (name == service && key.text == (for_service service).text) || asks_providers service commands
  asks_providers service (_ ∷ commands) = asks_providers service commands

  asks_providers-append :
      (service : ServiceName) (xs ys : List (Command net))
      → asks_providers service (xs ++ ys) ≡ (asks_providers service xs || asks_providers service ys)
  unfolding asks_providers
  asks_providers-append service [] ys = refl
  asks_providers-append service (dht_get_providers name key ∷ xs) ys =
      ground (arith, asks_providers-append service xs ys)
  asks_providers-append service (_ ∷ xs) ys = asks_providers-append service xs ys

  asks_providers-keys :
      {V : Type 0} (service : ServiceName) (m : HashMap ServiceName V)
      → contains_key service m ≡ true
      → asks_providers service (map (get_providers_command net) (keys m)) ≡ true
  unfolding asks_providers get
  asks_providers-keys service [] h = ground arith
  asks_providers-keys service ((k, v) ∷ m) h = ground (arith, asks_providers-keys service m)

  on_phase_ready-looks_up :
      (peer : PeerId) (s : TunnelState net)
      → contains_key peer s.pending_by_peer ≡ true
      → looks_up peer (on_phase_ready net s) ≡ true
  unfolding on_phase_ready looks_up
  on_phase_ready-looks_up peer s h = ground (
    arith,
    looks_up-append peer (map dht_lookup_peer (keys s.pending_by_peer))
        (map (get_providers_command net) (keys s.pending_by_service)),
    looks_up-keys peer s.pending_by_peer h,
  )

  on_phase_ready-asks_providers :
      (service : ServiceName) (s : TunnelState net)
      → contains_key service s.pending_by_service ≡ true
      → asks_providers service (on_phase_ready net s) ≡ true
  unfolding on_phase_ready asks_providers
  on_phase_ready-asks_providers service s h = ground (
    arith,
    asks_providers-append service (map dht_lookup_peer (keys s.pending_by_peer))
        (map (get_providers_command net) (keys s.pending_by_service)),
    asks_providers-keys service s.pending_by_service h,
  )

  on_phase_ready-publishes : (s : TunnelState net) → publishes (on_phase_ready net s) ≡ true
  unfolding on_phase_ready publishes
  on_phase_ready-publishes s = refl

  -- What the middle one of three lists of commands asks for, the whole does.
  published :
      (xs ys zs : List (Command net)) → publishes ys ≡ true → publishes (xs ++ (ys ++ zs)) ≡ true
  published xs ys zs h = ground (arith, publishes-append xs (ys ++ zs), publishes-append ys zs, h)

  looked_up :
      (peer : PeerId) (xs ys zs : List (Command net))
      → looks_up peer ys ≡ true
      → looks_up peer (xs ++ (ys ++ zs)) ≡ true
  looked_up peer xs ys zs h =
      ground (arith, looks_up-append peer xs (ys ++ zs), looks_up-append peer ys zs, h)

  asked :
      (service : ServiceName) (xs ys zs : List (Command net))
      → asks_providers service ys ≡ true
      → asks_providers service (xs ++ (ys ++ zs)) ≡ true
  asked service xs ys zs h =
      ground
        (arith, asks_providers-append service xs (ys ++ zs), asks_providers-append service ys zs, h)

  module _ ⦃ae : Eq net.Multiaddr⦄ where
    bridge-ready :
        (old new : Phase)
        → (old == ready) ≡ false
        → new ≡ ready
        → bridge net old new ≡ phase_changed old ready ∷ []
    unfolding bridge
    bridge-ready old new h r = ground arith

    -- The commands of a step that makes the node ready.
    ready_commands :
        (now : ℕ) (app : AppState net) (e : Event net)
        → (app.peer.phase == ready) ≡ false
        → (Machine.transition net app.peer e).0.phase ≡ ready
        → (transition net now app e).1
          ≡ (Machine.transition net app.peer e).1
            ++ (on_phase_ready net app.tunnel ++ (run_tunnel net now app.tunnel (e ∷ [])).1)
    unfolding transition run_tunnel TunnelMachine.transition
    ready_commands now app e h r =
        let new = (Machine.transition net app.peer e).0.phase in
        rw (bridge-ready app.peer.phase new h r) refl

    -- The step in which a node becomes ready publishes its services, whether a tunnel waits or
    -- not; any peer and any service that tunnels wait for then is looked up, or its providers
    -- asked for.
    pub ready_activates :
        (now : ℕ) (app : AppState net) (e : Event net) (peer : PeerId) (service : ServiceName)
        → (app.peer.phase == ready) ≡ false
        → (transition net now app e).0.peer.phase ≡ ready
        → (publishes (transition net now app e).1 ≡ true)
          × ((contains_key peer app.tunnel.pending_by_peer ≡ false)
              ⊎ (looks_up peer (transition net now app e).1 ≡ true))
          × ((contains_key service app.tunnel.pending_by_service ≡ false)
              ⊎ (asks_providers service (transition net now app e).1 ≡ true))
    unfolding transition
    ready_activates now app e peer service h r =
        let xs = (Machine.transition net app.peer e).1 in
        let ys = on_phase_ready net app.tunnel in
        let zs = (run_tunnel net now app.tunnel (e ∷ [])).1 in
        rw (ready_commands now app e h r) (
          ground (
            arith,
            published xs ys zs (on_phase_ready-publishes app.tunnel),
            looked_up peer xs ys zs,
            on_phase_ready-looks_up peer app.tunnel,
            asked service xs ys zs,
            on_phase_ready-asks_providers service app.tunnel,
          ))
