-- ===== src/Node/Execute/Asked.antt =====
-- Every lookup that the machines ask for opens one query of src/node/execute.rs.
use punchgate.Common.{
  ℕ, ◌+◌, ◌≡◌, ◌==◌, true, false, Option, Option-cases, Bool-cases, if_neg, sym, ◌∙◌, none, some,
  inl, inr, String, List, [], ◌∷◌, arith, Eq, Result, ok, err, subst,
}
use mathlib.Core.Bool.{false≢true}
use punchgate.Net.{Libp2p}
use punchgate.Types.{ServiceName, service_name_eq, for_service}
use punchgate.Collections.HashMap.{HashMap, get, insert, get-insert, insert-IsMap}
use punchgate.Collections.Weight.{weight, weight-insert}
use punchgate.State.Command.{Command}
use punchgate.Node.Execute.{
  Swarm, ExecutionContext, publish_service, publish_services, registered, execute_command,
  execute_commands, dht_record_ttl,
}
use punchgate.Node.Execute.QueryIds.{Keeps, SwarmLaws}
use punchgate.Node.Translate.Kad.{Queries}
use punchgate.Node.Translate.Answers.{one_if, service_asked, peer_asked, AreMaps}
use punchgate.Specs.Addr.{IpText}
use punchgate.Specs.Named.{ExposedService}
use punchgate.Wire.Registries.{TunnelRegistry}

module _ (net : Libp2p) ⦃pe : Eq net.PeerId⦄ where
  open net use {PeerId}

  -- Whether the command asks for the service, and for the peer.
  abbrev pub asks_service : ServiceName → Command net → ℕ
  asks_service n (Command.dht_get_providers name key) = one_if (name == n)
  asks_service n _ = 0

  abbrev pub asks_peer : PeerId → Command net → ℕ
  asks_peer p (Command.dht_lookup_peer peer) = one_if (peer == p)
  asks_peer p _ = 0

  abbrev pub asks : (Command net → ℕ) → List (Command net) → ℕ
  asks f [] = 0
  asks f (cmd ∷ cmds) = f cmd + asks f cmds

module _ (net : Libp2p) ⦃pe : Eq net.PeerId⦄ {QueryId Handle : Type 0} ⦃qe : Eq QueryId⦄
    (swarm : Swarm net QueryId Handle) (laws : SwarmLaws swarm) where
  open net use {PeerId}
  open swarm use {State}
  open laws use {issued}

  -- Every open query was given by the swarm.
  abbrev pub AreIssued : State → Queries net QueryId → Type 0
  AreIssued s queries =
      (q : QueryId)
      → issued s q ≡ false
      → (get q queries.tunnels ≡ none) × (get q queries.services ≡ none)

  weight-insert_fresh :
      {V : Type 0} (w : QueryId → V → ℕ) (id : QueryId) (v : V) (m : HashMap QueryId V)
      → get id m ≡ none
      → weight w (insert id v m) ≡ weight w m + w id v
  weight-insert_fresh w id v m e = ground (arith, weight-insert w id v m, e)

  -- No query that was not given is open, behind a step and behind a new query.
  closed-keep :
      {V : Type 0} (m : HashMap QueryId V) (s t : State)
      → Keeps issued s t
      → ((q : QueryId) → issued s q ≡ false → get q m ≡ none)
      → (q : QueryId) → issued t q ≡ false
      → get q m ≡ none
  closed-keep m s t k h q e = elim (Bool-cases (issued s q)) [
    | inl f ↦ absurd (ground (arith, k q f, e))
    | inr f ↦ h q f
  ]

  closed-insert :
      {V : Type 0} (m : HashMap QueryId V) (id : QueryId) (v : V) (s t : State)
      → Keeps issued s t
      → issued t id ≡ true
      → ((q : QueryId) → issued s q ≡ false → get q m ≡ none)
      → (q : QueryId) → issued t q ≡ false
      → get q (insert id v m) ≡ none
  closed-insert m id v s t k g h q e = elim (qe.dec id q) [
    | yes same ↦ absurd (false≢true (sym e ∙ subst (λ x. issued t x ≡ true) same g))
    | no other ↦ get-insert id q v m ∙ if_neg (qe.dec id q) other _ _ ∙ closed-keep m s t k h q e
  ]

  pub AreIssued-Keeps :
      (s t : State) (queries : Queries net QueryId)
      → Keeps issued s t
      → AreIssued s queries
      → AreIssued t queries
  AreIssued-Keeps s t queries k h q e = (
    closed-keep queries.tunnels s t k (λ r f. (h r f).0) q e,
    closed-keep queries.services s t k (λ r f. (h r f).1) q e,
  )

  -- The step asks as many queries as the commands ask for, and keeps the tables in order.
  abbrev pub IsAsked :
      ServiceName
      → PeerId
      → ℕ
      → ℕ
      → Queries net QueryId
      → Option (State × ExecutionContext net QueryId Handle)
      → Type 0
  IsAsked n p services peers queries none = Unit {0}
  IsAsked n p services peers queries (some (s, ctx)) =
      (service_asked net n ctx.queries ≡ service_asked net n queries + services)
      × (peer_asked net p ctx.queries ≡ peer_asked net p queries + peers)
      × AreMaps net ctx.queries
      × AreIssued s ctx.queries

  module _ (ip : IpText) (name_to_vec : ServiceName → Result String (List ℕ)) (now : ℕ)
      (exposed : List ExposedService) (n : ServiceName) (p : PeerId) where
    put_last :
        (name : ServiceName) (r : Result String (List ℕ)) (s t : State)
        → Keeps issued s t
        → Keeps issued s (elim r [
          | ok metadata ↦
              swarm.put_record
                (for_service name)
                metadata
                (swarm.local_peer_id s)
                (now + dht_record_ttl)
                t
          | err e ↦ t
        ])
    put_last name (ok metadata) s t k q e =
        laws.put_keep (for_service name) metadata (swarm.local_peer_id s) (now + dht_record_ttl) t q
          (k q e)
    put_last name (err why) s t k q e = k q e

    publish_service-Keeps :
        (name : ServiceName) (s : State)
        → Keeps issued s (publish_service net swarm ip name_to_vec now name s)
    unfolding publish_service
    publish_service-Keeps name s =
        put_last name (name_to_vec name) s (swarm.start_providing (for_service name) s)
          (laws.start_keep (for_service name) s)

    publish_services-Keeps :
        (svcs : List ExposedService) (s : State)
        → Keeps issued s (publish_services net swarm ip name_to_vec now svcs s)
    unfolding publish_services
    publish_services-Keeps [] s q e = e
    publish_services-Keeps (svc ∷ rest) s q e =
        publish_services-Keeps rest (publish_service net swarm ip name_to_vec now svc.name s) q
          (publish_service-Keeps svc.name s q e)

    registered-IsAsked :
        (o : Option (ℕ × TunnelRegistry Handle)) (s t : State)
        (ctx : ExecutionContext net QueryId Handle)
        → Keeps issued s t
        → AreMaps net ctx.queries
        → AreIssued s ctx.queries
        → IsAsked n p 0 0 ctx.queries (registered net swarm ip name_to_vec now o t ctx)
    unfolding registered
    registered-IsAsked none s t ctx k m h = tt
    registered-IsAsked (some (id, registry)) s t ctx k m h =
        (omega arith, omega arith, m, AreIssued-Keeps s t ctx.queries k h)

    execute_command-IsAsked :
        (cmd : Command net) (s : State) (ctx : ExecutionContext net QueryId Handle)
        → AreMaps net ctx.queries
        → AreIssued s ctx.queries
        → IsAsked n p
            (asks_service net n cmd)
            (asks_peer net p cmd)
            ctx.queries
            (execute_command net swarm ip name_to_vec now exposed cmd s ctx)
    unfolding execute_command
    execute_command-IsAsked Command.kademlia_bootstrap s ctx m h =
        (omega arith, omega arith, m, AreIssued-Keeps s _ ctx.queries (laws.bootstrap_keep s) h)
    execute_command-IsAsked (Command.kademlia_add_address peer addr) s ctx m h =
        (omega arith, omega arith, m, AreIssued-Keeps s _ ctx.queries (laws.add_keep peer addr s) h)
    execute_command-IsAsked (Command.request_relay_reservation peer addr) s ctx m h =
        (omega arith, omega arith, m, AreIssued-Keeps s _ ctx.queries (laws.listen_keep _ s) h)
    execute_command-IsAsked Command.publish_services s ctx m h = (
      omega arith,
      omega arith,
      m,
      AreIssued-Keeps s _ ctx.queries (publish_services-Keeps exposed s) h,
    )
    execute_command-IsAsked Command.shutdown s ctx m h = (omega arith, omega arith, m, h)
    execute_command-IsAsked (Command.dht_lookup_peer peer) s ctx m h =
        let id = (swarm.get_closest_peers peer s).0 in
        let t = (swarm.get_closest_peers peer s).1 in
        let fresh = (h id (laws.peers_new peer s)).0 in
        let k = laws.peers_keep peer s in
        (
          omega arith,
          weight-insert_fresh (λ i v. one_if (v == p)) id peer ctx.queries.tunnels fresh,
          (insert-IsMap id peer ctx.queries.tunnels m.0, m.1),
          λ q e. (
            closed-insert ctx.queries.tunnels id peer s t k (laws.peers_given peer s)
                (λ r f. (h r f).0) q e,
            closed-keep ctx.queries.services s t k (λ r f. (h r f).1) q e,
          ),
        )
    execute_command-IsAsked (Command.dht_get_providers name key) s ctx m h =
        let id = (swarm.get_providers key s).0 in
        let t = (swarm.get_providers key s).1 in
        let fresh = (h id (laws.providers_new key s)).1 in
        let k = laws.providers_keep key s in
        (
          weight-insert_fresh (λ i v. one_if (v == n)) id name ctx.queries.services fresh,
          omega arith,
          (m.0, insert-IsMap id name ctx.queries.services m.1),
          λ q e. (
            closed-keep ctx.queries.tunnels s t k (λ r f. (h r f).0) q e,
            closed-insert ctx.queries.services id name s t k (laws.providers_given key s)
                (λ r f. (h r f).1) q e,
          ),
        )
    execute_command-IsAsked (Command.dial_peer peer) s ctx m h =
        (omega arith, omega arith, m, AreIssued-Keeps s _ ctx.queries (laws.dial_keep peer [] s) h)
    execute_command-IsAsked (Command.dial_peer_with_addrs peer addrs attempt_id) s ctx m h = (
      omega arith,
      omega arith,
      m,
      AreIssued-Keeps s _ ctx.queries (laws.dial_keep peer addrs s) h,
    )
    execute_command-IsAsked (Command.disconnect_peer peer) s ctx m h = (
      omega arith,
      omega arith,
      m,
      AreIssued-Keeps s _ ctx.queries (laws.disconnect_keep peer s) h,
    )
    execute_command-IsAsked (Command.spawn_tunnel peer service bind) s ctx m h =
        registered-IsAsked _ s _ ctx (laws.spawn_keep peer service bind s) m h

    add-IsAsked :
        (a b c d : ℕ) (queries : Queries net QueryId) (ctx : ExecutionContext net QueryId Handle)
        (o : Option (State × ExecutionContext net QueryId Handle))
        → service_asked net n ctx.queries ≡ service_asked net n queries + a
        → peer_asked net p ctx.queries ≡ peer_asked net p queries + b
        → IsAsked n p c d ctx.queries o
        → IsAsked n p (a + c) (b + d) queries o
    add-IsAsked a b c d queries ctx none f g h = tt
    add-IsAsked a b c d queries ctx (some (s, done)) f g (i, j, m, k) =
        (omega (arith, f, i), omega (arith, g, j), m, k)

    commands-IsAsked :
        (cmds : List (Command net)) (s : State) (ctx : ExecutionContext net QueryId Handle)
        → AreMaps net ctx.queries
        → AreIssued s ctx.queries
        → IsAsked n p
            (asks net (asks_service net n) cmds)
            (asks net (asks_peer net p) cmds)
            ctx.queries
            (execute_commands net swarm ip name_to_vec now exposed cmds s ctx)
    unfolding execute_commands
    commands-IsAsked [] s ctx m h = (omega arith, omega arith, m, h)
    commands-IsAsked (cmd ∷ cmds) s ctx m h =
        let one = execute_command-IsAsked cmd s ctx m h in
        elim (Option-cases (execute_command net swarm ip name_to_vec now exposed cmd s ctx)) [
          | inl e ↦ rw (IsAsked, e) tt
          | inr (next, e) ↦
              let (f, g, i, j) =
                subst (IsAsked n p (asks_service net n cmd) (asks_peer net p cmd) ctx.queries) e
                  one in
              rw (IsAsked, e)
                (add-IsAsked (asks_service net n cmd) (asks_peer net p cmd)
                  (asks net (asks_service net n) cmds) (asks net (asks_peer net p) cmds) ctx.queries
                  next.1 (execute_commands net swarm ip name_to_vec now exposed cmds next.0 next.1)
                  f g (commands-IsAsked cmds next.0 next.1 i j))
        ]

    -- Commands that are carried out open one query for each lookup that they ask for, for a
    -- service and for a peer, and none that is open twice: the tables stay maps, and hold only
    -- ids that the swarm gave.
    pub execute_commands-IsAsked :
        (cmds : List (Command net)) (s t : State) (ctx done : ExecutionContext net QueryId Handle)
        → AreMaps net ctx.queries
        → AreIssued s ctx.queries
        → execute_commands net swarm ip name_to_vec now exposed cmds s ctx ≡ some (t, done)
        → (service_asked net n done.queries
            ≡ service_asked net n ctx.queries + asks net (asks_service net n) cmds)
          × (peer_asked net p done.queries
              ≡ peer_asked net p ctx.queries + asks net (asks_peer net p) cmds)
          × AreMaps net done.queries
          × AreIssued t done.queries
    execute_commands-IsAsked cmds s t ctx done m h e =
        subst
          (IsAsked n p (asks net (asks_service net n) cmds) (asks net (asks_peer net p) cmds)
            ctx.queries)
          e (commands-IsAsked cmds s ctx m h)
