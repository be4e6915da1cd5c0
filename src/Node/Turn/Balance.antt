-- ===== src/Node/Turn/Balance.antt =====
-- A turn of the loop keeps the books: the queries that the machines ask for against the answers
-- and the queries still open, and the tunnels that are spawned against those still wanted.
use punchgate.Common.{
  ℕ, ◌+◌, ◌≡◌, refl, sym, subst, Option, Option-cases, none, some, inl, inr, String, List, [], ◌∷◌,
  ◌++◌, arith, Eq, Result, if_rule,
}
use punchgate.Net.{Libp2p}
use punchgate.Types.{ServiceName, Spec, spec_eq}
use punchgate.Collections.HashSet.{HashSet}
use punchgate.State.Event as StateEvent
use punchgate.State.Event.{Event}
use punchgate.State.Command.{Command}
use punchgate.State.Tunnel.Wanted.{spawned, spawned-append, wanted, HasMaps}
use punchgate.Specs.Addr.{IpText}
use punchgate.Specs.Named.{ExposedService}
use punchgate.Node.Translate.Answers.{
  answers, answers_service, answers_peer, service_asked, peer_asked, AreMaps,
}
use punchgate.Node.Connections.Registry.{has_relayed_connection}
use punchgate.Node.Execute.{Swarm, execute_commands}
use punchgate.Node.Execute.QueryIds.{Keeps, SwarmLaws}
use punchgate.Node.Execute.Asked.{
  AreIssued, AreIssued-Keeps, asks, asks_service, asks_peer, execute_commands-IsAsked,
}
use punchgate.Node.Loop.{Machines, admit, feed, then_do, arm_hole_punch_for_tunnel_targets}
use punchgate.Node.Loop.Conserved.{IsKept, feed-IsKept, arm-IsKept, then_do-IsKept}
use punchgate.Node.Turn.Keeps.{LoopLaws, on_observed_addr-Keeps}
use punchgate.Node.Turn.{
  LoopCalls, LoopState, executed, moved, note_observed, handle_event, go_on, handle_admitted,
  handle_events, is_shutting_down,
}

module _ (net : Libp2p) ⦃pe : Eq net.PeerId⦄ where
  asks-append :
      (f : Command net → ℕ) (xs ys : List (Command net))
      → asks net f (xs ++ ys) ≡ asks net f xs + asks net f ys
  asks-append f [] ys = omega arith
  asks-append f (cmd ∷ xs) ys = omega (arith, asks-append f xs ys)

module _ (net : Libp2p) ⦃pe : Eq net.PeerId⦄ ⦃ae : Eq net.Multiaddr⦄ {QueryId Handle : Type 0}
    ⦃qe : Eq QueryId⦄ (swarm : Swarm net QueryId Handle) (loop : LoopCalls swarm) (ip : IpText)
    (name_to_vec : ServiceName → Result String (List ℕ)) (exposed : List ExposedService)
    (bootstrap_peers : HashSet net.PeerId) (laws : SwarmLaws swarm) (loop_laws : LoopLaws laws loop)
    (n : ServiceName) (p : net.PeerId) (q : Spec) (total : ℕ) where
  open net use {PeerId, Multiaddr}

  abbrev Loop : Type 0
  Loop = LoopState net swarm loop ip name_to_vec exposed bootstrap_peers

  -- Of the service and of the peer: the queries still open and the answers are those that the
  -- commands asked for. Of the tunnel: what is wanted and what is spawned is the total.
  pub record IsBalanced (s : Loop) : Type 0 where
    pub services :
        service_asked net n s.ctx.queries + answers net (answers_service net n) s.translated
        ≡ asks net (asks_service net n) s.carried_out
    pub peers :
        peer_asked net p s.ctx.queries + answers net (answers_peer net p) s.translated
        ≡ asks net (asks_peer net p) s.carried_out
    pub tunnels : wanted q net s.machines.app.tunnel + spawned q net s.carried_out ≡ total
    pub maps : HasMaps s.machines.app.tunnel
    pub query_maps : AreMaps net s.ctx.queries
    pub issued : AreIssued net swarm laws s.sw s.ctx.queries

  -- A run that panics leaves nothing to say.
  abbrev pub IsBalancedAfter : Option Loop → Type 0
  IsBalancedAfter none = Unit {0}
  IsBalancedAfter (some s) = IsBalanced s

  pub moved-IsBalanced :
      (now : ℕ) (s : Loop) (move : Machines net × List (Command net))
      → IsBalanced s
      → IsKept q net s.machines move
      → IsBalancedAfter (moved net swarm loop ip name_to_vec exposed bootstrap_peers now s move)
  unfolding moved executed
  moved-IsBalanced now s (machines, cmds) h k =
      elim (Option-cases (execute_commands net swarm ip name_to_vec now exposed cmds s.sw s.ctx)) [
        | inl e ↦ rw (IsBalancedAfter, moved, e) tt
        | inr ((sw, ctx), e) ↦
            let (a, b, m, i) =
              execute_commands-IsAsked net swarm laws ip name_to_vec now exposed n p cmds s.sw sw
                s.ctx ctx h.query_maps h.issued e in
            rw (IsBalancedAfter, moved, e)
              (record {
                services =
                    omega (
                      arith,
                      a,
                      h.services,
                      asks-append net (asks_service net n) s.carried_out cmds,
                    );
                peers =
                    omega (arith, b, h.peers, asks-append net (asks_peer net p) s.carried_out cmds);
                tunnels = omega (arith, k.0, h.tunnels, spawned-append q net s.carried_out cmds);
                maps = k.1;
                query_maps = m;
                issued = i;
              })
      ]

  -- What changes of a state besides the books.
  pub kept-IsBalanced :
      (s t : Loop)
      → IsBalanced s
      → Keeps laws.issued s.sw t.sw
      → t.machines.app ≡ s.machines.app
      → t.ctx ≡ s.ctx
      → t.translated ≡ s.translated
      → t.carried_out ≡ s.carried_out
      → IsBalanced t
  kept-IsBalanced s t h keep app ctx events cmds = record {
    services = rw (ctx, events, cmds) h.services;
    peers = rw (ctx, events, cmds) h.peers;
    tunnels = rw (app, cmds) h.tunnels;
    maps = rw app h.maps;
    query_maps = rw ctx h.query_maps;
    issued = rw ctx (AreIssued-Keeps net swarm laws s.sw t.sw s.ctx.queries keep h.issued);
  }

  note_observed-IsBalanced :
      (event : Event net) (s : Loop)
      → IsBalanced s
      → IsBalanced (note_observed net swarm loop ip name_to_vec exposed bootstrap_peers event s)
        × ((note_observed net swarm loop ip name_to_vec exposed bootstrap_peers event s).machines
            ≡ s.machines)
  unfolding note_observed
  note_observed-IsBalanced (StateEvent.peer_identified peer listen_addrs observed_addr) s h = (
    kept-IsBalanced s _ h
        (on_observed_addr-Keeps net swarm loop laws loop_laws bootstrap_peers peer
          (has_relayed_connection net peer s.machines.connections) observed_addr
          s.bootstrap_observed_external_by_ip s.sw)
        refl refl refl refl,
    refl,
  )
  note_observed-IsBalanced _ s h = (h, refl)

  handle_event-IsBalanced :
      (now : ℕ) (event : Event net) (s : Loop)
      → IsBalanced s
      → IsBalancedAfter
          (handle_event net swarm loop ip name_to_vec exposed bootstrap_peers now event s)
  unfolding handle_event
  handle_event-IsBalanced now event s h =
      let (noted, same) = note_observed-IsBalanced event s h in
      let t = note_observed net swarm loop ip name_to_vec exposed bootstrap_peers event s in
      let kept : IsKept q net s.machines (
          then_do net (feed net now event s.machines) (arm_hole_punch_for_tunnel_targets net now)) =
        then_do-IsKept q net s.machines (feed net now event s.machines)
          (arm_hole_punch_for_tunnel_targets net now)
          (feed-IsKept q net now event s.machines h.maps) (arm-IsKept q net now) in
      moved-IsBalanced now t
        (then_do net (feed net now event s.machines) (arm_hole_punch_for_tunnel_targets net now))
        noted
        (subst
          (λ m. IsKept q net m (
            then_do net (feed net now event s.machines)
              (arm_hole_punch_for_tunnel_targets net now)))
          (sym same) kept)

  go_on-IsBalanced :
      (later : Loop → Option Loop) (o : Option Loop)
      → ((t : Loop) → IsBalanced t → IsBalancedAfter (later t))
      → IsBalancedAfter o
      → IsBalancedAfter (go_on net swarm loop ip name_to_vec exposed bootstrap_peers later o)
  unfolding go_on
  go_on-IsBalanced later none k h = tt
  go_on-IsBalanced later (some t) k h =
      if_rule IsBalancedAfter
        (is_shutting_down net swarm loop ip name_to_vec exposed bootstrap_peers t) {x = some t}
        {y = later t} h (k t h)

  handle_admitted-IsBalanced :
      (now : ℕ) (admitted : Option (Event net)) (later : Loop → Option Loop) (s : Loop)
      → ((t : Loop) → IsBalanced t → IsBalancedAfter (later t))
      → IsBalanced s
      → IsBalancedAfter (
          handle_admitted net swarm loop ip name_to_vec exposed bootstrap_peers now admitted later
            s)
  unfolding handle_admitted
  handle_admitted-IsBalanced now none later s k h = k s h
  handle_admitted-IsBalanced now (some event) later s k h =
      go_on-IsBalanced later
        (handle_event net swarm loop ip name_to_vec exposed bootstrap_peers now event s) k
        (handle_event-IsBalanced now event s h)

  -- The events of a turn keep the books.
  pub handle_events-IsBalanced :
      (now : ℕ) (events : List (Event net)) (s : Loop)
      → IsBalanced s
      → IsBalancedAfter
          (handle_events net swarm loop ip name_to_vec exposed bootstrap_peers now events s)
  unfolding handle_events
  handle_events-IsBalanced now [] s h = h
  handle_events-IsBalanced now (event ∷ events) s h =
      handle_admitted-IsBalanced now (admit net s.machines.connections event)
        (handle_events net swarm loop ip name_to_vec exposed bootstrap_peers now events) s
        (handle_events-IsBalanced now events) h
