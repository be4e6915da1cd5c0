-- ===== src/Node/Run/Balance.antt =====
-- A run of the loop keeps the books, whatever the order in which its arms fire.
use punchgate.Common.{
  ℕ, ◌≡◌, ◌&&◌, refl, Bool, true, false, Option, Option-cases, inl, inr, none, some, String, List,
  [], ◌∷◌, ◌++◌, arith, Eq, Result, if_rule,
}
use punchgate.Net.{Libp2p}
use punchgate.Types.{ServiceName, Spec, spec_eq}
use punchgate.Collections.HashMap.{get, remove}
use punchgate.Collections.HashSet.{HashSet}
use punchgate.State.Command.{Command}
use punchgate.State.Event as StateEvent
use punchgate.State.Event.{Event}
use punchgate.Specs.Addr.{IpText}
use punchgate.Specs.Named.{ExposedService}
use punchgate.Node.Connections.Defs.{
  ConnectionId, ConnectionStateMachine, ConnectionEstablishedUpdate, ConnectionClosedUpdate,
}
use punchgate.Node.Translate.{translate_swarm_event}
use punchgate.Node.Translate.Answers.{
  answers-append, answers_service, answers_peer, translate_swarm_event-IsAnswered,
  translate_swarm_event-AreMaps,
}
use punchgate.Node.Translate.Closed.{translate_swarm_event-IsClosed}
use punchgate.Node.Execute.{Swarm}
use punchgate.Node.Execute.QueryIds.{Keeps, SwarmLaws}
use punchgate.Node.Reconnects.{Reconnects, dialled, redial, redial_all, due_peers}
use punchgate.Node.Loop.{Machines, feed, on_hole_punch_timeout, on_established, on_closed}
use punchgate.Node.Loop.Conserved.{IsKept, feed-IsKept, on_hole_punch_timeout-IsKept}
use punchgate.Node.Turn.{
  LoopCalls, LoopState, Report, to_swarm_event, Arm, moved, handle_events, is_shutting_down,
}
use punchgate.Node.Turn as Turn
use punchgate.Node.Turn.Keeps.{LoopLaws, confirmed-Keeps}
use punchgate.Node.Turn.Balance.{
  IsBalanced, IsBalancedAfter, kept-IsBalanced, moved-IsBalanced, handle_events-IsBalanced,
}
use punchgate.Node.Run.{
  close_all, opened, lost, track_report, on_port_mapping, react, on_swarm_event, step, may_end,
  again, run,
}

module _ (net : Libp2p) ⦃pe : Eq net.PeerId⦄ ⦃ae : Eq net.Multiaddr⦄ {QueryId Handle : Type 0}
    ⦃qe : Eq QueryId⦄ (swarm : Swarm net QueryId Handle) (loop : LoopCalls swarm) (ip : IpText)
    (name_to_vec : ServiceName → Result String (List ℕ)) (exposed : List ExposedService)
    (bootstrap_peers : HashSet net.PeerId) (laws : SwarmLaws swarm) (loop_laws : LoopLaws laws loop)
    (n : ServiceName) (p : net.PeerId) (q : Spec) (total : ℕ) where
  open net use {PeerId, Multiaddr}

  abbrev Loop : Type 0
  Loop = LoopState net swarm loop ip name_to_vec exposed bootstrap_peers

  abbrev Balanced : Loop → Type 0
  Balanced =
      IsBalanced net swarm loop ip name_to_vec exposed bootstrap_peers laws loop_laws n p q total

  abbrev BalancedAfter : Option Loop → Type 0
  BalancedAfter =
      IsBalancedAfter net swarm loop ip name_to_vec exposed bootstrap_peers laws loop_laws n p q
        total

  abbrev kept :
      (s t : Loop)
      → Balanced s
      → Keeps laws.issued s.sw t.sw
      → t.machines.app ≡ s.machines.app
      → t.ctx ≡ s.ctx
      → t.translated ≡ s.translated
      → t.carried_out ≡ s.carried_out
      → Balanced t
  kept =
      kept-IsBalanced net swarm loop ip name_to_vec exposed bootstrap_peers laws loop_laws n p q
        total

  close_all-Keeps :
      (ids : List ConnectionId) (sw : swarm.State)
      → Keeps laws.issued sw
          (close_all net swarm loop ip name_to_vec exposed bootstrap_peers ids sw)
  unfolding close_all
  close_all-Keeps [] sw id e = e
  close_all-Keeps (x ∷ ids) sw id e =
      close_all-Keeps ids (loop.close_connection x sw) id (loop_laws.close_keep x sw id e)

  dialled-Keeps :
      (now : ℕ) (peer : PeerId) (answer : Bool × swarm.State) (r : Reconnects net)
      → Keeps laws.issued answer.1 (dialled net loop.dial_addr now peer answer r).1
  unfolding dialled
  dialled-Keeps now peer (true, sw) r id e = e
  dialled-Keeps now peer (false, sw) r id e = e

  redial_all-Keeps :
      (now : ℕ) (peers : List PeerId) (r : Reconnects net) (sw : swarm.State)
      → Keeps laws.issued sw (redial_all net loop.dial_addr now peers (r, sw)).1
  unfolding redial_all redial
  redial_all-Keeps now [] r sw id e = e
  redial_all-Keeps now (peer ∷ peers) r sw id e =
      let left = record r { pending = remove peer r.pending } in
      let next = redial net loop.dial_addr now peer (r, sw) in
      redial_all-Keeps now peers next.0 next.1 id (elim (Option-cases (get peer r.backoff.addrs)) [
        | inl none_known ↦ rw (redial, none_known) e
        | inr (addr, known) ↦
            rw (redial, known)
              (dialled-Keeps now peer (loop.dial_addr addr sw) left id
                (loop_laws.dial_addr_keep addr sw id e))
      ])

  opened-Balanced :
      (peer : PeerId)
      (answer : ConnectionStateMachine net × ConnectionEstablishedUpdate × List (Event net))
      (s : Loop)
      → Balanced s
      → Balanced (opened net swarm loop ip name_to_vec exposed bootstrap_peers peer answer s).0
  unfolding opened
  opened-Balanced peer (connections, update, synthetic) s h =
      kept s _ h (close_all-Keeps update.relayed_connections_to_close s.sw) refl refl refl refl

  lost-Balanced :
      (now : ℕ) (peer : PeerId)
      (answer : ConnectionStateMachine net × ConnectionClosedUpdate × List (Event net)) (s : Loop)
      → Balanced s
      → Balanced (lost net swarm loop ip name_to_vec exposed bootstrap_peers now peer answer s).0
  unfolding lost
  lost-Balanced now peer (connections, update, synthetic) s h =
      kept s _ h (λ id e. e) refl refl refl refl

  track_report-Balanced :
      (now : ℕ) (report : Report net QueryId) (s : Loop)
      → Balanced s
      → Balanced (track_report net swarm loop ip name_to_vec exposed bootstrap_peers now report s).0
  unfolding track_report
  track_report-Balanced now (Turn.established peer id endpoint) s h =
      opened-Balanced peer (on_established net now peer id endpoint s.machines) s h
  track_report-Balanced now (Turn.closed peer id num_established) s h =
      lost-Balanced now peer (on_closed net peer id num_established s.machines) s h
  track_report-Balanced now (Turn.dialing none id) s h = h
  track_report-Balanced now (Turn.dialing (some peer) id) s h =
      kept s _ h (λ id e. e) refl refl refl refl
  track_report-Balanced now (Turn.dial_error peer_id id error) s h =
      kept s _ h (λ id e. e) refl refl refl refl
  track_report-Balanced now (Turn.confirmed address) s h =
      kept s _ h
        (confirmed-Keeps net swarm loop laws loop_laws address s.confirmed_external_by_ip s.sw) refl
        refl refl refl
  track_report-Balanced now (Turn.expired address) s h = kept s _ h (λ id e. e) refl refl refl refl
  track_report-Balanced now (Turn.other event) s h = h

  moves :
      (now : ℕ) (s : Loop) (move : Machines net × List (Command net))
      → Balanced s
      → IsKept q net s.machines move
      → BalancedAfter (moved net swarm loop ip name_to_vec exposed bootstrap_peers now s move)
  moves =
      moved-IsBalanced net swarm loop ip name_to_vec exposed bootstrap_peers laws loop_laws n p q
        total

  on_port_mapping-Balanced :
      (now : ℕ) (mapped : Option Multiaddr) (s : Loop)
      → Balanced s
      → BalancedAfter
          (on_port_mapping net swarm loop ip name_to_vec exposed bootstrap_peers now mapped s)
  unfolding on_port_mapping
  on_port_mapping-Balanced now none s h = h
  on_port_mapping-Balanced now (some mapped_addr) s h =
      let announced = record s { sw = loop.add_external_address mapped_addr s.sw } in
      let event = StateEvent.nat_status_changed StateEvent.public in
      moves now announced (feed net now event s.machines)
        (kept s announced h (loop_laws.add_external_keep mapped_addr s.sw) refl refl refl refl)
        (feed-IsKept q net now event s.machines h.maps)

  -- The translation moves a query from the open ones to the answers.
  react-Balanced :
      (now : ℕ) (report : Report net QueryId) (synthetic : List (Event net)) (o : Option Loop)
      → BalancedAfter o
      → BalancedAfter
          (react net swarm loop ip name_to_vec exposed bootstrap_peers now report synthetic o)
  unfolding react
  react-Balanced now report synthetic none h = tt
  react-Balanced now report synthetic (some s) h =
      let event = to_swarm_event report in
      let active = s.ctx.active_bootstrap_query in
      let step =
        translate_swarm_event net event bootstrap_peers active (loop.is_connected s.sw)
          s.ctx.queries in
      let (a, b) =
        translate_swarm_event-IsAnswered net n p event bootstrap_peers active
          (loop.is_connected s.sw) s.ctx.queries h.query_maps in
      handle_events-IsBalanced net swarm loop ip name_to_vec exposed bootstrap_peers laws loop_laws
        n p q total now (synthetic ++ step.0)
        (record s { ctx = record s.ctx { queries = step.1 }; translated = s.translated ++ step.0 })
        (record {
          services = omega (
            arith,
            a,
            h.services,
            answers-append net (answers_service net n) s.translated step.0,
          );
          peers =
              omega
                (arith, b, h.peers, answers-append net (answers_peer net p) s.translated step.0);
          tunnels = h.tunnels;
          maps = h.maps;
          query_maps =
              translate_swarm_event-AreMaps net event bootstrap_peers active
                (loop.is_connected s.sw) s.ctx.queries h.query_maps;
          issued = λ id e.
              translate_swarm_event-IsClosed net id event bootstrap_peers active
                (loop.is_connected s.sw) s.ctx.queries (h.issued id e);
        })

  on_swarm_event-Balanced :
      (now : ℕ) (report : Report net QueryId) (mapped : Option Multiaddr) (s : Loop)
      → Balanced s
      → BalancedAfter
          (on_swarm_event net swarm loop ip name_to_vec exposed bootstrap_peers now report mapped s)
  unfolding on_swarm_event
  on_swarm_event-Balanced now report mapped s h =
      let (tracked, synthetic) =
        track_report net swarm loop ip name_to_vec exposed bootstrap_peers now report s in
      react-Balanced now report synthetic
        (on_port_mapping net swarm loop ip name_to_vec exposed bootstrap_peers now mapped tracked)
        (on_port_mapping-Balanced now mapped tracked (track_report-Balanced now report s h))

  step-Balanced :
      (now : ℕ) (arm : Arm net QueryId) (s : Loop)
      → Balanced s
      → BalancedAfter (step net swarm loop ip name_to_vec exposed bootstrap_peers now arm s)
  unfolding step
  step-Balanced now (Turn.swarm_event report mapped) s h =
      on_swarm_event-Balanced now report mapped s h
  step-Balanced now Turn.discovery_deadline s h =
      let fired = record s { discovery_timeout_fired = true } in
      if_rule BalancedAfter s.discovery_timeout_fired {x = some s} h (
        moves now fired (feed net now StateEvent.discovery_timeout s.machines)
          (kept s fired h (λ id e. e) refl refl refl refl)
          (feed-IsKept q net now StateEvent.discovery_timeout s.machines h.maps))
  step-Balanced now Turn.reconnects_due s h =
      kept s _ h (redial_all-Keeps now (due_peers net now s.reconnects.pending) s.reconnects s.sw)
        refl refl refl refl
  step-Balanced now Turn.hole_punch_timeouts_due s h =
      moves now s (on_hole_punch_timeout net now s.machines) h
        (on_hole_punch_timeout-IsKept q net now s.machines h.maps)
  step-Balanced now Turn.shutdown_signal s h =
      moves now s (feed net now StateEvent.shutdown_requested s.machines) h
        (feed-IsKept q net now StateEvent.shutdown_requested s.machines h.maps)

  again-Balanced :
      (ends : Bool) (later : Loop → Option Loop) (o : Option Loop)
      → ((t : Loop) → Balanced t → BalancedAfter (later t))
      → BalancedAfter o
      → BalancedAfter (again net swarm loop ip name_to_vec exposed bootstrap_peers ends later o)
  unfolding again
  again-Balanced ends later none k h = tt
  again-Balanced ends later (some t) k h =
      if_rule BalancedAfter
        (ends && is_shutting_down net swarm loop ip name_to_vec exposed bootstrap_peers t)
        {x = some t} {y = later t} h (k t h)

  -- A run keeps the books.
  pub run-Balanced :
      (arms : List (ℕ × Arm net QueryId)) (s : Loop)
      → Balanced s
      → BalancedAfter (run net swarm loop ip name_to_vec exposed bootstrap_peers arms s)
  unfolding run
  run-Balanced [] s h = h
  run-Balanced ((now, arm) ∷ arms) s h =
      again-Balanced (may_end net swarm loop ip name_to_vec exposed bootstrap_peers arm)
        (run net swarm loop ip name_to_vec exposed bootstrap_peers arms)
        (step net swarm loop ip name_to_vec exposed bootstrap_peers now arm s) (run-Balanced arms)
        (step-Balanced now arm s h)
