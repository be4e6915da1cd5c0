-- ===== src/Node/Run/Shutdown.antt =====
-- How the loop of src/node/mod.rs ends.
use punchgate.Common.{
  ℕ, ◌≡◌, ◌==◌, ◌&&◌, refl, Bool, true, false, Option, none, some, String, List, [], ◌∷◌, ◌++◌,
  if◌then◌else◌, if_cases, Eq, Result, subst, sym, ap, ◌∙◌,
}
use punchgate.Net.{Libp2p}
use punchgate.Types.{ServiceName}
use punchgate.Collections.HashSet.{HashSet}
use punchgate.State.Event as StateEvent
use punchgate.State.Event.{Event, phase_eq}
use punchgate.State.Command.{Command}
use punchgate.State.App.Machine.{AppState, phase, transition}
use punchgate.State.Peer.Machine
use punchgate.Specs.Addr.{IpText}
use punchgate.Specs.Named.{ExposedService}
use punchgate.Node.Execute.{Swarm, ExecutionContext, execute_commands}
use punchgate.Node.Loop.{feed}
use punchgate.Node.Turn.{LoopCalls, LoopState, Arm, executed, moved, is_shutting_down}
use punchgate.Node.Turn as Turn
use punchgate.Node.Run.{step, may_end, again, run}

module _ (net : Libp2p) ⦃pe : Eq net.PeerId⦄ ⦃ae : Eq net.Multiaddr⦄ {QueryId Handle : Type 0}
    ⦃qe : Eq QueryId⦄ (swarm : Swarm net QueryId Handle) (loop : LoopCalls swarm) (ip : IpText)
    (name_to_vec : ServiceName → Result String (List ℕ)) (exposed : List ExposedService)
    (bootstrap_peers : HashSet net.PeerId) where
  abbrev Loop : Type 0
  Loop = LoopState net swarm loop ip name_to_vec exposed bootstrap_peers

  shutdown_phase :
      (now : ℕ) (app : AppState net)
      → phase (transition net now app StateEvent.shutdown_requested).0 ≡ StateEvent.shutting_down
  unfolding phase transition Machine.transition
  shutdown_phase now app = refl

  -- The run panicked, or the node is shutting down.
  abbrev pub IsEnding : Option Loop → Type 0
  IsEnding none = Unit {0}
  IsEnding (some t) =
      is_shutting_down net swarm loop ip name_to_vec exposed bootstrap_peers t ≡ true

  executed-IsEnding :
      (cmds : List (Command net)) (s : Loop)
      (o : Option (swarm.State × ExecutionContext net QueryId Handle))
      → is_shutting_down net swarm loop ip name_to_vec exposed bootstrap_peers s ≡ true
      → IsEnding (executed net swarm loop ip name_to_vec exposed bootstrap_peers cmds s o)
  unfolding executed is_shutting_down
  executed-IsEnding cmds s none h = tt
  executed-IsEnding cmds s (some (sw, ctx)) h = h

  signal-IsEnding :
      (now : ℕ) (s : Loop)
      → IsEnding
          (step net swarm loop ip name_to_vec exposed bootstrap_peers now Turn.shutdown_signal s)
  unfolding step moved is_shutting_down feed
  signal-IsEnding now s =
      let (machines, cmds) = feed net now StateEvent.shutdown_requested s.machines in
      executed-IsEnding cmds (record s { machines = machines })
        (execute_commands net swarm ip name_to_vec now exposed cmds s.sw s.ctx)
        (ap (λ x. x == StateEvent.shutting_down) (shutdown_phase now s.machines.app))

  -- Behind such a step, nothing later is run.
  again-IsEnding :
      (later : Loop → Option Loop) (o : Option Loop)
      → IsEnding o
      → again net swarm loop ip name_to_vec exposed bootstrap_peers true later o ≡ o
  unfolding again
  again-IsEnding later none h = refl
  again-IsEnding later (some t) h = rw h refl

  again-later :
      (ends : Bool) (f g : Loop → Option Loop) (o : Option Loop)
      → ((t : Loop) → f t ≡ g t)
      → again net swarm loop ip name_to_vec exposed bootstrap_peers ends f o
        ≡ again net swarm loop ip name_to_vec exposed bootstrap_peers ends g o
  unfolding again
  again-later ends f g none h = refl
  again-later ends f g (some t) h =
      ap
        (λ x.
          if ends && is_shutting_down net swarm loop ip name_to_vec exposed bootstrap_peers t
          then some t
          else x)
        (h t)

  nothing_after :
      (now : ℕ) (before after : List (ℕ × Arm net QueryId)) (s : Loop)
      → run net swarm loop ip name_to_vec exposed bootstrap_peers
          (before ++ (now, Turn.shutdown_signal) ∷ after)
          s
        ≡ run net swarm loop ip name_to_vec exposed bootstrap_peers
            (before ++ (now, Turn.shutdown_signal) ∷ [])
            s
  unfolding run
  nothing_after now [] after s =
      let o =
        step net swarm loop ip name_to_vec exposed bootstrap_peers now Turn.shutdown_signal s in
      let h = signal-IsEnding now s in
      again-IsEnding (run net swarm loop ip name_to_vec exposed bootstrap_peers after) o h
      ∙ sym (again-IsEnding (run net swarm loop ip name_to_vec exposed bootstrap_peers []) o h)
  nothing_after now ((t, arm) ∷ before) after s =
      again-later (may_end net swarm loop ip name_to_vec exposed bootstrap_peers arm)
        (run net swarm loop ip name_to_vec exposed bootstrap_peers
          (before ++ (now, Turn.shutdown_signal) ∷ after))
        (run net swarm loop ip name_to_vec exposed bootstrap_peers
          (before ++ (now, Turn.shutdown_signal) ∷ []))
        (step net swarm loop ip name_to_vec exposed bootstrap_peers t arm s)
        (nothing_after now before after)

  again_ends :
      (ends : Bool) (later : Loop → Option Loop) (o : Option Loop)
      → ((t : Loop) → IsEnding (later t))
      → IsEnding (again net swarm loop ip name_to_vec exposed bootstrap_peers ends later o)
  unfolding again
  again_ends ends later none h = tt
  again_ends false later (some t) h = h t
  again_ends true later (some t) h =
      if_cases IsEnding (is_shutting_down net swarm loop ip name_to_vec exposed bootstrap_peers t)
        {x = some t} {y = later t} (λ e. e) (λ _. h t)

  run-IsEnding :
      (now : ℕ) (before : List (ℕ × Arm net QueryId)) (s : Loop)
      → IsEnding (
          run net swarm loop ip name_to_vec exposed bootstrap_peers
            (before ++ (now, Turn.shutdown_signal) ∷ [])
            s)
  unfolding run
  run-IsEnding now [] s =
      let o =
        step net swarm loop ip name_to_vec exposed bootstrap_peers now Turn.shutdown_signal s in
      let h = signal-IsEnding now s in
      subst IsEnding
        (sym (again-IsEnding (run net swarm loop ip name_to_vec exposed bootstrap_peers []) o h)) h
  run-IsEnding now ((t, arm) ∷ before) s =
      again_ends (may_end net swarm loop ip name_to_vec exposed bootstrap_peers arm)
        (run net swarm loop ip name_to_vec exposed bootstrap_peers
          (before ++ (now, Turn.shutdown_signal) ∷ []))
        (step net swarm loop ip name_to_vec exposed bootstrap_peers t arm s)
        (run-IsEnding now before)

  -- A shutdown signal ends the loop: whatever fires before it, no arm after it counts, and the
  -- node is shutting down at the end, unless a registration panics.
  pub run_until_shutdown :
      (now : ℕ) (before after : List (ℕ × Arm net QueryId)) (s : Loop)
      → (run net swarm loop ip name_to_vec exposed bootstrap_peers
            (before ++ (now, Turn.shutdown_signal) ∷ after)
            s
          ≡ run net swarm loop ip name_to_vec exposed bootstrap_peers
              (before ++ (now, Turn.shutdown_signal) ∷ [])
              s)
        × IsEnding (
            run net swarm loop ip name_to_vec exposed bootstrap_peers
              (before ++ (now, Turn.shutdown_signal) ∷ after)
              s)
  run_until_shutdown now before after s =
      let e = nothing_after now before after s in
      (e, subst IsEnding (sym e) (run-IsEnding now before s))
