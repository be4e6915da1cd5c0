-- ===== src/Node/Loop/Conserved.antt =====
-- The loop of src/node/mod.rs loses no tunnel and spawns none twice.
use punchgate.Common.{
  ℕ, ◌+◌, ◌≡◌, ◌==◌, Option, none, some, List, [], ◌∷◌, ◌++◌, arith, Eq, if_rule,
}
use punchgate.Net.{Libp2p}
use punchgate.Types.{Spec, spec_eq}
use punchgate.State.Event as StateEvent
use punchgate.State.Event.{Event, phase_eq}
use punchgate.State.Command.{Command}
use punchgate.State.App.Machine.{phase, transition, bridge}
use punchgate.State.App.Tunnels.{run, run-Conserves, run_tunnel-HasMaps}
use punchgate.State.Peer.Machine
use punchgate.State.Tunnel.Targets.{holepunch_target_peers}
use punchgate.State.Tunnel.Wanted.{spawned, spawned-append, wanted, HasMaps}
use punchgate.Node.Connections.Registry.{peer_is_relay_only}
use punchgate.Node.Connections.Attempts.{start_hole_punch_attempt}
use punchgate.Node.Connections.Timeouts.{take_due_hole_punch_timeouts}
use punchgate.Node.Loop.{
  Machines, hole_punch_timeout, feed, then_do, arm_started, arm_targets,
  arm_hole_punch_for_tunnel_targets, fire_timeouts, on_hole_punch_timeout,
}

module _ (q : Spec) (net : Libp2p) ⦃pe : Eq net.PeerId⦄ ⦃ae : Eq net.Multiaddr⦄ where
  open net use {PeerId}

  -- The tunnels still wanted and those spawned are those that were wanted, and the maps stay
  -- maps.
  abbrev pub IsKept : Machines net → Machines net × List (Command net) → Type 0
  IsKept s step =
      (wanted q net step.0.app.tunnel + spawned q net step.1 ≡ wanted q net s.app.tunnel)
      × HasMaps step.0.app.tunnel

  nothing-IsKept : (s : Machines net) → HasMaps s.app.tunnel → IsKept s (s, [])
  unfolding spawned
  nothing-IsKept s h = (omega arith, h)

  pub feed-IsKept :
      (now : ℕ) (event : Event net) (s : Machines net)
      → HasMaps s.app.tunnel
      → IsKept s (feed net now event s)
  unfolding feed transition run spawned
  feed-IsKept now event s h =
      let step = transition net now s.app event in
      (
        omega (
          arith,
          run-Conserves net q ((now, event) ∷ []) s.app h,
          spawned-append q net step.1 [],
        ),
        run_tunnel-HasMaps net now s.app.tunnel
            (bridge net s.app.peer.phase (Machine.transition net s.app.peer event).0.phase
              ++ event ∷ [])
            h,
      )

  pub then_do-IsKept :
      (s : Machines net) (step : Machines net × List (Command net))
      (f : Machines net → Machines net × List (Command net))
      → IsKept s step
      → ((t : Machines net) → HasMaps t.app.tunnel → IsKept t (f t))
      → IsKept s (then_do net step f)
  then_do-IsKept s step f h k =
      let next = k step.0 h.1 in
      (omega (arith, h.0, next.0, spawned-append q net step.1 (f step.0).1), next.1)

  arm_started-IsKept :
      (now : ℕ) (peer : PeerId) (started : Option ℕ)
      (later : Machines net → Machines net × List (Command net)) (s : Machines net)
      → HasMaps s.app.tunnel
      → ((t : Machines net) → HasMaps t.app.tunnel → IsKept t (later t))
      → IsKept s (arm_started net now peer started later s)
  unfolding arm_started
  arm_started-IsKept now peer none later s h k = k s h
  arm_started-IsKept now peer (some attempt_id) later s h k =
      let event = StateEvent.hole_punch_attempt_started peer attempt_id in
      then_do-IsKept s (feed net now event s) later (feed-IsKept now event s h) k

  arm_targets-IsKept :
      (now : ℕ) (peers : List PeerId) (s : Machines net)
      → HasMaps s.app.tunnel
      → IsKept s (arm_targets net now peers s)
  unfolding arm_targets
  arm_targets-IsKept now [] s h = nothing-IsKept s h
  arm_targets-IsKept now (peer ∷ peers) s h =
      let (connections, started) =
        start_hole_punch_attempt net peer hole_punch_timeout now s.connections in
      arm_started-IsKept now peer started (arm_targets net now peers)
        (record s { connections = connections }) h (arm_targets-IsKept now peers)

  pub arm-IsKept :
      (now : ℕ) (s : Machines net)
      → HasMaps s.app.tunnel
      → IsKept s (arm_hole_punch_for_tunnel_targets net now s)
  unfolding arm_hole_punch_for_tunnel_targets
  arm-IsKept now s h =
      if_rule (IsKept s) (phase s.app == StateEvent.shutting_down) (nothing-IsKept s h)
        (arm_targets-IsKept now (holepunch_target_peers net s.app.tunnel) s h)

  fire_timeouts-IsKept :
      (now : ℕ) (due : List (PeerId × ℕ)) (s : Machines net)
      → HasMaps s.app.tunnel
      → IsKept s (fire_timeouts net now due s)
  unfolding fire_timeouts
  fire_timeouts-IsKept now [] s h = nothing-IsKept s h
  fire_timeouts-IsKept now ((peer, attempt_id) ∷ due) s h =
      let event = StateEvent.hole_punch_attempt_timeout peer attempt_id in
      if_rule (IsKept s) (peer_is_relay_only net peer s.connections)
        (then_do-IsKept s (feed net now event s) (fire_timeouts net now due)
          (feed-IsKept now event s h) (fire_timeouts-IsKept now due))
        (fire_timeouts-IsKept now due s h)

  pub on_hole_punch_timeout-IsKept :
      (now : ℕ) (s : Machines net)
      → HasMaps s.app.tunnel
      → IsKept s (on_hole_punch_timeout net now s)
  unfolding on_hole_punch_timeout
  on_hole_punch_timeout-IsKept now s h =
      let (connections, due) = take_due_hole_punch_timeouts net now s.connections in
      fire_timeouts-IsKept now due (record s { connections = connections }) h
