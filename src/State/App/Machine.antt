-- ===== src/State/App/Machine.antt =====
-- src/state/app.rs: the two machines composed. The peer machine sees the event first; a change
-- of its phase reaches the tunnel machine as an event of its own, ahead of the event itself.
use punchgate.Common.{ℕ, List, [], ◌∷◌, ◌++◌, Eq, ◌==◌, if◌then◌else◌}
use punchgate.Net.{Libp2p}
use punchgate.State.Event.{Phase, phase_eq, Event, phase_changed}
use punchgate.State.Command.{Command}
use punchgate.State.Peer.Defs.{PeerState}
use punchgate.State.Peer.Machine
use punchgate.State.Tunnel.Defs.{TunnelState}
use punchgate.State.Tunnel.Machine as TunnelMachine

pub record AppState (net : Libp2p) : Type 0 where
  pub peer : PeerState net
  pub tunnel : TunnelState net

unfoldable pub phase : {net : Libp2p} → AppState net → Phase
phase app = app.peer.phase

module _ (net : Libp2p) ⦃pe : Eq net.PeerId⦄ ⦃ae : Eq net.Multiaddr⦄ where
  -- The event that the composition makes of a change of phase.
  unfoldable pub bridge : Phase → Phase → List (Event net)
  bridge old_phase new_phase =
      if old_phase == new_phase then [] else phase_changed old_phase new_phase ∷ []

  -- The `fold` over the bridge and the event.
  unfoldable pub run_tunnel :
      ℕ → TunnelState net → List (Event net) → TunnelState net × List (Command net)
  run_tunnel now tunnel [] = (tunnel, [])
  run_tunnel now tunnel (event ∷ events) =
      let (tunnel', commands) = TunnelMachine.transition net now tunnel event in
      let (last, later) = run_tunnel now tunnel' events in (last, commands ++ later)

  unfoldable pub transition : ℕ → AppState net → Event net → AppState net × List (Command net)
  unfolding bridge run_tunnel
  transition now app event =
      let (peer, peer_cmds) = Machine.transition net app.peer event in
      let (tunnel, tunnel_cmds) =
        run_tunnel now app.tunnel (bridge app.peer.phase peer.phase ++ event ∷ []) in
      (record { peer = peer; tunnel = tunnel }, peer_cmds ++ tunnel_cmds)
