-- ===== src/State/Peer/Phases.antt =====
-- The phases of src/state/peer.rs as a diagram, and what moves a node along it.
use punchgate.Common.{zero, ◌≡◌, refl, ◌⊎◌, true, false, List, [], ◌∷◌, is_empty, arith, Eq}
use punchgate.Net.{Libp2p}
use punchgate.State.Event.{
  Phase, joining, ready, shutting_down, Event, discovery_timeout, no_bootstrap_peers,
  connection_lost,
}
use punchgate.State.Command.{kademlia_bootstrap}
use punchgate.State.Peer.Defs.{PeerState}
use punchgate.State.Peer.Machine.{transition}

-- The edges: a node that shuts down never does anything else.
pub data PhaseStep : Phase → Phase → Type 0 where
  stay : {p : Phase} → PhaseStep p p
  become_ready : PhaseStep joining ready
  rejoin : PhaseStep ready joining
  stop : {p : Phase} → PhaseStep p shutting_down

module _ (net : Libp2p) ⦃pe : Eq net.PeerId⦄ ⦃ae : Eq net.Multiaddr⦄ where
  -- Every transition follows an edge of the diagram.
  pub transition-PhaseStep :
      (s : PeerState net) (e : Event net) → PhaseStep s.phase (transition net s e).0.phase
  unfolding transition
  transition-PhaseStep s e = grind (arith, stay, become_ready, rejoin, stop)

  -- What has to hold after a transition from `Joining` to `Ready`.
  abbrev pub HasReason : Event net → PeerState net → Type 0
  HasReason e s' =
      (e ≡ no_bootstrap_peers)
      ⊎ ((s'.kad_bootstrapped ≡ true)
          × ((is_empty s'.external_addrs ≡ false)
              ⊎ ((e ≡ discovery_timeout) × (is_empty s'.known_peers ≡ false))))

  -- A node becomes ready only without bootstrap peers, or after a bootstrap of the DHT, and
  -- then only with a confirmed external address or, at the discovery timeout, a known peer.
  pub become_ready_needs :
      (s : PeerState net) (e : Event net)
      → s.phase ≡ joining
      → (transition net s e).0.phase ≡ ready
      → HasReason e (transition net s e).0
  unfolding transition
  become_ready_needs s e h r = ground arith

  -- A ready node falls back to `Joining` only at the loss of the last connection to a peer, where
  -- it knows no peer afterwards and has bootstrap peers; it then asks for a new bootstrap of the
  -- DHT, and waits for one.
  pub rejoin_needs :
      (s : PeerState net) (e : Event net)
      → s.phase ≡ ready
      → (transition net s e).0.phase ≡ joining
      → (peer : net.PeerId) × (e ≡ connection_lost peer 0)
        × (is_empty (transition net s e).0.known_peers ≡ true)
        × (is_empty s.bootstrap_peers ≡ false)
        × ((transition net s e).0.kad_bootstrapped ≡ false)
        × ((transition net s e).1 ≡ kademlia_bootstrap ∷ [])
  unfolding transition
  rejoin_needs s (connection_lost peer zero) h r =
      (peer, refl, ground arith, ground arith, ground arith, ground arith)
  rejoin_needs s e h r = ground arith

  -- The run of the machine over the events of a list.
  unfoldable pub run : List (Event net) → PeerState net → PeerState net
  run [] s = s
  run (e ∷ es) s = run es (transition net s e).0

  shutting_down-transition :
      (s : PeerState net) (e : Event net)
      → s.phase ≡ shutting_down
      → (transition net s e).0.phase ≡ shutting_down
  unfolding transition
  shutting_down-transition s e h = ground arith

  -- No sequence of events ends a shutdown.
  pub shutting_down-run :
      (es : List (Event net)) (s : PeerState net)
      → s.phase ≡ shutting_down
      → (run es s).phase ≡ shutting_down
  unfolding run
  shutting_down-run [] s h = h
  shutting_down-run (e ∷ es) s h =
      shutting_down-run es (transition net s e).0 (shutting_down-transition s e h)
