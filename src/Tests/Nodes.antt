-- ===== src/Tests/Nodes.antt =====
-- Runs of the peer machine (src/state/peer.rs) and of the address test it uses.
use punchgate.Common.{ℕ, ◌≡◌, refl, true, false, [], ◌∷◌, is_empty, nat_eq, contains}
use punchgate.State.Peer.Addresses.{identified_replaces}
use punchgate.Net.{ip_addr_eq, v4}
use punchgate.Collections.HashMap
use punchgate.Collections.HashMap.{HashMap, is_some, get, get_or}
use punchgate.ExternalAddr.{extract_public_ip_port, needs_external_rewrite}
use punchgate.State.Event.{
  Event, peer_identified, ready, shutting_down, private, kademlia_bootstrap_ok, connection_lost,
  nat_status_changed,
}
use punchgate.State.Command.{kademlia_bootstrap}
use punchgate.State.Peer.Defs.{extract_public_ip, PeerState, new}
use punchgate.State.Peer.Machine.{transition}
use punchgate.State.Peer.Phases.{
  PhaseStep, HasReason, transition-PhaseStep, become_ready_needs, rejoin_needs,
}
use punchgate.State.Peer.Relay.{RequestsAreJustified, transition-justified}
use punchgate.Tests.Toy.{toy, public_ip}

-- A node with a confirmed external address that has not joined the DHT yet.
abbrev reachable : PeerState toy
reachable = record (new toy) { external_addrs = 0 ∷ [] }

-- A ready node whose only peer is its bootstrap peer.
abbrev lonely : PeerState toy
lonely = record (new toy) {
  phase = ready;
  known_peers = (9, 0 ∷ []) ∷ [];
  bootstrap_peers = 9 ∷ [];
  kad_bootstrapped = true;
}

abbrev stopped : PeerState toy
stopped = record (new toy) { phase = shutting_down }

-- The bootstrap peer is gone.
abbrev lost : Event toy
lost = connection_lost 9 0

transition-PhaseStep_example :
    PhaseStep reachable.phase (transition toy reachable kademlia_bootstrap_ok).0.phase
transition-PhaseStep_example = transition-PhaseStep toy reachable kademlia_bootstrap_ok

become_ready_needs_example :
    HasReason toy kademlia_bootstrap_ok (transition toy reachable kademlia_bootstrap_ok).0
unfolding new transition
become_ready_needs_example = become_ready_needs toy reachable kademlia_bootstrap_ok refl refl

rejoin_needs_example :
    (peer : ℕ) × (lost ≡ connection_lost peer 0)
    × (is_empty (transition toy lonely lost).0.known_peers ≡ true)
    × (is_empty lonely.bootstrap_peers ≡ false)
    × ((transition toy lonely lost).0.kad_bootstrapped ≡ false)
    × ((transition toy lonely lost).1 ≡ kademlia_bootstrap ∷ [])
unfolding new transition nat_eq HashMap.remove
rejoin_needs_example = rejoin_needs toy lonely lost refl refl

transition-justified_example :
    RequestsAreJustified toy
      (transition toy lonely (nat_status_changed private)).0
      (transition toy lonely (nat_status_changed private)).1
transition-justified_example = transition-justified toy lonely (nat_status_changed private)

identified_replaces_example :
    contains {A = ℕ} 0
      (get_or (get 9 (transition toy lonely (peer_identified 9 (2 ∷ 0 ∷ []) 1)).0.known_peers) [])
    ≡ true
unfolding extract_public_ip extract_public_ip_port needs_external_rewrite nat_eq
identified_replaces_example =
    identified_replaces toy lonely 9 (2 ∷ []) 0 1 0 {ip = v4 public_ip} refl refl
