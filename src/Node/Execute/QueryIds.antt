-- ===== src/Node/Execute/QueryIds.antt =====
-- What src/node/execute.rs relies on of the ids that libp2p gives its queries.
use punchgate.Common.{ℕ, ◌≡◌, Bool, true, false, List}
use punchgate.Net.{Libp2p, Protocol}
use punchgate.Types.{ServiceName, KademliaKey, ServiceAddr}
use punchgate.Node.Execute.{Swarm}

-- The ids that are given stay given.
abbrev pub Keeps : {State QueryId : Type 0} → (State → QueryId → Bool) → State → State → Type 0
Keeps {QueryId} issued s t = (q : QueryId) → issued s q ≡ true → issued t q ≡ true

-- What the source relies on of libp2p's query ids: `issued` tells which ids the swarm gave; an
-- id that it gives is new, and no call takes one back.
pub record SwarmLaws {net : Libp2p} {QueryId Handle : Type 0} (swarm : Swarm net QueryId Handle)
    : Type 1 where
  pub issued : swarm.State → QueryId → Bool
  pub peers_new :
      (p : net.PeerId) (s : swarm.State) → issued s (swarm.get_closest_peers p s).0 ≡ false
  pub peers_given :
      (p : net.PeerId) (s : swarm.State)
      → issued (swarm.get_closest_peers p s).1 (swarm.get_closest_peers p s).0 ≡ true
  pub providers_new :
      (k : KademliaKey) (s : swarm.State) → issued s (swarm.get_providers k s).0 ≡ false
  pub providers_given :
      (k : KademliaKey) (s : swarm.State)
      → issued (swarm.get_providers k s).1 (swarm.get_providers k s).0 ≡ true
  pub peers_keep :
      (p : net.PeerId) (s : swarm.State) → Keeps issued s (swarm.get_closest_peers p s).1
  pub providers_keep :
      (k : KademliaKey) (s : swarm.State) → Keeps issued s (swarm.get_providers k s).1
  pub bootstrap_keep : (s : swarm.State) → Keeps issued s (swarm.bootstrap s).1
  pub add_keep :
      (p : net.PeerId) (a : net.Multiaddr) (s : swarm.State)
      → Keeps issued s (swarm.add_address p a s)
  pub start_keep : (k : KademliaKey) (s : swarm.State) → Keeps issued s (swarm.start_providing k s)
  pub put_keep :
      (k : KademliaKey) (v : List ℕ) (p : net.PeerId) (t : ℕ) (s : swarm.State)
      → Keeps issued s (swarm.put_record k v p t s)
  pub listen_keep :
      (a : List (Protocol net.PeerId)) (s : swarm.State) → Keeps issued s (swarm.listen_on a s)
  pub dial_keep :
      (p : net.PeerId) (a : List net.Multiaddr) (s : swarm.State)
      → Keeps issued s (swarm.dial p a s)
  pub disconnect_keep :
      (p : net.PeerId) (s : swarm.State) → Keeps issued s (swarm.disconnect_peer_id p s)
  pub spawn_keep :
      (p : net.PeerId) (n : ServiceName) (a : ServiceAddr) (s : swarm.State)
      → Keeps issued s (swarm.spawn p n a s).1
