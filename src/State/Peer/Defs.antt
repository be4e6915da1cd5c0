-- ===== src/State/Peer/Defs.antt =====
-- The state of src/state/peer.rs, its address helpers, and the methods that the handlers
-- share.
use punchgate.Common.{
  Bool, true, false, ◌||◌, not, Option, none, some, List, [], ◌∷◌, any, is_empty, Eq, ◌==◌,
  contains, if◌then◌else◌,
}
use punchgate.Net.{IpAddr, ip_addr_eq, Protocol, ip4, ip6, is_loopback_v4, is_loopback_v6, Libp2p}
use punchgate.Collections.HashMap.{HashMap, map_some}
use punchgate.Collections.HashSet
use punchgate.Collections.HashSet.{HashSet, inserted}
use punchgate.ExternalAddr.{has_public_ip, extract_public_ip_port}
use punchgate.State.Event.{Phase, joining, ready, NatStatus, private}
use punchgate.State.Command.{Command, request_relay_reservation}

pub record PeerState (net : Libp2p) : Type 0 where
  pub phase : Phase
  pub nat_status : NatStatus
  pub relay_reserved : Bool
  pub known_peers : HashMap net.PeerId (HashSet net.Multiaddr)
  pub bootstrap_peers : HashSet net.PeerId
  pub kad_bootstrapped : Bool
  pub external_addrs : HashSet net.Multiaddr

unfoldable pub new : (net : Libp2p) → PeerState net
new net = record {
  phase = joining;
  nat_status = NatStatus.unknown;
  relay_reserved = false;
  known_peers = [];
  bootstrap_peers = [];
  kad_bootstrapped = false;
  external_addrs = [];
}

-- `Iterator::find`.
unfoldable pub find {ℓ} : {A : Type ℓ} → (A → Bool) → List A → Option A
find p [] = none
find p (x ∷ xs) = let rest = find p xs in if p x then some x else rest

-- `Option::or_else`.
abbrev pub or_else {ℓ} : {A : Type ℓ} → Option A → Option A → Option A
or_else none o = o
or_else (some a) o = some a

abbrev pub to_list {ℓ} : {A : Type ℓ} → Option A → List A
to_list none = []
to_list (some a) = a ∷ []

module _ {PeerId : Type 0} where
  abbrev pub is_loopback : Protocol PeerId → Bool
  is_loopback (ip4 ip) = is_loopback_v4 ip
  is_loopback (ip6 ip) = is_loopback_v6 ip
  is_loopback _ = false

module _ (net : Libp2p) where
  open net use {Multiaddr, iter}

  unfoldable pub is_loopback_addr : Multiaddr → Bool
  is_loopback_addr addr = any is_loopback (iter addr)

  unfoldable pub prefer_public_addr : HashSet Multiaddr → Option Multiaddr
  prefer_public_addr addrs =
      or_else (find (has_public_ip net) addrs)
        (or_else (find (λ a. not (is_loopback_addr a)) addrs) (find (λ _. true) addrs))

  unfoldable pub extract_public_ip : Multiaddr → Option IpAddr
  extract_public_ip addr = map_some (λ e. e.0) (extract_public_ip_port net addr)

module _ (net : Libp2p) ⦃pe : Eq net.PeerId⦄ ⦃ae : Eq net.Multiaddr⦄ where
  open net use {PeerId, Multiaddr}

  -- The test that `retain` keeps a known address by: it is the new one, or has another IP.
  abbrev pub keeps : Multiaddr → IpAddr → Multiaddr → Bool
  keeps addr ip known =
      known == addr
      || elim (extract_public_ip net known) [ none ↦ true | some known_ip ↦ not (known_ip == ip) ]

  unfoldable pub replace_stale_public_addr_for_ip :
      HashSet Multiaddr → Multiaddr → HashSet Multiaddr
  replace_stale_public_addr_for_ip entry addr = elim (extract_public_ip net addr) [
    | none ↦ entry
    | some ip ↦ HashSet.retain (keeps addr ip) entry
  ]

  -- `find` over the entries of `known_peers`.
  unfoldable pub first_bootstrap :
      HashSet PeerId → HashMap PeerId (HashSet Multiaddr) → Option (PeerId × HashSet Multiaddr)
  first_bootstrap bootstrap known = find (λ e. contains e.0 bootstrap) known

  unfoldable pub request_at : Option (PeerId × HashSet Multiaddr) → Option (Command net)
  request_at none = none
  request_at (some (peer, addrs)) =
      map_some (request_relay_reservation peer) (prefer_public_addr net addrs)

  unfoldable pub request_relay_when :
      NatStatus → Bool → HashSet PeerId → HashMap PeerId (HashSet Multiaddr) → Option (Command net)
  unfolding first_bootstrap request_at
  request_relay_when private false bootstrap known = request_at (first_bootstrap bootstrap known)
  request_relay_when _ _ _ _ = none

  unfoldable pub maybe_request_relay : PeerState net → Option (Command net)
  unfolding request_relay_when
  maybe_request_relay s =
      request_relay_when s.nat_status s.relay_reserved s.bootstrap_peers s.known_peers

  unfoldable pub ready_when : Phase → Bool → Bool → PeerState net → PeerState net
  ready_when joining true false s = record s { phase = ready }
  ready_when _ _ _ s = s

  unfoldable pub maybe_become_ready : PeerState net → PeerState net × List (Command net)
  unfolding ready_when
  maybe_become_ready s = (ready_when s.phase s.kad_bootstrapped (is_empty s.external_addrs) s, [])
