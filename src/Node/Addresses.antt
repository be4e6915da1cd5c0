-- ===== src/Node/Addresses.antt =====
-- The external addresses that the loop of src/node/mod.rs keeps: one confirmed and one observed
-- by a bootstrap peer for each public IP, with what it tells the swarm.
pub mod Advertised
use punchgate.Common.{
  ℕ, ◌==◌, Bool, true, false, ◌&&◌, not, Option, none, some, List, contains, is_empty, Eq,
  if◌then◌else◌,
}
use punchgate.Net.{Libp2p, IpAddr, ip_addr_eq}
use punchgate.Collections.HashMap.{HashMap, get, insert, remove}
use punchgate.Collections.HashSet.{HashSet}
use punchgate.ExternalAddr.{extract_public_ip_port, is_valid_external_candidate}

-- What the loop calls on the swarm for an external address, with the state that the calls change.
-- The last tells the hole puncher of a new candidate.
pub record AddressCalls (net : Libp2p) : Type 1 where
  pub State : Type 0
  pub add_external_address : net.Multiaddr → State → State
  pub remove_external_address : net.Multiaddr → State → State
  pub new_external_addr_candidate : net.Multiaddr → State → State

module _ (net : Libp2p) ⦃ae : Eq net.Multiaddr⦄ (calls : AddressCalls net) where
  open net use {PeerId, Multiaddr}
  open calls use {State, add_external_address, remove_external_address, new_external_addr_candidate}

  abbrev pub ByIp : Type 0
  ByIp = HashMap IpAddr Multiaddr

  -- The address that stood for the IP, where it is another.
  unfoldable pub drop_stale : Option Multiaddr → Multiaddr → State → State
  drop_stale none address sw = sw
  drop_stale (some previous) address sw =
      if previous == address then sw else remove_external_address previous sw

  -- `SwarmEvent::ExternalAddrConfirmed`.
  unfoldable pub on_external_addr_confirmed : Multiaddr → ByIp × State → ByIp × State
  unfolding extract_public_ip_port get insert drop_stale
  on_external_addr_confirmed address (by_ip, sw) = elim (extract_public_ip_port net address) [
    | none ↦ (by_ip, sw)
    | some (ip, port) ↦ (insert ip address by_ip, drop_stale (get ip by_ip) address sw)
  ]

  -- `SwarmEvent::ExternalAddrExpired`.
  unfoldable pub expire : IpAddr → Multiaddr → Option Multiaddr → ByIp → ByIp
  unfolding remove
  expire ip address none by_ip = by_ip
  expire ip address (some current) by_ip = if current == address then remove ip by_ip else by_ip

  unfoldable pub on_external_addr_expired : Multiaddr → ByIp → ByIp
  unfolding extract_public_ip_port get expire
  on_external_addr_expired address by_ip = elim (extract_public_ip_port net address) [
    | none ↦ by_ip
    | some (ip, port) ↦ expire ip address (get ip by_ip) by_ip
  ]

  -- The swarm behind an observation, with the address that stood for the IP before it.
  unfoldable pub announce : Option Multiaddr → Multiaddr → State → State
  unfolding drop_stale
  announce none observed sw =
      new_external_addr_candidate observed (add_external_address observed sw)
  announce (some previous) observed sw =
      if previous == observed
      then sw
      else new_external_addr_candidate observed
          (add_external_address observed (drop_stale (some previous) observed sw))

  -- An observation of a bootstrap peer that has no relayed connection.
  unfoldable pub observe : Multiaddr → ByIp × State → ByIp × State
  unfolding extract_public_ip_port is_valid_external_candidate get insert announce
  observe observed (by_ip, sw) =
      if is_valid_external_candidate net observed
      then (elim (extract_public_ip_port net observed) [
        | none ↦ (by_ip, sw)
        | some (ip, port) ↦ (insert ip observed by_ip, announce (get ip by_ip) observed sw)
      ])
      else (by_ip, sw)

  -- What the loop does with the observed address of `PeerIdentified`; `relayed` says whether
  -- the peer has a relayed connection.
  unfoldable pub on_observed_addr :
      ⦃pe : Eq PeerId⦄ → HashSet PeerId → PeerId → Bool → Multiaddr → ByIp × State → ByIp × State
  unfolding observe
  on_observed_addr bootstrap_peers peer relayed observed (by_ip, sw) =
      let sw' = if is_empty bootstrap_peers then add_external_address observed sw else sw in
      if contains peer bootstrap_peers && not relayed
      then observe observed (by_ip, sw')
      else (by_ip, sw')
