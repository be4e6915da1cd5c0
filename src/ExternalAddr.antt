-- ===== src/ExternalAddr.antt =====
-- src/external_addr.rs: which addresses can be reached from outside, and the public endpoint
-- that a multiaddress names.
pub mod Endpoint
use punchgate.Common.{
  ℕ, Bool, true, false, ◌&&◌, ◌||◌, not, Option, none, some, List, [], ◌∷◌, any, Eq, if◌then◌else◌,
  nat_eq,
}
use punchgate.Net.{
  Ipv4Addr, Ipv6Addr, IpAddr, v4, v6, is_unspecified_v4, is_loopback_v4, is_private,
  is_unspecified_v6, is_loopback_v6, Protocol, ip4, ip6, tcp, udp, p2p_circuit, Libp2p,
}

unfoldable pub needs_external_rewrite : Ipv4Addr → Bool
unfolding is_unspecified_v4 is_private is_loopback_v4
needs_external_rewrite ip = is_unspecified_v4 ip || (is_private ip || is_loopback_v4 ip)

-- The test that `has_public_ip` and `extract_public_ip_port` make of an IPv6 address.
unfoldable pub is_public_v6 : Ipv6Addr → Bool
unfolding is_unspecified_v6 is_loopback_v6
is_public_v6 ip = not (is_loopback_v6 ip) && not (is_unspecified_v6 ip)

-- `Option::zip`.
abbrev pub zip : Option IpAddr × Option ℕ → Option (IpAddr × ℕ)
zip (some ip, some port) = some (ip, port)
zip (_, _) = none

module _ {PeerId : Type 0} where
  abbrev pub is_circuit : Protocol PeerId → Bool
  is_circuit p2p_circuit = true
  is_circuit _ = false

  unfoldable pub is_public_component : Protocol PeerId → Bool
  is_public_component (ip4 ip) = not (needs_external_rewrite ip)
  is_public_component (ip6 ip) = is_public_v6 ip
  is_public_component _ = false

  -- The `for` loop of `extract_public_ip_port`: the last public IP and the last port win.
  unfoldable pub scan_endpoint :
      Option IpAddr → Option ℕ → List (Protocol PeerId) → Option IpAddr × Option ℕ
  scan_endpoint ip port [] = (ip, port)
  scan_endpoint ip port (ip4 a ∷ rest) =
      scan_endpoint (if needs_external_rewrite a then ip else some (v4 a)) port rest
  scan_endpoint ip port (ip6 a ∷ rest) =
      scan_endpoint (if is_public_v6 a then some (v6 a) else ip) port rest
  scan_endpoint ip port (udp p ∷ rest) = scan_endpoint ip (some p) rest
  scan_endpoint ip port (tcp p ∷ rest) = scan_endpoint ip (some p) rest
  scan_endpoint ip port (_ ∷ rest) = scan_endpoint ip port rest

module _ (net : Libp2p) where
  open net use {PeerId, Multiaddr, iter}

  unfoldable pub is_circuit_addr : Multiaddr → Bool
  is_circuit_addr addr = any is_circuit (iter addr)

  unfoldable pub has_public_ip : Multiaddr → Bool
  unfolding is_public_component
  has_public_ip addr = any is_public_component (iter addr)

  unfoldable pub is_valid_external_candidate : Multiaddr → Bool
  is_valid_external_candidate addr = not (is_circuit_addr addr) && has_public_ip addr

  unfoldable pub extract_public_ip_port : Multiaddr → Option (IpAddr × ℕ)
  unfolding scan_endpoint
  extract_public_ip_port addr = zip (scan_endpoint none none (iter addr))
