-- ===== src/Net.antt =====
-- What the source takes from outside: IP addresses from the standard library, and the peer
-- ids and multiaddresses of the crate libp2p.
use punchgate.Common.{ℕ, ◌==◌, Bool, ◌&&◌, ◌||◌, leb, List, String, Eq, nat_eq}

-- `std::net::Ipv4Addr`, by its octets.
pub record Ipv4Addr : Type 0 where
  pub a : ℕ
  pub b : ℕ
  pub c : ℕ
  pub d : ℕ

-- `std::net::Ipv6Addr`, by its 128 bits.
pub record Ipv6Addr : Type 0 where
  pub bits : ℕ

pub data IpAddr : Type 0 where
  v4 : Ipv4Addr → IpAddr
  v6 : Ipv6Addr → IpAddr

unfoldable pub IpAddr-discrete : Discrete IpAddr
IpAddr-discrete = hlevel nat_eq.dec

instance unfoldable pub ip_addr_eq : Eq IpAddr
unfolding IpAddr-discrete
ip_addr_eq = record { dec = IpAddr-discrete }

module _ (ip : Ipv4Addr) where
  open ip use {a, b, c, d}

  unfoldable pub is_unspecified_v4 : Bool
  is_unspecified_v4 = a == 0 && (b == 0 && (c == 0 && d == 0))

  unfoldable pub is_loopback_v4 : Bool
  is_loopback_v4 = a == 127

  unfoldable pub is_private : Bool
  is_private = a == 10 || ((a == 172 && (leb 16 b && leb b 31)) || (a == 192 && b == 168))

unfoldable pub is_unspecified_v6 : Ipv6Addr → Bool
is_unspecified_v6 ip = ip.bits == 0

unfoldable pub is_loopback_v6 : Ipv6Addr → Bool
is_loopback_v6 ip = ip.bits == 1

-- `libp2p::multiaddr::Protocol`: the variants that the source tells apart, and `other` for
-- every variant that it treats alike.
pub data Protocol (PeerId : Type 0) : Type 0 where
  ip4 : Ipv4Addr → Protocol PeerId
  ip6 : Ipv6Addr → Protocol PeerId
  tcp udp : ℕ → Protocol PeerId
  quic quic_v1 p2p_circuit other : Protocol PeerId
  p2p : PeerId → Protocol PeerId

-- The types of libp2p, with what the source calls on them: equality, `to_string`, and the
-- components of an address.
pub record Libp2p : Type 1 where
  pub PeerId : Type 0
  pub Multiaddr : Type 0
  pub peer_string : PeerId → String
  pub addr_string : Multiaddr → String
  pub iter : Multiaddr → List (Protocol PeerId)
