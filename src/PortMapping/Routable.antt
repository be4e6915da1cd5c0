-- ===== src/PortMapping/Routable.antt =====
-- Which addresses src/port_mapping.rs accepts, and that src/external_addr.rs takes them for
-- public.
use punchgate.Common.{ℕ, ◌<◌, ◌≤◌, ◌≡◌, ◌↔◌, true, false, some, List, [], ◌∷◌, arith, nat_eq, refl}
use punchgate.Net.{Ipv4Addr, v4, Libp2p, Protocol, ip4, udp, quic_v1}
use punchgate.ExternalAddr.{
  needs_external_rewrite, extract_public_ip_port, is_valid_external_candidate, has_public_ip,
  is_circuit_addr,
}
use punchgate.PortMapping.{is_shared_address, is_publicly_routable}

-- The shared addresses are those of 100.64.0.0/10.
pub is_shared_address_iff :
    (ip : Ipv4Addr)
    → ip.b < 256
    → (is_shared_address ip ≡ true) ↔ ((ip.a ≡ 100) × 64 ≤ ip.b × ip.b ≤ 127)
unfolding is_shared_address
is_shared_address_iff ip h = (λ e. ground (arith, e), λ (e, f, g). ground (arith, e, f, g))

pub routable-needs_external_rewrite :
    (ip : Ipv4Addr) → is_publicly_routable (v4 ip) ≡ true → needs_external_rewrite ip ≡ false
unfolding is_publicly_routable needs_external_rewrite
routable-needs_external_rewrite ip h = ground (arith, h)

module _ (net : Libp2p) where
  open net use {PeerId, Multiaddr, iter}

  -- The address that src/node/mod.rs makes of a mapping, `/ip4/…/udp/…/quic-v1`.
  abbrev pub mapped_parts : Ipv4Addr → ℕ → List (Protocol PeerId)
  mapped_parts ip port = ip4 ip ∷ udp port ∷ quic_v1 ∷ []

  pub mapped_lem :
      (ip : Ipv4Addr) (port : ℕ) (addr : Multiaddr)
      → is_publicly_routable (v4 ip) ≡ true
      → iter addr ≡ mapped_parts ip port
      → (extract_public_ip_port net addr ≡ some (v4 ip, port))
        × (is_valid_external_candidate net addr ≡ true)
  unfolding extract_public_ip_port is_valid_external_candidate is_circuit_addr has_public_ip
  mapped_lem ip port addr h e = rw e (rw (routable-needs_external_rewrite ip h) (refl, refl))
