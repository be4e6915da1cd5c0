-- ===== src/ExternalAddr/Endpoint.antt =====
-- What `extract_public_ip_port` of src/external_addr.rs finds, against the tests of the file.
use punchgate.Common.{
  ℕ, ◌≡◌, Bool, true, false, ◌&&◌, ◌||◌, not, Option, none, some, List, [], ◌∷◌, any, arith,
  if◌then◌else◌,
}
use punchgate.Net.{IpAddr, v4, v6, Protocol, ip4, ip6, tcp, udp, Libp2p}
use punchgate.Collections.HashMap.{is_some}
use punchgate.ExternalAddr.{
  needs_external_rewrite, is_public_v6, is_public_component, scan_endpoint, has_public_ip,
  extract_public_ip_port,
}

-- An address of the public internet, by the rules of the source.
abbrev pub is_public : IpAddr → Bool
is_public (v4 ip) = not (needs_external_rewrite ip)
is_public (v6 ip) = is_public_v6 ip

-- What is found so far is public.
abbrev IsPublicOrNone : Option IpAddr → Type 0
IsPublicOrNone none = Unit {0}
IsPublicOrNone (some ip) = is_public ip ≡ true

module _ {PeerId : Type 0} where
  -- A UDP or TCP port.
  abbrev pub is_port : Protocol PeerId → Bool
  is_port (udp _) = true
  is_port (tcp _) = true
  is_port _ = false

  scan_endpoint_lem :
      (ip : Option IpAddr) (port : Option ℕ) (ps : List (Protocol PeerId))
      → (is_some (scan_endpoint ip port ps).0 ≡ (is_some ip || any is_public_component ps))
        × (is_some (scan_endpoint ip port ps).1 ≡ (is_some port || any is_port ps))
  unfolding scan_endpoint is_public_component
  scan_endpoint_lem ip port [] = ground arith
  scan_endpoint_lem ip port (ip4 a ∷ ps) =
      ground
        (arith, scan_endpoint_lem (if needs_external_rewrite a then ip else some (v4 a)) port ps)
  scan_endpoint_lem ip port (ip6 a ∷ ps) =
      ground (arith, scan_endpoint_lem (if is_public_v6 a then some (v6 a) else ip) port ps)
  scan_endpoint_lem ip port (udp p ∷ ps) = ground (arith, scan_endpoint_lem ip (some p) ps)
  scan_endpoint_lem ip port (tcp p ∷ ps) = ground (arith, scan_endpoint_lem ip (some p) ps)
  scan_endpoint_lem ip port (p ∷ ps) = ground (arith, scan_endpoint_lem ip port ps)

  scan_endpoint-IsPublicOrNone :
      (ip : Option IpAddr) (port : Option ℕ) (ps : List (Protocol PeerId))
      → IsPublicOrNone ip
      → IsPublicOrNone (scan_endpoint ip port ps).0
  unfolding scan_endpoint
  scan_endpoint-IsPublicOrNone ip port [] h = h
  scan_endpoint-IsPublicOrNone ip port (ip4 a ∷ ps) h =
      scan_endpoint-IsPublicOrNone (if needs_external_rewrite a then ip else some (v4 a)) port ps
        (ground arith)
  scan_endpoint-IsPublicOrNone ip port (ip6 a ∷ ps) h =
      scan_endpoint-IsPublicOrNone (if is_public_v6 a then some (v6 a) else ip) port ps
        (ground arith)
  scan_endpoint-IsPublicOrNone ip port (udp p ∷ ps) h =
      scan_endpoint-IsPublicOrNone ip (some p) ps h
  scan_endpoint-IsPublicOrNone ip port (tcp p ∷ ps) h =
      scan_endpoint-IsPublicOrNone ip (some p) ps h
  scan_endpoint-IsPublicOrNone ip port (p ∷ ps) h = scan_endpoint-IsPublicOrNone ip port ps h

module _ (net : Libp2p) where
  -- An endpoint is extracted exactly from the addresses that have a public IP and a port.
  pub extract_public_ip_port_iff :
      (addr : net.Multiaddr)
      → is_some (extract_public_ip_port net addr)
        ≡ (has_public_ip net addr && any is_port (net.iter addr))
  unfolding extract_public_ip_port has_public_ip
  extract_public_ip_port_iff addr = ground (arith, scan_endpoint_lem none none (net.iter addr))

  -- The IP of an extracted endpoint is public.
  pub is_public-extract_public_ip_port :
      (addr : net.Multiaddr) {ip : IpAddr} {port : ℕ}
      → extract_public_ip_port net addr ≡ some (ip, port)
      → is_public ip ≡ true
  unfolding extract_public_ip_port
  is_public-extract_public_ip_port addr h =
      ground (arith, scan_endpoint-IsPublicOrNone none none (net.iter addr) tt)
