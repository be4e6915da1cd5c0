-- ===== src/PortMapping/Acquired.antt =====
-- What a mapping that src/port_mapping.rs returns is.
use punchgate.Common.{
  ℕ, ◌≡◌, ◌==◌, Bool, true, false, not, Option, none, some, String, arith, nat_eq, subst, if_cases,
  if_rule, Result, ok, err, bind_rule,
}
use punchgate.Net.{Ipv4Addr, v4, Libp2p}
use punchgate.ExternalAddr.{extract_public_ip_port, is_valid_external_candidate}
use punchgate.PortMapping.{
  PortMapping, Gateways, Race, timed_out, only_upnp, only_nat_pmp, upnp_first, nat_pmp_first,
  is_publicly_routable, external_of, try_upnp, try_nat_pmp_pcp, first_mapping, results, run_probes,
  acquire_port_mapping, detect_gateway, detect_local_addr,
}
use punchgate.PortMapping.Routable.{mapped_parts, mapped_lem}

-- The address of a mapping that is returned is routable.
abbrev IsMapped : Result String PortMapping → Type 0
IsMapped (ok m) = is_publicly_routable m.external_ip ≡ true
IsMapped (err e) = Unit {0}

abbrev IsAcquired : Option PortMapping → Type 0
IsAcquired none = Unit {0}
IsAcquired (some m) = is_publicly_routable m.external_ip ≡ true

not-false : (b : Bool) → not b ≡ false → b ≡ true
not-false b h = ground (arith, h)

first_mapping-IsAcquired :
    (race : Race) (u n : Result String PortMapping)
    → IsMapped u
    → IsMapped n
    → IsAcquired (first_mapping (results race u n))
unfolding first_mapping results
first_mapping-IsAcquired timed_out u n h k = tt
first_mapping-IsAcquired only_upnp (ok m) n h k = h
first_mapping-IsAcquired only_upnp (err e) n h k = tt
first_mapping-IsAcquired only_nat_pmp u (ok m) h k = k
first_mapping-IsAcquired only_nat_pmp u (err e) h k = tt
first_mapping-IsAcquired upnp_first (ok m) n h k = h
first_mapping-IsAcquired upnp_first (err e) (ok m) h k = k
first_mapping-IsAcquired upnp_first (err e) (err f) h k = tt
first_mapping-IsAcquired nat_pmp_first u (ok m) h k = k
first_mapping-IsAcquired nat_pmp_first (ok m) (err f) h k = h
first_mapping-IsAcquired nat_pmp_first (err e) (err f) h k = tt

module _ (net : Gateways) where
  try_upnp-IsMapped : (port : ℕ) (local_ip : Ipv4Addr) → IsMapped (try_upnp net port local_ip)
  unfolding try_upnp
  try_upnp-IsMapped port local_ip =
      bind_rule IsMapped net.search_gateway (λ _. tt)
        (λ gateway _.
          bind_rule IsMapped net.get_external_ip (λ _. tt)
            (λ ext_ip _.
              if_cases IsMapped (not (is_publicly_routable ext_ip)) (λ _. tt)
                (λ h.
                  bind_rule IsMapped (net.add_port port local_ip) (λ _. tt)
                    (λ added _. not-false (is_publicly_routable ext_ip) h))))

  try_nat_pmp_pcp-IsMapped :
      (port : ℕ) (gateway_ip local_ip : Ipv4Addr)
      → IsMapped (try_nat_pmp_pcp net port gateway_ip local_ip)
  unfolding try_nat_pmp_pcp
  try_nat_pmp_pcp-IsMapped port gateway_ip local_ip = if_rule IsMapped (port == 0) tt (
      bind_rule IsMapped (net.new_mapping gateway_ip local_ip port) (λ _. tt)
        (λ m _.
          bind_rule IsMapped (external_of net gateway_ip m.1) (λ _. tt)
            (λ e _.
              if_cases IsMapped (not (is_publicly_routable e.0)) (λ _. tt)
                (λ h. not-false (is_publicly_routable e.0) h))))

  run_probes-IsAcquired :
      (race : Race) (port : ℕ) (gateway_ip local_ip : Result String Ipv4Addr)
      → IsAcquired (run_probes net race port gateway_ip local_ip)
  unfolding run_probes
  run_probes-IsAcquired race port (ok gateway_ip) (ok local_ip) =
      first_mapping-IsAcquired race (try_upnp net port local_ip)
        (try_nat_pmp_pcp net port gateway_ip local_ip) (try_upnp-IsMapped port local_ip)
        (try_nat_pmp_pcp-IsMapped port gateway_ip local_ip)
  run_probes-IsAcquired race port (ok gateway_ip) (err e) = tt
  run_probes-IsAcquired race port (err e) local_ip = tt

  -- Whichever probe ends first: where a mapping with an IPv4 address is returned, the address
  -- that the node announces for it is an external candidate, and its public endpoint is the
  -- mapping's.
  pub acquired_is_public :
      (lib : Libp2p) (race : Race) (internal_port port : ℕ) (ip : Ipv4Addr) (protocol : String)
      (addr : lib.Multiaddr)
      → acquire_port_mapping net race internal_port
        ≡ some (record { external_ip = v4 ip; external_port = port; protocol_used = protocol })
      → lib.iter addr ≡ mapped_parts lib ip port
      → (extract_public_ip_port lib addr ≡ some (v4 ip, port))
        × (is_valid_external_candidate lib addr ≡ true)
  unfolding acquire_port_mapping
  acquired_is_public lib race internal_port port ip protocol addr h e =
      mapped_lem lib ip port addr
        (subst IsAcquired h
          (run_probes-IsAcquired race internal_port (detect_gateway net) (detect_local_addr net)))
        e
