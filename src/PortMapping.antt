-- ===== src/PortMapping.antt =====
-- src/port_mapping.rs: asking the gateway for a port. What the gateway and the interfaces answer
-- is a parameter.
pub mod Routable
pub mod Acquired
use punchgate.Common.{
  ℕ, ◌*◌, ◌/◌, ◌==◌, Bool, true, false, ◌&&◌, not, Option, none, some, String, List, [], ◌∷◌, ◌++◌,
  if◌then◌else◌, nat_eq, Result, ok, err, ◌>>=◌, ok_or,
}
use punchgate.Net.{
  Ipv4Addr, Ipv6Addr, IpAddr, v4, v6, is_private, is_loopback_v4, is_unspecified_v4, is_loopback_v6,
  is_unspecified_v6,
}

-- `u8 & 0xC0`: the two high bits.
abbrev pub and_c0 : ℕ → ℕ
and_c0 b = b / 64 * 64

unfoldable pub is_shared_address : Ipv4Addr → Bool
is_shared_address ip = ip.a == 100 && and_c0 ip.b == 64

-- `Ipv4Addr::is_link_local`, 169.254.0.0/16.
unfoldable pub is_link_local : Ipv4Addr → Bool
is_link_local ip = ip.a == 169 && ip.b == 254

unfoldable pub is_publicly_routable : IpAddr → Bool
unfolding is_private is_loopback_v4 is_link_local is_unspecified_v4 is_shared_address is_loopback_v6
    is_unspecified_v6
is_publicly_routable (v4 ip) =
    not (is_private ip)
    && (not (is_loopback_v4 ip)
        && (not (is_link_local ip) && (not (is_unspecified_v4 ip) && not (is_shared_address ip))))
is_publicly_routable (v6 ip) = not (is_loopback_v6 ip) && not (is_unspecified_v6 ip)

-- `external_addr` is an address with its port.
pub record PortMapping : Type 0 where
  pub external_ip : IpAddr
  pub external_port : ℕ
  pub protocol_used : String

-- `default_net::Interface`, as far as it is read.
pub record Interface : Type 0 where
  pub is_loopback_interface : Bool
  pub ipv4 : List Ipv4Addr

-- `crab_nat::PortMappingType`.
pub data PortMappingType : Type 0 where
  pcp : IpAddr → PortMappingType
  nat_pmp : PortMappingType

-- What the libraries answer: the default gateway, the interfaces, the UPnP gateway, and the
-- NAT-PMP or PCP mapping with its external port.
pub record Gateways : Type 0 where
  pub get_default_gateway : Result String IpAddr
  pub get_interfaces : List Interface
  pub search_gateway : Result String (Unit {0})
  pub get_external_ip : Result String IpAddr
  pub add_port : ℕ → Ipv4Addr → Result String (Unit {0})
  pub new_mapping : Ipv4Addr → Ipv4Addr → ℕ → Result String (ℕ × PortMappingType)
  pub natpmp_external_address : Ipv4Addr → Result String Ipv4Addr

-- Which probes end before the timeout, and in which order.
pub data Race : Type 0 where
  timed_out only_upnp only_nat_pmp upnp_first nat_pmp_first : Race

-- The `find` of `detect_local_addr`.
unfoldable pub first_usable : List Ipv4Addr → Option Ipv4Addr
unfolding is_loopback_v4 is_link_local
first_usable [] = none
first_usable (addr ∷ rest) =
    let later = first_usable rest in
    if not (is_loopback_v4 addr) && not (is_link_local addr) then some addr else later

-- The `filter` and `flat_map` of `detect_local_addr`.
unfoldable pub interface_addrs : List Interface → List Ipv4Addr
interface_addrs [] = []
interface_addrs (iface ∷ rest) =
    let later = interface_addrs rest in
    if iface.is_loopback_interface then later else iface.ipv4 ++ later

-- The loop of `select!`: the results of the probes that end before the timeout, in the order
-- in which they end. With the last one failed, or at the timeout, there is no mapping.
unfoldable pub first_mapping : List (Result String PortMapping) → Option PortMapping
first_mapping [] = none
first_mapping (ok mapping ∷ rest) = some mapping
first_mapping (err e ∷ rest) = first_mapping rest

unfoldable pub results :
    Race → Result String PortMapping → Result String PortMapping → List (Result String PortMapping)
results timed_out u n = []
results only_upnp u n = u ∷ []
results only_nat_pmp u n = n ∷ []
results upnp_first u n = u ∷ n ∷ []
results nat_pmp_first u n = n ∷ u ∷ []

module _ (net : Gateways) where
  open net use {
    get_default_gateway, get_interfaces, search_gateway, get_external_ip, add_port, new_mapping,
    natpmp_external_address,
  }

  abbrev pub only_v4 : IpAddr → Result String Ipv4Addr
  only_v4 (v4 ip) = ok ip
  only_v4 (v6 ip) = err "gateway has an IPv6 address, expected IPv4"

  unfoldable pub detect_gateway : Result String Ipv4Addr
  detect_gateway = get_default_gateway >>= only_v4

  unfoldable pub detect_local_addr : Result String Ipv4Addr
  unfolding first_usable interface_addrs
  detect_local_addr =
      ok_or "no non-loopback, non-link-local IPv4 address found"
        (first_usable (interface_addrs get_interfaces))

  unfoldable pub try_upnp : ℕ → Ipv4Addr → Result String PortMapping
  unfolding is_publicly_routable
  try_upnp internal_port local_ip = do
    gateway ← search_gateway
    ext_ip ← get_external_ip
    if not (is_publicly_routable ext_ip) then err "UPnP returned a non-routable address" else do
      added ← add_port internal_port local_ip
      ok (record { external_ip = ext_ip; external_port = internal_port; protocol_used = "UPnP" })

  -- The external address and the protocol's name.
  unfoldable pub external_of : Ipv4Addr → PortMappingType → Result String (IpAddr × String)
  external_of gateway_ip (pcp external_ip) = ok (external_ip, "PCP")
  external_of gateway_ip nat_pmp = do
    ext_ipv4 ← natpmp_external_address gateway_ip
    ok (v4 ext_ipv4, "NAT-PMP")

  -- `NonZeroU16::new` refuses port 0.
  unfoldable pub try_nat_pmp_pcp : ℕ → Ipv4Addr → Ipv4Addr → Result String PortMapping
  unfolding is_publicly_routable external_of
  try_nat_pmp_pcp internal_port gateway_ip local_ip =
      if internal_port == 0 then err "port must be non-zero" else do
        (external_port, mapping_type) ← new_mapping gateway_ip local_ip internal_port
        (external_ip, protocol_used) ← external_of gateway_ip mapping_type
        if not (is_publicly_routable external_ip)
            then err "NAT-PMP/PCP returned a non-routable address"
            else ok (record {
              external_ip = external_ip;
              external_port = external_port;
              protocol_used = protocol_used;
            })

  -- Behind `detect_gateway` and `detect_local_addr`.
  unfoldable pub run_probes :
      Race → ℕ → Result String Ipv4Addr → Result String Ipv4Addr → Option PortMapping
  unfolding try_upnp try_nat_pmp_pcp first_mapping results
  run_probes race internal_port (ok gateway_ip) (ok local_ip) = first_mapping (
      results race (try_upnp internal_port local_ip)
        (try_nat_pmp_pcp internal_port gateway_ip local_ip))
  run_probes race internal_port (ok gateway_ip) (err e) = none
  run_probes race internal_port (err e) _ = none

  unfoldable pub acquire_port_mapping : Race → ℕ → Option PortMapping
  unfolding detect_gateway detect_local_addr run_probes
  acquire_port_mapping race internal_port =
      run_probes race internal_port detect_gateway detect_local_addr
