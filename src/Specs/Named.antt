-- ===== src/Specs/Named.antt =====
-- The command line's specs of src/specs.rs, and the names of src/types.rs.
pub mod RoundTrip
use Prim.Native.String.{◌++◌ as push_str}
use punchgate.Common.{ℕ, Bool, true, false, Option, none, some, String, if◌then◌else◌}
use punchgate.Types.{ServiceName, ServiceAddr, KademliaKey, service_key_prefix}
use punchgate.Net.{Libp2p}
use punchgate.Specs.Addr.{IpText, ServiceAddrParseError, service_addr_from_str}
use punchgate.Common.{Result, ok, err, ◌>>=◌, map_err, ok_or}
use punchgate.Specs.Text.{is_empty_text, split_once, rsplit_once, strip_prefix}

-- `ServiceNameParseError`.
pub data ServiceNameParseError : Type 0 where
  empty_service_name : ServiceNameParseError

unfoldable pub service_name_from_str : String → Result ServiceNameParseError ServiceName
service_name_from_str s =
    if is_empty_text s then err empty_service_name else ok (record { text = s })

unfoldable pub service_name_from_key : KademliaKey → Option String
unfolding strip_prefix
service_name_from_key key = strip_prefix service_key_prefix key.text

-- `ExposeParseError`, and `TunnelByNameParseError`, which has the same variants.
pub data NamedParseError : Type 0 where
  missing_separator empty_name : NamedParseError
  invalid_addr : ServiceAddrParseError → NamedParseError

pub record ExposedService : Type 0 where
  pub name : ServiceName
  pub local_addr : ServiceAddr

pub record TunnelByNameSpec : Type 0 where
  pub service_name : ServiceName
  pub bind_addr : ServiceAddr

pub record TunnelSpec (PeerId : Type 0) : Type 0 where
  pub remote_peer : PeerId
  pub service_name : ServiceName
  pub bind_addr : ServiceAddr

pub data TunnelSpecParseError : Type 0 where
  missing_bind_separator missing_peer_separator : TunnelSpecParseError
  invalid_peer_id : String → TunnelSpecParseError
  invalid_bind_addr : ServiceAddrParseError → TunnelSpecParseError

module _ (ip : IpText) where
  unfoldable pub exposed_service_from_str : String → Result NamedParseError ExposedService
  unfolding split_once service_addr_from_str
  exposed_service_from_str s = do
    (name, addr_str) ← ok_or missing_separator (split_once "=" s)
    if is_empty_text name then err empty_name else do
      local_addr ← map_err invalid_addr (service_addr_from_str ip addr_str)
      ok (record { name = record { text = name }; local_addr = local_addr })

  unfoldable pub tunnel_by_name_from_str : String → Result NamedParseError TunnelByNameSpec
  unfolding rsplit_once service_addr_from_str
  tunnel_by_name_from_str s = do
    (name, addr_str) ← ok_or missing_separator (rsplit_once "@" s)
    if is_empty_text name then err empty_name else do
      bind_addr ← map_err invalid_addr (service_addr_from_str ip addr_str)
      ok (record { service_name = record { text = name }; bind_addr = bind_addr })

  -- The peer ids are libp2p's, with their `FromStr`, whose error is a text.
  module _ {PeerId : Type 0} (parse_peer : String → Result String PeerId) where
    unfoldable pub tunnel_spec_from_str : String → Result TunnelSpecParseError (TunnelSpec PeerId)
    unfolding split_once rsplit_once service_addr_from_str
    tunnel_spec_from_str s = do
      (peer_and_service, bind_str) ← ok_or missing_bind_separator (rsplit_once "@" s)
      (peer_str, service_name) ← ok_or missing_peer_separator (split_once ":" peer_and_service)
      remote_peer ← map_err invalid_peer_id (parse_peer peer_str)
      bind_addr ← map_err invalid_bind_addr (service_addr_from_str ip bind_str)
      ok (record {
        remote_peer = remote_peer;
        service_name = record { text = service_name };
        bind_addr = bind_addr;
      })
