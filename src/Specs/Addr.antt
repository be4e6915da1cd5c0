-- ===== src/Specs/Addr.antt =====
-- `HostAddr` of src/types.rs and `ServiceAddr` of src/specs.rs: `FromStr` and `Display`.
pub mod RoundTrip
use Prim.Native.String.{◌++◌ as push_str}
use punchgate.Common.{ℕ, ◌≡◌, Bool, true, false, Option, none, some, String, if◌then◌else◌}
use punchgate.Net.{Ipv4Addr, Ipv6Addr}
use punchgate.Types.{HostAddr, v4, v6, domain, ServiceAddr}
use punchgate.Common.{Result, ok, err, ◌>>=◌, map_err, ok_or}
use punchgate.Specs.Port.{ParseIntError, parse_u16, print_u16}
use punchgate.Specs.Text.{is_empty_text, split_close, rsplit_once, strip_char, joined}

-- `FromStr` and `Display` of the standard library's IP addresses.
pub record IpText : Type 0 where
  pub parse_v4 : String → Option Ipv4Addr
  pub parse_v6 : String → Option Ipv6Addr
  pub print_v4 : Ipv4Addr → String
  pub print_v6 : Ipv6Addr → String

-- `HostAddrParseError`; its one variant is `EmptyHost`.
pub data HostAddrParseError : Type 0 where
  empty_host : HostAddrParseError

pub data ServiceAddrParseError : Type 0 where
  missing_port : ServiceAddrParseError
  empty_service_host : ServiceAddrParseError
  invalid_port : ParseIntError → ServiceAddrParseError

-- The texts of the host and of the port.
unfoldable pub host_and_port : String → Option (String × String)
unfolding strip_char rsplit_once split_close
host_and_port s = elim (strip_char "[" s) [
  | some after_bracket ↦ split_close after_bracket
  | none ↦ rsplit_once ":" s
]

module _ (ip : IpText) where
  open ip use {parse_v4, parse_v6, print_v4, print_v6}

  unfoldable pub host_addr_from_str : String → Result HostAddrParseError HostAddr
  host_addr_from_str s = if is_empty_text s then err empty_host else elim (parse_v4 s) [
    | some a ↦ ok (v4 a)
    | none ↦ elim (parse_v6 s) [ some b ↦ ok (v6 b) | none ↦ ok (domain s) ]
  ]

  unfoldable pub host_addr_to_string : HostAddr → String
  host_addr_to_string (v4 a) = print_v4 a
  host_addr_to_string (v6 b) = print_v6 b
  host_addr_to_string (domain d) = d

  unfoldable pub service_addr_from_str : String → Result ServiceAddrParseError ServiceAddr
  unfolding host_and_port parse_u16 host_addr_from_str
  service_addr_from_str s = do
    (host, port_str) ← ok_or missing_port (host_and_port s)
    if is_empty_text host then err empty_service_host else do
      port ← map_err invalid_port (parse_u16 port_str)
      host_addr ← map_err (λ _. empty_service_host) (host_addr_from_str host)
      ok (record { host = host_addr; port = port })

  unfoldable pub service_addr_to_string : ServiceAddr → String
  unfolding host_addr_to_string print_u16
  service_addr_to_string addr =
      let host = host_addr_to_string addr.host in
      let plain = joined ":" host (print_u16 addr.port) in
      elim addr.host [
        | v6 b ↦ String.◌∷◌ "[" (push_str host (push_str "]:" (print_u16 addr.port)))
        | v4 a ↦ plain
        | domain d ↦ plain
      ]

  -- `ServiceAddr::connect_tuple`.
  unfoldable pub connect_tuple : ServiceAddr → String × ℕ
  unfolding host_addr_to_string
  connect_tuple addr = (host_addr_to_string addr.host, addr.port)

unfoldable pub is_ipv6 : HostAddr → Bool
is_ipv6 (v6 b) = true
is_ipv6 (v4 a) = false
is_ipv6 (domain d) = false

-- `std::net::SocketAddr`, and `From<SocketAddr>`.
pub data SocketAddr : Type 0 where
  socket_v4 : Ipv4Addr → ℕ → SocketAddr
  socket_v6 : Ipv6Addr → ℕ → SocketAddr

unfoldable pub from_socket_addr : SocketAddr → ServiceAddr
from_socket_addr (socket_v4 a p) = record { host = v4 a; port = p }
from_socket_addr (socket_v6 b p) = record { host = v6 b; port = p }
