-- ===== src/Tests/Toy.antt =====
-- A network of numbered peers and addresses.
use punchgate.Common.{ℕ, zero, suc, String, List, [], ◌∷◌}
use punchgate.Net.{Ipv4Addr, Protocol, ip4, udp, p2p, p2p_circuit, Libp2p}
use punchgate.Types.{ServiceName, ServiceAddr, domain, Spec}

abbrev pub public_ip : Ipv4Addr
public_ip = record { a = 203; b = 0; c = 113; d = 7 }

abbrev private_ip : Ipv4Addr
private_ip = record { a = 192; b = 168; c = 1; d = 2 }

-- Address 0 is public, address 1 private, and every other a relayed one.
abbrev parts : ℕ → List (Protocol ℕ)
parts zero = ip4 public_ip ∷ udp 4001 ∷ []
parts (suc zero) = ip4 private_ip ∷ udp 4001 ∷ []
parts (suc (suc n)) = ip4 public_ip ∷ udp 4001 ∷ p2p n ∷ p2p_circuit ∷ []

abbrev text_of : ℕ → String
text_of zero = "zero"
text_of (suc zero) = "one"
text_of (suc (suc zero)) = "two"
text_of _ = "many"

abbrev pub toy : Libp2p
toy = record {
  PeerId = ℕ;
  Multiaddr = ℕ;
  peer_string = text_of;
  addr_string = text_of;
  iter = parts;
}

abbrev pub web : ServiceName
web = record { text = "web" }

abbrev pub ssh : ServiceName
ssh = record { text = "ssh" }

abbrev pub local : ServiceAddr
local = record { host = domain "localhost"; port = 8080 }

abbrev pub web_spec : Spec
web_spec = (web, local)
