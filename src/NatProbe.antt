-- ===== src/NatProbe.antt =====
-- src/nat_probe.rs: the kind of NAT that a node is behind, from the addresses at which STUN
-- servers see it. The requests to the servers are input and output: what they return is an
-- argument.
use punchgate.Common.{
  ℕ, ◌≡◌, ◌↔◌, Bool, true, false, ◌&&◌, Option, none, some, List, [], ◌∷◌, map, leb, length, nat_eq,
  ◌==◌, contains, arith, Bool-cases, if◌then◌else◌, inl, inr,
}
use punchgate.Net.{IpAddr}
use punchgate.Types.{
  NatMapping, endpoint_independent, address_dependent, unknown, is_holepunch_viable,
}

-- `std::net::SocketAddr`.
pub record SocketAddr : Type 0 where
  pub ip : IpAddr
  pub port : ℕ  -- u16

-- Whether every address has the port.
unfoldable pub all_have_port : ℕ → List SocketAddr → Bool
all_have_port port [] = true
all_have_port port (addr ∷ addrs) = addr.port == port && all_have_port port addrs

unfoldable pub all_same_port : List SocketAddr → Bool
unfolding all_have_port
all_same_port [] = true
all_same_port (first ∷ addrs) = all_have_port first.port (first ∷ addrs)

unfoldable pub classify_mapping : List SocketAddr → NatMapping
unfolding all_same_port
classify_mapping addrs = if all_same_port addrs then endpoint_independent else address_dependent

-- The argument is what `probe_stun_servers` returns, `none` for an error.
unfoldable pub detect_nat_mapping : Option (List SocketAddr) → NatMapping
unfolding classify_mapping
detect_nat_mapping none = unknown
detect_nat_mapping (some addrs) = if leb 2 (length addrs) then classify_mapping addrs else unknown

-- Two servers see different ports.
abbrev pub SeesTwoPorts : List SocketAddr → Type 0
SeesTwoPorts addrs =
    (p : ℕ) × (q : ℕ) × (contains p (map (λ addr. addr.port) addrs) ≡ true)
    × (contains q (map (λ addr. addr.port) addrs) ≡ true)
    × ((p == q) ≡ false)

-- A port that is not shared is seen.
other_port :
    (p : ℕ) (addrs : List SocketAddr)
    → all_have_port p addrs ≡ false
    → (q : ℕ) × (contains q (map (λ addr. addr.port) addrs) ≡ true) × ((p == q) ≡ false)
unfolding all_have_port
other_port p [] h = cc
other_port p (addr ∷ addrs) h = elim (Bool-cases (addr.port == p)) [
  | inl e ↦
      let (q, seen, differs) = other_port p addrs (ground arith) in
      (q, ground (arith, seen), differs)
  | inr e ↦ (addr.port, ground arith, ground arith)
]

shared_port :
    (p q : ℕ) (addrs : List SocketAddr)
    → all_have_port p addrs ≡ true
    → contains q (map (λ addr. addr.port) addrs) ≡ true
    → q ≡ p
unfolding all_have_port
shared_port p q [] h s = cc
shared_port p q (addr ∷ addrs) h s = ground (arith, shared_port p q addrs)

two_ports :
    (addrs : List SocketAddr)
    → (is_holepunch_viable (detect_nat_mapping (some addrs)) ≡ false)
    → SeesTwoPorts addrs
unfolding detect_nat_mapping is_holepunch_viable
two_ports [] h = cc
two_ports (first ∷ addrs) h =
    let (q, seen, differs) = other_port first.port (first ∷ addrs) (ground arith) in
    (first.port, q, ground arith, seen, differs)

not_viable :
    (addrs : List SocketAddr)
    → SeesTwoPorts addrs
    → is_holepunch_viable (detect_nat_mapping (some addrs)) ≡ false
unfolding detect_nat_mapping is_holepunch_viable
not_viable [] (p, q, hp, hq, d) = cc
not_viable (first ∷ []) (p, q, hp, hq, d) = ground arith
not_viable (first ∷ second ∷ addrs) (p, q, hp, hq, d) = ground (
  arith,
  shared_port first.port p (first ∷ second ∷ addrs),
  shared_port first.port q (first ∷ second ∷ addrs),
)

-- Where the servers answer, hole punching is not viable exactly when two of them see different
-- ports.
pub is_holepunch_viable_iff :
    (addrs : List SocketAddr)
    → (is_holepunch_viable (detect_nat_mapping (some addrs)) ≡ false) ↔ SeesTwoPorts addrs
is_holepunch_viable_iff addrs = (two_ports addrs, not_viable addrs)
