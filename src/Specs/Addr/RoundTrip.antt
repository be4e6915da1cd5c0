-- ===== src/Specs/Addr/RoundTrip.antt =====
-- Printing and parsing `HostAddr` and `ServiceAddr`.
use punchgate.Common.{
  ℕ, ◌^◌, ◌<◌, ◌≡◌, ◌∙◌, ap, if_false, refl, subst, if_cases, Option-cases, inl, inr, false, Option,
  none, some, String, nat_eq,
}
use punchgate.Net.{Ipv4Addr, Ipv6Addr}
use punchgate.Types.{HostAddr, v4, v6, domain, ServiceAddr}
use punchgate.Specs.Addr.{
  IpText, HostAddrParseError, ServiceAddrParseError, host_addr_from_str, host_addr_to_string,
  host_and_port, service_addr_from_str, service_addr_to_string, missing_port, empty_service_host,
  invalid_port,
}
use punchgate.Common.{Result, ok, err, ◌>>=◌, map_err, ok_or, bind_rule, map_err_ok}
use punchgate.Specs.Port.{
  to_digit, parse_u16, print_u16, print_u16-Lacks, parse_u16-print_u16, parse_u16_bound,
}
use punchgate.Specs.Text.{
  is_empty_text, Lacks, rsplit_once-joined, split_close-bracket, strip_char, joined,
  strip_char-push_str,
}

-- What the source relies on of the addresses' texts: an address that is printed is read back,
-- an IPv6 text is no IPv4 text, an empty text is neither, and no address contains a bracket.
pub record IpLaws (ip : IpText) : Type 0 where
  pub round_v4 : (a : Ipv4Addr) → ip.parse_v4 (ip.print_v4 a) ≡ some a
  pub round_v6 : (b : Ipv6Addr) → ip.parse_v6 (ip.print_v6 b) ≡ some b
  pub apart : (b : Ipv6Addr) → ip.parse_v4 (ip.print_v6 b) ≡ none
  pub empty_v4 : ip.parse_v4 "" ≡ none
  pub empty_v6 : ip.parse_v6 "" ≡ none
  pub bracket_v4 : (a : Ipv4Addr) → strip_char "[" (ip.print_v4 a) ≡ none
  pub bracket_v6 : (b : Ipv6Addr) → Lacks "]" (ip.print_v6 b)

-- What is printed of a text that parses is not empty.
nonempty {ℓ} :
    {A : Type ℓ} (parse : String → Option A) (s : String) {a : A}
    → parse "" ≡ none
    → parse s ≡ some a
    → is_empty_text s ≡ false
nonempty parse String.[] e h = absurd cc
nonempty parse (String.◌∷◌ c s) e h = refl

-- The last step of the parser, behind the port.
abbrev with_port : ℕ → Result HostAddrParseError HostAddr → Result ServiceAddrParseError ServiceAddr
with_port n m = map_err (λ _. empty_service_host) m >>= (λ h. ok (record { host = h; port = n }))

module _ (ip : IpText) where
  open ip use {parse_v4, parse_v6, print_v4, print_v6}

  -- A domain is a text that is not empty and no IP address.
  abbrev pub IsHostAddr : HostAddr → Type 0
  IsHostAddr (v4 a) = Unit {0}
  IsHostAddr (v6 b) = Unit {0}
  IsHostAddr (domain d) = (is_empty_text d ≡ false) × (parse_v4 d ≡ none) × (parse_v6 d ≡ none)

  -- A host that starts with a bracket is no domain name.
  abbrev pub IsPlain : HostAddr → Type 0
  IsPlain (v4 a) = Unit {0}
  IsPlain (v6 b) = Unit {0}
  IsPlain (domain d) = strip_char "[" d ≡ none

  abbrev pub IsServiceAddr : ServiceAddr → Type 0
  IsServiceAddr addr = IsHostAddr addr.host × addr.port < 2 ^ 16

  module _ (laws : IpLaws ip) where
    -- A host that is printed parses to the same host.
    pub host_addr_from_str-host_addr_to_string :
        (h : HostAddr) → IsHostAddr h → host_addr_from_str ip (host_addr_to_string ip h) ≡ ok h
    unfolding host_addr_from_str host_addr_to_string
    host_addr_from_str-host_addr_to_string (v4 a) k =
        rw (nonempty parse_v4 (print_v4 a) laws.empty_v4 (laws.round_v4 a), laws.round_v4 a) refl
    host_addr_from_str-host_addr_to_string (v6 b) k =
        rw
          (
            nonempty parse_v6 (print_v6 b) laws.empty_v6 (laws.round_v6 b),
            laws.apart b,
            laws.round_v6 b,
          )
          refl
    host_addr_from_str-host_addr_to_string (domain d) k = rw (k.0, k.1, k.2) refl

    host_nonempty : (h : HostAddr) → IsHostAddr h → is_empty_text (host_addr_to_string ip h) ≡ false
    unfolding host_addr_to_string
    host_nonempty (v4 a) k = nonempty parse_v4 (print_v4 a) laws.empty_v4 (laws.round_v4 a)
    host_nonempty (v6 b) k = nonempty parse_v6 (print_v6 b) laws.empty_v6 (laws.round_v6 b)
    host_nonempty (domain d) k = k.0

    plain-host_and_port :
        (host port : String)
        → is_empty_text host ≡ false
        → strip_char "[" host ≡ none
        → Lacks ":" port
        → host_and_port (joined ":" host port) ≡ some (host, port)
    unfolding host_and_port
    plain-host_and_port host port e h k =
        rw (host_and_port, strip_char-push_str "[" host (String.◌∷◌ ":" port) e h)
          (rsplit_once-joined ":" host port k)

    host_and_port-service_addr_to_string :
        (h : HostAddr) (n : ℕ)
        → IsHostAddr h
        → IsPlain h
        → host_and_port (service_addr_to_string ip (record { host = h; port = n }))
          ≡ some (host_addr_to_string ip h, print_u16 n)
    unfolding service_addr_to_string host_addr_to_string host_and_port strip_char to_digit nat_eq
    host_and_port-service_addr_to_string (v4 a) n h p =
        plain-host_and_port (print_v4 a) (print_u16 n) (host_nonempty (v4 a) h) (laws.bracket_v4 a)
          (print_u16-Lacks ":" refl n)
    host_and_port-service_addr_to_string (v6 b) n h p =
        split_close-bracket (print_v6 b) (print_u16 n) (laws.bracket_v6 b)
    host_and_port-service_addr_to_string (domain d) n h p =
        plain-host_and_port d (print_u16 n) h.0 p (print_u16-Lacks ":" refl n)

    -- A service address that is printed parses to the same address, where its port has 16 bits and
    -- its host is an IP address, or a domain that is accepted as one and has no bracket in front.
    pub service_addr_from_str-service_addr_to_string :
        (addr : ServiceAddr)
        → IsServiceAddr addr
        → IsPlain addr.host
        → service_addr_from_str ip (service_addr_to_string ip addr) ≡ ok addr
    unfolding service_addr_from_str
    service_addr_from_str-service_addr_to_string addr k p =
        rw (host_and_port-service_addr_to_string addr.host addr.port k.0 p) (
          if_false _ _ (host_nonempty addr.host k.0)
          ∙ rw (parse_u16-print_u16 addr.port k.1)
              (ap (with_port addr.port) (host_addr_from_str-host_addr_to_string addr.host k.0)))

    abbrev IsAccepted : Result HostAddrParseError HostAddr → Type 0
    IsAccepted (ok h) = IsHostAddr h
    IsAccepted (err e) = Unit {0}

    host_addr_from_str-IsAccepted : (s : String) → IsAccepted (host_addr_from_str ip s)
    unfolding host_addr_from_str
    host_addr_from_str-IsAccepted s =
        if_cases IsAccepted (is_empty_text s) (λ _. tt)
          (λ e. elim (Option-cases (parse_v4 s)) [
            | inr (a, k) ↦ rw (IsAccepted, k) tt
            | inl k ↦ elim (Option-cases (parse_v6 s)) [
              | inr (b, l) ↦ rw (IsAccepted, k, l) tt
              | inl l ↦ rw (IsAccepted, k, l) (e, k, l)
            ]
          ])

    -- A host that the parser returns is an address, or a name that is not empty and no address.
    pub host_addr_from_str-IsHostAddr :
        (s : String) {h : HostAddr} → host_addr_from_str ip s ≡ ok h → IsHostAddr h
    host_addr_from_str-IsHostAddr s k = subst IsAccepted k (host_addr_from_str-IsAccepted s)

    abbrev IsAcceptedAddr : Result ServiceAddrParseError ServiceAddr → Type 0
    IsAcceptedAddr (ok a) = IsServiceAddr a
    IsAcceptedAddr (err e) = Unit {0}

    service_addr_from_str-IsAcceptedAddr :
        (s : String) → IsAcceptedAddr (service_addr_from_str ip s)
    unfolding service_addr_from_str
    service_addr_from_str-IsAcceptedAddr s =
        bind_rule IsAcceptedAddr (ok_or missing_port (host_and_port s)) (λ _. tt)
          (λ parts _.
            if_cases IsAcceptedAddr (is_empty_text parts.0) (λ _. tt)
              (λ _.
                bind_rule IsAcceptedAddr (map_err invalid_port (parse_u16 parts.1)) (λ _. tt)
                  (λ port e.
                    bind_rule IsAcceptedAddr
                      (map_err (λ _. empty_service_host) (host_addr_from_str ip parts.0)) (λ _. tt)
                      (λ h k. (
                        host_addr_from_str-IsHostAddr parts.0 (
                            map_err_ok (λ _. empty_service_host) (host_addr_from_str ip parts.0) k),
                        parse_u16_bound parts.1 (map_err_ok invalid_port (parse_u16 parts.1) e),
                      )))))

    -- A service address that the parser returns has such a host, and a port of 16 bits.
    pub service_addr_from_str-IsServiceAddr :
        (s : String) {addr : ServiceAddr}
        → service_addr_from_str ip s ≡ ok addr
        → IsServiceAddr addr
    service_addr_from_str-IsServiceAddr s k =
        subst IsAcceptedAddr k (service_addr_from_str-IsAcceptedAddr s)

    -- Reading back what was read: the address printed parses to itself.
    pub service_addr_reread :
        (s : String) {addr : ServiceAddr}
        → service_addr_from_str ip s ≡ ok addr
        → IsPlain addr.host
        → service_addr_from_str ip (service_addr_to_string ip addr) ≡ ok addr
    service_addr_reread s {addr = a} k p =
        service_addr_from_str-service_addr_to_string a (service_addr_from_str-IsServiceAddr s k) p
