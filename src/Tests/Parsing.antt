-- ===== src/Tests/Parsing.antt =====
-- The parsers on concrete texts. The addresses' texts are in tallies: `4` and four numbers with
-- dots, or `6` and one.
use Prim.Native.Char.{Char}
use punchgate.Common.{
  ℕ, zero, suc, ◌≡◌, ◌↔◌, ◌∙◌, refl, ap, false, Option, none, some, String, if◌then◌else◌, arith,
  nat_eq, ok, err,
}
use punchgate.Net.{Ipv4Addr, Ipv6Addr}
use punchgate.Types.{ServiceAddr, domain}
use punchgate.Specs.Addr.{IpText, missing_port, service_addr_from_str, service_addr_to_string}
use punchgate.Specs.Addr.RoundTrip.{IpLaws, service_addr_from_str-service_addr_to_string}
use punchgate.Specs.Text.{Lacks, is_char, joined, split_once, split_once-joined, strip_char}
use punchgate.Specs.Named.{ExposedService, TunnelSpec, tunnel_spec_from_str}
use punchgate.Specs.Named.RoundTrip.{IsTunnelSpec, tunnel_spec_from_str_iff}
use punchgate.Tests.Toy.{web, local}

abbrev tally : ℕ → String
tally zero = String.[]
tally (suc n) = String.◌∷◌ "1" (tally n)

abbrev bump : Option ℕ → Option ℕ
bump none = none
bump (some n) = some (suc n)

unfoldable count_tally : String → Option ℕ
count_tally String.[] = some zero
count_tally (String.◌∷◌ c s) =
    let rest = bump (count_tally s) in if is_char c "1" then rest else none

count_tally-tally : (n : ℕ) → count_tally (tally n) ≡ some n
unfolding count_tally nat_eq
count_tally-tally zero = refl
count_tally-tally (suc n) = rw (count_tally-tally n) refl

tally-Lacks : (c : Char) → is_char "1" c ≡ false → (n : ℕ) → Lacks c (tally n)
tally-Lacks c h zero = tt
tally-Lacks c h (suc n) = (h, tally-Lacks c h n)

-- The number in front of a dot, and what is behind it.
unfoldable field : Option (String × String) → Option (ℕ × String)
unfolding count_tally
field none = none
field (some (a, rest)) = elim (count_tally a) [ none ↦ none | some n ↦ some (n, rest) ]

unfoldable next_field : String → Option (ℕ × String)
unfolding field split_once
next_field s = field (split_once "." s)

field-some : (n : ℕ) (rest : String) → field (some (tally n, rest)) ≡ some (n, rest)
unfolding field
field-some n rest =
    ap (λ (m : Option ℕ). elim m [ none ↦ none | some k ↦ some (k, rest) ]) (count_tally-tally n)

next_field-joined :
    (n : ℕ) (rest : String) → next_field (joined "." (tally n) rest) ≡ some (n, rest)
unfolding next_field nat_eq
next_field-joined n rest =
    ap field (split_once-joined "." (tally n) rest (tally-Lacks "." refl n)) ∙ field-some n rest

abbrev and_then {ℓ} : {A B : Type ℓ} → Option A → (A → Option B) → Option B
and_then none f = none
and_then (some a) f = f a

unfoldable parse_octets : String → Option Ipv4Addr
unfolding next_field count_tally
parse_octets s = and_then (next_field s) (λ a. and_then (next_field a.1) (λ b.
    and_then (next_field b.1)
      (λ c. and_then (count_tally c.1) (λ d. some (record { a = a.0; b = b.0; c = c.0; d = d })))))

abbrev print_octets : Ipv4Addr → String
print_octets ip =
    joined "." (tally ip.a) (joined "." (tally ip.b) (joined "." (tally ip.c) (tally ip.d)))

parse_octets-print_octets : (ip : Ipv4Addr) → parse_octets (print_octets ip) ≡ some ip
unfolding parse_octets
parse_octets-print_octets ip =
    ap
      (λ m. and_then m (λ a. and_then (next_field a.1) (λ b. and_then (next_field b.1) (λ c.
        and_then (count_tally c.1) (λ d. some (record { a = a.0; b = b.0; c = c.0; d = d }))))))
      (next_field-joined ip.a (joined "." (tally ip.b) (joined "." (tally ip.c) (tally ip.d))))
    ∙ ap
        (λ m. and_then m (λ b. and_then (next_field b.1) (λ c.
          and_then (count_tally c.1) (λ d. some (record { a = ip.a; b = b.0; c = c.0; d = d })))))
        (next_field-joined ip.b (joined "." (tally ip.c) (tally ip.d)))
    ∙ ap
        (λ m. and_then m (λ c.
          and_then (count_tally c.1) (λ d. some (record { a = ip.a; b = ip.b; c = c.0; d = d }))))
        (next_field-joined ip.c (tally ip.d))
    ∙ ap (λ m. and_then m (λ d. some (record { a = ip.a; b = ip.b; c = ip.c; d = d })))
        (count_tally-tally ip.d)

unfoldable parse_bits : String → Option Ipv6Addr
unfolding count_tally
parse_bits s = and_then (count_tally s) (λ n. some (record { bits = n }))

unfoldable pub tallies : IpText
unfolding parse_octets parse_bits strip_char
tallies = record {
  parse_v4 = λ s. and_then (strip_char "4" s) parse_octets;
  parse_v6 = λ s. and_then (strip_char "6" s) parse_bits;
  print_v4 = λ ip. String.◌∷◌ "4" (print_octets ip);
  print_v6 = λ ip. String.◌∷◌ "6" (tally ip.bits);
}

pub tallies-IpLaws : IpLaws tallies
unfolding parse_bits strip_char nat_eq tallies parse_octets
tallies-IpLaws = record {
  round_v4 = parse_octets-print_octets;
  round_v6 = λ b. ap (λ m. and_then m (λ n. some (record { bits = n }))) (count_tally-tally b.bits);
  apart = λ b. refl;
  empty_v4 = refl;
  empty_v6 = refl;
  bracket_v4 = λ a. refl;
  bracket_v6 = λ b. (refl, tally-Lacks "]" refl b.bits);
}

read_local : service_addr_from_str tallies "localhost:8080" ≡ ok local
unfolding service_addr_from_str nat_eq tallies
read_local = refl

service_addr_from_str-service_addr_to_string_example :
    service_addr_from_str tallies (service_addr_to_string tallies local) ≡ ok local
unfolding strip_char nat_eq tallies
service_addr_from_str-service_addr_to_string_example =
    service_addr_from_str-service_addr_to_string tallies tallies-IpLaws local
      ((refl, refl, refl), omega arith) refl

abbrev exposed_web : ExposedService
exposed_web = record { name = web; local_addr = local }

abbrev web_at : TunnelSpec String
web_at = record { remote_peer = "peer"; service_name = web; bind_addr = local }

tunnel_spec_from_str_iff_example :
    (tunnel_spec_from_str tallies (λ s. ok s) "peer:web@localhost:8080" ≡ ok web_at)
    ↔ IsTunnelSpec tallies (λ s. ok s) "peer:web@localhost:8080" web_at
tunnel_spec_from_str_iff_example =
    tunnel_spec_from_str_iff tallies (λ s. ok s) "peer:web@localhost:8080" web_at

read_web_at : tunnel_spec_from_str tallies (λ s. ok s) "peer:web@localhost:8080" ≡ ok web_at
unfolding tunnel_spec_from_str nat_eq tallies
read_web_at = refl

-- A bracketed host that itself starts with a bracket is accepted, but not when it is printed.
abbrev odd_host : ServiceAddr
odd_host = record { host = domain "[x"; port = 80 }

read_odd : service_addr_from_str tallies "[[x]:80" ≡ ok odd_host
unfolding service_addr_from_str nat_eq tallies
read_odd = refl

reread_odd :
    service_addr_from_str tallies (service_addr_to_string tallies odd_host) ≡ err missing_port
unfolding service_addr_from_str service_addr_to_string nat_eq tallies
reread_odd = refl

read_unnamed :
    tunnel_spec_from_str tallies (λ s. ok s) "peer:@localhost:8080"
    ≡ ok (record { remote_peer = "peer"; service_name = record { text = "" }; bind_addr = local })
unfolding tunnel_spec_from_str nat_eq tallies
read_unnamed = refl
