-- ===== src/Types.antt =====
-- src/types.rs, src/specs.rs (`ServiceAddr`) and the classification in src/nat_probe.rs: the
-- values that the state machines pass around.
use Prim.Native.String.{◌++◌ as push_str}
use text.Mathlib.TextLemmas.{append_cancel_left}
use punchgate.Common.{ℕ, ◌≡◌, ap, Bool, true, false, String, Eq, nat_eq, string_eq}
use punchgate.Net.{Ipv4Addr, Ipv6Addr}

-- `struct ServiceName(Arc<str>)`.
pub record ServiceName : Type 0 where
  pub text : String

unfoldable pub ServiceName-discrete : Discrete ServiceName
ServiceName-discrete = hlevel string_eq.dec

instance unfoldable pub service_name_eq : Eq ServiceName
unfolding ServiceName-discrete
service_name_eq = record { dec = ServiceName-discrete }

-- `struct KademliaKey(Vec<u8>)`: the bytes are the UTF-8 of the text.
pub record KademliaKey : Type 0 where
  pub text : String

-- `SERVICE_KEY_PREFIX`.
abbrev pub service_key_prefix : String
service_key_prefix = "/punchgate/svc/"

-- `KademliaKey::for_service`.
unfoldable pub for_service : ServiceName → KademliaKey
for_service name = record { text = push_str service_key_prefix name.text }

pub data HostAddr : Type 0 where
  v4 : Ipv4Addr → HostAddr
  v6 : Ipv6Addr → HostAddr
  domain : String → HostAddr

pub record ServiceAddr : Type 0 where
  pub host : HostAddr
  pub port : ℕ  -- u16

-- A pair of the source: the service, and the local address to bind.
abbrev pub Spec : Type 0
Spec = ServiceName × ServiceAddr

unfoldable pub ServiceAddr-discrete : Discrete ServiceAddr
ServiceAddr-discrete = hlevel (string_eq.dec, nat_eq.dec)

instance unfoldable pub service_addr_eq : Eq ServiceAddr
unfolding ServiceAddr-discrete
service_addr_eq = record { dec = ServiceAddr-discrete }

unfoldable pub Spec-discrete : Discrete Spec
Spec-discrete = hlevel (ServiceName-discrete, ServiceAddr-discrete)

instance unfoldable pub spec_eq : Eq Spec
unfolding Spec-discrete
spec_eq = record { dec = Spec-discrete }

pub data NatMapping : Type 0 where
  endpoint_independent address_dependent unknown : NatMapping

unfoldable pub is_holepunch_viable : NatMapping → Bool
is_holepunch_viable endpoint_independent = true
is_holepunch_viable address_dependent = false
is_holepunch_viable unknown = true

-- Services with equal keys are equal.
pub for_service_inj : (a b : ServiceName) → for_service a ≡ for_service b → a ≡ b
unfolding for_service
for_service_inj a b h =
    let e =
      append_cancel_left service_key_prefix a.text b.text (ap (λ (k : KademliaKey). k.text) h) in
    λ i. record { text = e i }
