-- ===== src/State/Tunnel/Defs.antt =====
-- The state of src/state/tunnel.rs, its constants, and the methods that configure it.
use punchgate.Common.{ℕ, ◌*◌, Bool, ◌||◌, List, [], ◌∷◌, ◌++◌, Eq}
use punchgate.Net.{Libp2p}
use punchgate.Types.{ServiceName, service_name_eq, ServiceAddr, Spec, NatMapping}
use punchgate.Collections.HashMap
use punchgate.Collections.HashMap.{HashMap, contains_key}
use punchgate.Collections.HashSet
use punchgate.Collections.HashSet.{HashSet}

pub data HolePunchPhase : Type 0 where
  punching waiting_disconnect waiting_redial : HolePunchPhase

pub record HolePunchSession (net : Libp2p) : Type 0 where
  pub attempt_id : ℕ  -- u64
  pub phase : HolePunchPhase
  pub relay_redial_addrs : List net.Multiaddr
  pub direct_snapshot : List net.Multiaddr
  pub dial_retry_dispatched : Bool

pub record PeerAddressOracle (net : Libp2p) : Type 0 where
  pub relay_addrs : List net.Multiaddr
  pub direct_addrs : List net.Multiaddr

-- A `Duration` and an `Instant` count nanoseconds.
abbrev pub from_secs : ℕ → ℕ
from_secs n = n * 1_000_000_000

abbrev pub address_candidate_ttl : ℕ
address_candidate_ttl = from_secs 45

abbrev pub max_direct_candidates : ℕ
max_direct_candidates = 8

abbrev pub max_relay_candidates : ℕ
max_relay_candidates = 4

abbrev pub max_redial_addresses : ℕ
max_redial_addresses = 12

abbrev pub max_relay_reconnect_retries : ℕ
max_relay_reconnect_retries = 3

pub record TunnelState (net : Libp2p) : Type 0 where
  pub pending_by_peer : HashMap net.PeerId (List Spec)
  pub pending_by_service : HashMap ServiceName (List ServiceAddr)
  pub service_provider_candidates : HashMap ServiceName (List net.PeerId)
  pub awaiting_holepunch : HashMap net.PeerId (List Spec)
  pub relayed_peers : HashSet net.PeerId
  pub holepunch_retry_attempts : HashMap net.PeerId ℕ  -- u32
  pub pending_retry_redial : HashSet net.PeerId
  pub holepunch_sessions : HashMap net.PeerId (HolePunchSession net)
  pub address_oracle : HashMap net.PeerId (PeerAddressOracle net)
  pub address_last_seen : HashMap net.PeerId (HashMap net.Multiaddr ℕ)
  pub nat_mapping : NatMapping

unfoldable pub new : (net : Libp2p) → TunnelState net
new net = record {
  pending_by_peer = [];
  pending_by_service = [];
  service_provider_candidates = [];
  awaiting_holepunch = [];
  relayed_peers = [];
  holepunch_retry_attempts = [];
  pending_retry_redial = [];
  holepunch_sessions = [];
  address_oracle = [];
  address_last_seen = [];
  nat_mapping = NatMapping.unknown;
}

-- `entry(k).or_default().extend(xs)`.
abbrev pub extend_entry {ℓ} :
    {K A : Type ℓ} ⦃e : Eq K⦄ → K → List A → HashMap K (List A) → HashMap K (List A)
extend_entry k xs m = HashMap.upsert k [] (λ old. old ++ xs) m

module _ (net : Libp2p) ⦃pe : Eq net.PeerId⦄ where
  open net use {PeerId}

  unfoldable pub set_nat_mapping : NatMapping → TunnelState net → TunnelState net
  set_nat_mapping mapping s = record s { nat_mapping = mapping }

  unfoldable pub add_peer_tunnel :
      PeerId → ServiceName → ServiceAddr → TunnelState net → TunnelState net
  add_peer_tunnel peer service bind s = record s {
    pending_by_peer = extend_entry peer ((service, bind) ∷ []) s.pending_by_peer;
  }

  unfoldable pub add_service_tunnel : ServiceName → ServiceAddr → TunnelState net → TunnelState net
  add_service_tunnel service bind s = record s {
    pending_by_service = extend_entry service (bind ∷ []) s.pending_by_service;
  }

  unfoldable pub has_pending_for : PeerId → TunnelState net → Bool
  has_pending_for peer s = contains_key peer s.pending_by_peer

  unfoldable pub has_holepunch_intent : PeerId → TunnelState net → Bool
  has_holepunch_intent peer s =
      contains_key peer s.pending_by_peer || contains_key peer s.awaiting_holepunch

  unfoldable pub clear_retry_state : PeerId → TunnelState net → TunnelState net
  clear_retry_state peer s = record s {
    holepunch_retry_attempts = HashMap.remove peer s.holepunch_retry_attempts;
    pending_retry_redial = HashSet.remove peer s.pending_retry_redial;
    holepunch_sessions = HashMap.remove peer s.holepunch_sessions;
  }
