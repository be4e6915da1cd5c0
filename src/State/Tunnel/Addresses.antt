-- ===== src/State/Tunnel/Addresses.antt =====
-- The address book of src/state/tunnel.rs: which addresses a peer was seen at, which of them
-- are fresh, and in which order a retry dials them. `Instant::now()` is an argument, `now`.
use Prim.Native.Nat.{Ordering}
use Prim.Native.String.{compare as compare_text}
use punchgate.Common.{
  ℕ, ◌-◌, Bool, true, false, ◌&&◌, ◌||◌, not, none, some, List, [], ◌∷◌, ◌++◌, map, is_empty, take,
  ltb, leb, nat_eq, list_eq, Eq, ◌==◌, if◌then◌else◌, String,
}
use punchgate.Net.{Protocol, udp, quic, quic_v1, Libp2p}
use punchgate.ExternalAddr.{is_circuit_addr, has_public_ip}
use punchgate.Collections.HashMap
use punchgate.Collections.HashMap.{HashMap, get_or}
use punchgate.Collections.Sort.{sort_by}
use punchgate.State.Tunnel.Defs.{
  HolePunchSession, PeerAddressOracle, TunnelState, address_candidate_ttl, max_direct_candidates,
  max_relay_candidates, max_redial_addresses,
}
use punchgate.State.Tunnel.Dedup.{dedup_addrs}

module _ {PeerId : Type 0} where
  -- The loop of `has_udp_and_quic`, whose state is the two flags.
  unfoldable pub scan_udp_and_quic : Bool → Bool → List (Protocol PeerId) → Bool
  scan_udp_and_quic has_udp has_quic [] = has_udp && has_quic
  scan_udp_and_quic has_udp has_quic (udp _ ∷ rest) = scan_udp_and_quic true has_quic rest
  scan_udp_and_quic has_udp has_quic (quic_v1 ∷ rest) = scan_udp_and_quic has_udp true rest
  scan_udp_and_quic has_udp has_quic (quic ∷ rest) = scan_udp_and_quic has_udp true rest
  scan_udp_and_quic has_udp has_quic (_ ∷ rest) = scan_udp_and_quic has_udp has_quic rest

-- `saturating_duration_since` is `-` on ℕ, which stops at 0.
abbrev pub is_fresh : ℕ → ℕ → Bool
is_fresh now seen_at = leb (now - seen_at) address_candidate_ttl

abbrev pub text_le : String → String → Bool
text_le s t = elim (compare_text s t) [ Ordering.gt ↦ false | _ ↦ true ]

module _ (net : Libp2p) where
  open net use {PeerId, Multiaddr, iter, addr_string}

  -- The function `has_p2p_circuit` is `is_circuit_addr` of src/external_addr.rs once more.
  unfoldable pub has_p2p_circuit : Multiaddr → Bool
  unfolding is_circuit_addr
  has_p2p_circuit addr = is_circuit_addr net addr

  unfoldable pub has_udp_and_quic : Multiaddr → Bool
  unfolding scan_udp_and_quic
  has_udp_and_quic addr = scan_udp_and_quic false false (iter addr)

  unfoldable pub is_supported_direct_candidate : Multiaddr → Bool
  is_supported_direct_candidate addr =
      not (has_p2p_circuit addr) && (has_udp_and_quic addr && has_public_ip net addr)

  -- The comparison of `ranked.sort_by`: the latest first, and by text where times are equal.
  abbrev pub ranks_before : Multiaddr × ℕ → Multiaddr × ℕ → Bool
  ranks_before (a, a_seen) (b, b_seen) =
      ltb b_seen a_seen || (a_seen == b_seen && text_le (addr_string a) (addr_string b))

  -- The `filter_map` of `fresh_candidates`, with the time kept.
  unfoldable pub fresh_entries : ℕ → (Multiaddr → Bool) → HashMap Multiaddr ℕ → List (Multiaddr × ℕ)
  fresh_entries now predicate [] = []
  fresh_entries now predicate ((addr, seen_at) ∷ rest) =
      let others = fresh_entries now predicate rest in
      if is_fresh now seen_at && predicate addr then (addr, seen_at) ∷ others else others

  -- What is kept of one peer's entry of `address_last_seen`: all after the test for absence.
  unfoldable pub rank_fresh : ℕ → (Multiaddr → Bool) → ℕ → HashMap Multiaddr ℕ → List Multiaddr
  unfolding fresh_entries
  rank_fresh now predicate limit last_seen =
      map (λ e. e.0) (take limit (sort_by ranks_before (fresh_entries now predicate last_seen)))

module _ (net : Libp2p) ⦃pe : Eq net.PeerId⦄ where
  open net use {PeerId}

  -- `address_oracle.get(peer).cloned().unwrap_or_default()`.
  unfoldable pub oracle_of : PeerId → TunnelState net → PeerAddressOracle net
  oracle_of peer s =
      get_or (HashMap.get peer s.address_oracle) (record { relay_addrs = []; direct_addrs = [] })

module _ (net : Libp2p) ⦃pe : Eq net.PeerId⦄ ⦃ae : Eq net.Multiaddr⦄ where
  open net use {PeerId, Multiaddr}

  -- The `for` loop of `record_address_candidates`.
  unfoldable pub record_addrs : ℕ → List Multiaddr → HashMap Multiaddr ℕ → HashMap Multiaddr ℕ
  record_addrs now [] last_seen = last_seen
  record_addrs now (addr ∷ rest) last_seen = record_addrs now rest (
      if has_p2p_circuit net addr || is_supported_direct_candidate net addr
      then HashMap.insert addr now last_seen
      else last_seen)

  unfoldable pub record_address_candidates :
      PeerId → List Multiaddr → ℕ → TunnelState net → TunnelState net
  unfolding record_addrs
  record_address_candidates peer listen_addrs now s =
      let last_seen =
        HashMap.retain (λ _ seen_at. is_fresh now seen_at)
          (record_addrs now listen_addrs (get_or (HashMap.get peer s.address_last_seen) [])) in
      record s {
        address_last_seen =
            if is_empty last_seen
            then HashMap.remove peer s.address_last_seen
            else HashMap.insert peer last_seen s.address_last_seen;
      }

  unfoldable pub fresh_candidates :
      PeerId → ℕ → (Multiaddr → Bool) → ℕ → TunnelState net → List Multiaddr
  unfolding rank_fresh
  fresh_candidates peer now predicate limit s = elim (HashMap.get peer s.address_last_seen) [
    | none ↦ []
    | some last_seen ↦ rank_fresh net now predicate limit last_seen
  ]

  unfoldable pub fresh_direct : PeerId → ℕ → TunnelState net → List Multiaddr
  unfolding fresh_candidates
  fresh_direct peer now s =
      fresh_candidates peer now (is_supported_direct_candidate net) max_direct_candidates s

  unfoldable pub fresh_relay : PeerId → ℕ → TunnelState net → List Multiaddr
  unfolding fresh_candidates
  fresh_relay peer now s = fresh_candidates peer now (has_p2p_circuit net) max_relay_candidates s

  -- The list that `prioritized_redial_addrs` builds, before repetitions are dropped.
  unfoldable pub redial_sources :
      PeerId → HolePunchSession net → ℕ → TunnelState net → List Multiaddr
  unfolding oracle_of fresh_direct fresh_relay
  redial_sources peer session now s =
      session.direct_snapshot
      ++ ((oracle_of net peer s).direct_addrs
          ++ (fresh_direct peer now s
              ++ (session.relay_redial_addrs
                  ++ ((oracle_of net peer s).relay_addrs ++ fresh_relay peer now s))))

  unfoldable pub prioritized_redial_addrs :
      PeerId → HolePunchSession net → ℕ → TunnelState net → List Multiaddr
  unfolding redial_sources
  prioritized_redial_addrs peer session now s =
      take max_redial_addresses (dedup_addrs net (redial_sources peer session now s))

  -- What `update_address_oracle` makes of an active session.
  unfoldable pub refresh_session :
      List Multiaddr → List Multiaddr → HolePunchSession net → HolePunchSession net
  refresh_session relay_addrs direct_addrs session =
      let backfilled_relay = is_empty session.relay_redial_addrs && not (is_empty relay_addrs) in
      let backfilled_direct = is_empty session.direct_snapshot && not (is_empty direct_addrs) in
      let refreshed_relay =
        not (is_empty session.relay_redial_addrs)
        && (not (is_empty relay_addrs) && not (session.relay_redial_addrs == relay_addrs)) in
      let refreshed_direct =
        not (is_empty session.direct_snapshot)
        && (not (is_empty direct_addrs) && not (session.direct_snapshot == direct_addrs)) in
      let snapshots_changed =
        (backfilled_relay || backfilled_direct) || (refreshed_relay || refreshed_direct) in
      record session {
        relay_redial_addrs =
            if backfilled_relay || refreshed_relay then relay_addrs else session.relay_redial_addrs;
        direct_snapshot =
            if backfilled_direct || refreshed_direct then direct_addrs else session.direct_snapshot;
        dial_retry_dispatched = if snapshots_changed then false else session.dial_retry_dispatched;
      }
