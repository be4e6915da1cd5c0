-- ===== src/State/Peer/Handlers.antt =====
-- The arms of `transition` in src/state/peer.rs that are more than a line, a function each.
use punchgate.Common.{
  ℕ, zero, suc, Bool, true, false, ◌&&◌, none, some, List, [], ◌∷◌, ◌++◌, is_empty, Eq, contains,
  if◌then◌else◌,
}
use punchgate.Net.{ip_addr_eq, Libp2p}
use punchgate.Collections.HashMap.{HashMap, keys, get_or, map_some}
use punchgate.Collections.HashMap
use punchgate.Collections.HashSet
use punchgate.Collections.HashSet.{HashSet, inserted}
use punchgate.ExternalAddr.{has_public_ip}
use punchgate.State.Event.{Phase, joining, ready, shutting_down, NatStatus, private, public}
use punchgate.State.Command.{Command, kademlia_bootstrap, kademlia_add_address}
use punchgate.State.Peer.Defs.{
  PeerState, to_list, replace_stale_public_addr_for_ip, maybe_request_relay, ready_when,
}

module _ (net : Libp2p) ⦃pe : Eq net.PeerId⦄ ⦃ae : Eq net.Multiaddr⦄ where
  open net use {PeerId, Multiaddr}

  abbrev pub is_shutting_down : Phase → Bool
  is_shutting_down shutting_down = true
  is_shutting_down _ = false

  unfoldable pub on_bootstrap_connected :
      PeerId → Multiaddr → PeerState net → PeerState net × List (Command net)
  on_bootstrap_connected peer addr s = (
    record s {
      bootstrap_peers = HashSet.insert peer s.bootstrap_peers;
      known_peers = HashMap.upsert peer [] (HashSet.insert addr) s.known_peers;
    },
    kademlia_add_address peer addr
        ∷ (if is_shutting_down s.phase then [] else kademlia_bootstrap ∷ []),
  )

  unfoldable pub nat_step : NatStatus → Bool → PeerState net → PeerState net × List (Command net)
  unfolding maybe_request_relay
  nat_step private false s = (s, to_list (maybe_request_relay net s))
  nat_step public true s = (record s { relay_reserved = false }, [])
  nat_step _ _ s = (s, [])

  unfoldable pub on_nat_status_changed :
      NatStatus → PeerState net → PeerState net × List (Command net)
  unfolding nat_step
  on_nat_status_changed status s =
      nat_step status s.relay_reserved (record s { nat_status = status })

  unfoldable pub on_discovery_timeout : PeerState net → PeerState net × List (Command net)
  unfolding ready_when
  on_discovery_timeout s =
      (ready_when net s.phase s.kad_bootstrapped (is_empty s.known_peers) s, [])

  -- The loop of `MdnsDiscovered`.
  unfoldable pub discover :
      List (PeerId × Multiaddr)
      → HashMap PeerId (HashSet Multiaddr)
      → HashMap PeerId (HashSet Multiaddr) × List (Command net)
  discover [] known = (known, [])
  discover ((peer, addr) ∷ rest) known =
      let (known', commands) = discover rest (HashMap.upsert peer [] (HashSet.insert addr) known) in
      (known', kademlia_add_address peer addr ∷ commands)

  -- One round of the loop of `MdnsExpired`.
  unfoldable pub expire_one :
      PeerId → Multiaddr → HashMap PeerId (HashSet Multiaddr) → HashMap PeerId (HashSet Multiaddr)
  expire_one peer addr known = elim (HashMap.get peer known) [
    | none ↦ known
    | some addrs ↦
        let addrs' = HashSet.remove addr addrs in
        if is_empty addrs' then HashMap.remove peer known else HashMap.insert peer addrs' known
  ]

  unfoldable pub expire :
      List (PeerId × Multiaddr)
      → HashMap PeerId (HashSet Multiaddr)
      → HashMap PeerId (HashSet Multiaddr)
  unfolding expire_one
  expire [] known = known
  expire ((peer, addr) ∷ rest) known = expire rest (expire_one peer addr known)

  -- The loop of `PeerIdentified` over the peer's entry.
  unfoldable pub learn :
      PeerId → List Multiaddr → HashSet Multiaddr → HashSet Multiaddr × List (Command net)
  unfolding replace_stale_public_addr_for_ip
  learn peer [] entry = (entry, [])
  learn peer (addr ∷ rest) entry =
      let fresh = replace_stale_public_addr_for_ip net entry addr in
      let (entry', commands) = learn peer rest (HashSet.insert addr fresh) in
      (
        entry',
        if inserted addr fresh && has_public_ip net addr
            then kademlia_add_address peer addr ∷ commands
            else commands,
      )

  unfoldable pub on_peer_identified :
      PeerId → List Multiaddr → PeerState net → PeerState net × List (Command net)
  unfolding learn maybe_request_relay
  on_peer_identified peer listen_addrs s =
      let (entry, commands) =
        learn peer listen_addrs (get_or (HashMap.get peer s.known_peers) []) in
      let s' = record s { known_peers = HashMap.insert peer entry s.known_peers } in
      (
        s',
        commands
            ++ (if contains peer s.bootstrap_peers
                then to_list (maybe_request_relay net s')
                else []),
      )

  unfoldable pub on_relay_reservation_failed : PeerState net → PeerState net × List (Command net)
  unfolding maybe_request_relay
  on_relay_reservation_failed s =
      let s' = record s { relay_reserved = false } in (s', to_list (maybe_request_relay net s'))

  -- The last `match` of `ConnectionLost`, on the phase and on whether the known peers and the
  -- bootstrap peers are none.
  unfoldable pub rejoin_when :
      Phase → Bool → Bool → PeerState net → PeerState net × List (Command net)
  rejoin_when ready true false s =
      (record s { phase = joining; kad_bootstrapped = false }, kademlia_bootstrap ∷ [])
  rejoin_when _ _ _ s = (s, [])

  unfoldable pub on_connection_lost :
      PeerId → ℕ → PeerState net → PeerState net × List (Command net)
  unfolding rejoin_when
  on_connection_lost peer zero s =
      let s' = record s {
        known_peers = HashMap.remove peer s.known_peers;
        relay_reserved = if contains peer s.bootstrap_peers then false else s.relay_reserved;
      } in
      rejoin_when s'.phase (is_empty s'.known_peers) (is_empty s'.bootstrap_peers) s'
  on_connection_lost peer (suc n) s = (s, [])

  unfoldable pub on_no_bootstrap_peers : Phase → PeerState net → PeerState net
  on_no_bootstrap_peers joining s = record s { phase = ready }
  on_no_bootstrap_peers _ s = s
