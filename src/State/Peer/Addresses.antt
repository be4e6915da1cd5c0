-- ===== src/State/Peer/Addresses.antt =====
-- Which addresses of a peer src/state/peer.rs keeps when the peer announces new ones.
use punchgate.Common.{◌≡◌, refl, some, List, [], ◌∷◌, ◌++◌, arith, Eq, contains, ◌==◌}
use punchgate.Net.{IpAddr, ip_addr_eq, Libp2p}
use punchgate.Collections.HashMap.{get, get_or, get-insert}
use punchgate.Collections.HashSet
use punchgate.Collections.HashSet.{HashSet}
use punchgate.State.Event.{peer_identified}
use punchgate.State.Peer.Defs.{
  PeerState, extract_public_ip, keeps, replace_stale_public_addr_for_ip,
}
use punchgate.State.Peer.Handlers.{learn}
use punchgate.State.Peer.Machine.{transition}

module _ (net : Libp2p) ⦃pe : Eq net.PeerId⦄ ⦃ae : Eq net.Multiaddr⦄ where
  open net use {PeerId, Multiaddr}

  learn-append :
      (peer : PeerId) (addrs : List Multiaddr) (addr : Multiaddr) (entry : HashSet Multiaddr)
      → (learn net peer (addrs ++ addr ∷ []) entry).0
        ≡ HashSet.insert addr
            (replace_stale_public_addr_for_ip net (learn net peer addrs entry).0 addr)
  unfolding learn
  learn-append peer [] addr entry = refl
  learn-append peer (a ∷ addrs) addr entry =
      learn-append peer addrs addr (HashSet.insert a (replace_stale_public_addr_for_ip net entry a))

  -- Beside a new address, none is left with its public IP.
  replaced_lem :
      (entry : HashSet Multiaddr) (addr known : Multiaddr) (ip : IpAddr)
      → extract_public_ip net addr ≡ some ip
      → extract_public_ip net known ≡ some ip
      → contains known (HashSet.insert addr (replace_stale_public_addr_for_ip net entry addr))
        ≡ (known == addr)
  unfolding replace_stale_public_addr_for_ip
  replaced_lem entry addr known ip ha hk = ground (
    arith,
    HashSet.contains-insert addr known (HashSet.retain (keeps net addr ip) entry),
    HashSet.contains-retain_iff (keeps net addr ip) known entry,
  )

  pub identified_replaces :
      (s : PeerState net) (peer : PeerId) (addrs : List Multiaddr) (addr observed known : Multiaddr)
      {ip : IpAddr}
      → extract_public_ip net addr ≡ some ip
      → extract_public_ip net known ≡ some ip
      → contains known (
          get_or
            (get peer
              (transition net s (peer_identified peer (addrs ++ addr ∷ []) observed)).0.known_peers)
            [])
        ≡ (known == addr)
  unfolding transition
  identified_replaces s peer addrs addr observed known {ip} ha hk =
      let old = get_or (get peer s.known_peers) [] in
      let entry = (learn net peer (addrs ++ addr ∷ []) old).0 in
      ground (
        arith,
        get-insert peer peer entry s.known_peers,
        learn-append peer addrs addr old,
        replaced_lem (learn net peer addrs old).0 addr known ip ha hk,
      )
