-- ===== src/State/Peer/Relay.antt =====
-- When src/state/peer.rs asks for a relay reservation, and of whom.
use punchgate.Common.{
  zero, suc, ◌≡◌, refl, inl, inr, Bool, true, false, Option, none, some, List, [], ◌∷◌, ◌++◌, any,
  not, ◌||◌, ◌&&◌, contains, arith, Eq, Option-cases, if_rule, if◌then◌else◌,
}
use punchgate.Net.{Libp2p}
use punchgate.Collections.HashMap.{HashMap, get_or, get, is_some}
use punchgate.Collections.HashSet.{HashSet, inserted}
use punchgate.Collections.HashSet
use punchgate.ExternalAddr.{has_public_ip}
use punchgate.State.Event.{
  NatStatus, private, Event, mdns_discovered, peer_identified, bootstrap_connected,
  nat_status_changed, relay_reservation_failed, connection_lost,
}
use punchgate.State.Command.{Command, kademlia_add_address, request_relay_reservation}
use punchgate.State.Peer.Defs.{
  PeerState, find, to_list, is_loopback_addr, prefer_public_addr, replace_stale_public_addr_for_ip,
  first_bootstrap, request_at, request_relay_when, maybe_request_relay,
}
use punchgate.State.Peer.Handlers.{
  discover, learn, nat_step, on_nat_status_changed, on_peer_identified,
}
use punchgate.State.Peer.Machine.{transition}

find-holds {ℓ} : {A : Type ℓ} (p : A → Bool) (xs : List A) (a : A) → find p xs ≡ some a → p a ≡ true
unfolding find
find-holds p [] a h = cc
find-holds p (x ∷ xs) a h = ground (arith, find-holds p xs a)

contains-find {ℓ} :
    {A : Type ℓ} ⦃e : Eq A⦄ (p : A → Bool) (xs : List A) (a : A)
    → find p xs ≡ some a
    → contains a xs ≡ true
unfolding find
contains-find p [] a h = cc
contains-find p (x ∷ xs) a h = ground (arith, contains-find p xs a)

any-find {ℓ} : {A : Type ℓ} (p : A → Bool) (xs : List A) → any p xs ≡ is_some (find p xs)
unfolding find
any-find p [] = refl
any-find p (x ∷ xs) = ground (arith, any-find p xs)

module _ (net : Libp2p) ⦃pe : Eq net.PeerId⦄ ⦃ae : Eq net.Multiaddr⦄ where
  open net use {PeerId, Multiaddr}

  -- The address preferred is one of the set, and is public if any of the set is.
  prefer_public_addr_lem :
      (addrs : HashSet Multiaddr) (addr : Multiaddr)
      → prefer_public_addr net addrs ≡ some addr
      → (contains addr addrs ≡ true)
        × ((not (any (has_public_ip net) addrs) || has_public_ip net addr) ≡ true)
  unfolding prefer_public_addr
  prefer_public_addr_lem addrs addr h = ground (
    arith,
    contains-find (has_public_ip net) addrs addr,
    contains-find (λ a. not (is_loopback_addr net a)) addrs addr,
    contains-find (λ _. true) addrs addr,
    find-holds (has_public_ip net) addrs addr,
    any-find (has_public_ip net) addrs,
  )

  first_bootstrap_lem :
      (bootstrap : HashSet PeerId) (known : HashMap PeerId (HashSet Multiaddr)) (peer : PeerId)
      (addrs : HashSet Multiaddr)
      → first_bootstrap net bootstrap known ≡ some (peer, addrs)
      → (contains peer bootstrap ≡ true) × (get peer known ≡ some addrs)
  unfolding first_bootstrap find get
  first_bootstrap_lem bootstrap [] peer addrs h = cc
  first_bootstrap_lem bootstrap ((k, v) ∷ known) peer addrs h =
      ground (arith, first_bootstrap_lem bootstrap known peer addrs)

  -- A reservation is asked for only by a node behind a NAT with none, of a bootstrap peer, at
  -- an address known for that peer, and at a public one if the peer has any.
  pub record IsJustified (s : PeerState net) (peer : PeerId) (addr : Multiaddr) : Type 0 where
    pub behind_nat : s.nat_status ≡ private
    pub not_reserved : s.relay_reserved ≡ false
    pub of_bootstrap : contains peer s.bootstrap_peers ≡ true
    pub known : contains addr (get_or (get peer s.known_peers) []) ≡ true
    pub prefers_public :
        (not (any (has_public_ip net) (get_or (get peer s.known_peers) []))
          || has_public_ip net addr)
        ≡ true

  abbrev pub RequestsAreJustified : PeerState net → List (Command net) → Type 0
  RequestsAreJustified s [] = Unit {0}
  RequestsAreJustified s (request_relay_reservation peer addr ∷ commands) =
      IsJustified s peer addr × RequestsAreJustified s commands
  RequestsAreJustified s (_ ∷ commands) = RequestsAreJustified s commands

  found-IsJustified :
      (s : PeerState net) (peer : PeerId) (addrs : HashSet Multiaddr) (addr : Multiaddr)
      → s.nat_status ≡ private
      → s.relay_reserved ≡ false
      → first_bootstrap net s.bootstrap_peers s.known_peers ≡ some (peer, addrs)
      → prefer_public_addr net addrs ≡ some addr
      → IsJustified s peer addr
  found-IsJustified s peer addrs addr n r found preferred =
      let (of_bootstrap, entry) =
        first_bootstrap_lem s.bootstrap_peers s.known_peers peer addrs found in
      let (known, public) = prefer_public_addr_lem addrs addr preferred in
      record {
        behind_nat = n;
        not_reserved = r;
        of_bootstrap = of_bootstrap;
        known = rw entry known;
        prefers_public = rw entry public;
      }

  request_at-justified :
      (s : PeerState net) (found : Option (PeerId × HashSet Multiaddr))
      → s.nat_status ≡ private
      → s.relay_reserved ≡ false
      → first_bootstrap net s.bootstrap_peers s.known_peers ≡ found
      → RequestsAreJustified s (to_list (request_at net found))
  unfolding request_at
  request_at-justified s none n r e = tt
  request_at-justified s (some (peer, addrs)) n r e =
      elim (Option-cases (prefer_public_addr net addrs)) [
        | inl missing ↦ rw missing tt
        | inr (addr, preferred) ↦
            rw preferred (found-IsJustified s peer addrs addr n r e preferred, tt)
      ]

  request_relay_when-justified :
      (s : PeerState net) (status : NatStatus) (reserved : Bool)
      → s.nat_status ≡ status
      → s.relay_reserved ≡ reserved
      → RequestsAreJustified s
          (to_list (request_relay_when net status reserved s.bootstrap_peers s.known_peers))
  unfolding request_relay_when
  request_relay_when-justified s private false n r = request_at-justified s _ n r refl
  request_relay_when-justified s _ _ n r = tt

  maybe_request_relay-justified :
      (s : PeerState net) → RequestsAreJustified s (to_list (maybe_request_relay net s))
  unfolding maybe_request_relay
  maybe_request_relay-justified s =
      request_relay_when-justified s s.nat_status s.relay_reserved refl refl

  append-justified :
      (s : PeerState net) (xs ys : List (Command net))
      → RequestsAreJustified s xs
      → RequestsAreJustified s ys
      → RequestsAreJustified s (xs ++ ys)
  append-justified s [] ys h k = k
  append-justified s (request_relay_reservation peer addr ∷ xs) ys h k =
      (h.0, append-justified s xs ys h.1 k)
  append-justified s (x ∷ xs) ys h k = append-justified s xs ys h k

  discover-justified :
      (s : PeerState net) (peers : List (PeerId × Multiaddr))
      (known : HashMap PeerId (HashSet Multiaddr))
      → RequestsAreJustified s (discover net peers known).1
  unfolding discover
  discover-justified s [] known = tt
  discover-justified s ((peer, addr) ∷ rest) known = discover-justified s rest _

  learn-justified :
      (s : PeerState net) (peer : PeerId) (addrs : List Multiaddr) (entry : HashSet Multiaddr)
      → RequestsAreJustified s (learn net peer addrs entry).1
  unfolding learn
  learn-justified s peer [] entry = tt
  learn-justified s peer (addr ∷ rest) entry =
      let fresh = replace_stale_public_addr_for_ip net entry addr in
      let later = HashSet.insert addr fresh in
      let commands = (learn net peer rest later).1 in
      if_rule (RequestsAreJustified s) (inserted addr fresh && has_public_ip net addr)
        {x = kademlia_add_address peer addr ∷ commands} {y = commands}
        (learn-justified s peer rest later) (learn-justified s peer rest later)

  on_peer_identified-justified :
      (peer : PeerId) (addrs : List Multiaddr) (s : PeerState net)
      → RequestsAreJustified
          (on_peer_identified net peer addrs s).0
          (on_peer_identified net peer addrs s).1
  unfolding on_peer_identified
  on_peer_identified-justified peer addrs s =
      let old = get_or (get peer s.known_peers) [] in
      let s' = (on_peer_identified net peer addrs s).0 in
      let asked = to_list (maybe_request_relay net s') in
      let is_bootstrap = contains peer s.bootstrap_peers in
      append-justified s' (learn net peer addrs old).1 (if is_bootstrap then asked else [])
        (learn-justified s' peer addrs old)
        (if_rule (RequestsAreJustified s') is_bootstrap {x = asked} {y = []}
          (maybe_request_relay-justified s') tt)

  nat_step-justified :
      (status : NatStatus) (reserved : Bool) (s : PeerState net)
      → RequestsAreJustified (nat_step net status reserved s).0 (nat_step net status reserved s).1
  unfolding nat_step
  nat_step-justified private false s = maybe_request_relay-justified s
  nat_step-justified NatStatus.public true s = tt
  nat_step-justified _ _ s = tt

  on_nat_status_changed-justified :
      (status : NatStatus) (s : PeerState net)
      → RequestsAreJustified
          (on_nat_status_changed net status s).0
          (on_nat_status_changed net status s).1
  unfolding on_nat_status_changed
  on_nat_status_changed-justified status s = nat_step-justified status s.relay_reserved _

  -- Every relay request of a transition is justified by the state that it leaves: it goes to a
  -- bootstrap peer, at an address known for that peer, a public one if there is any, and only
  -- from a node behind a NAT without a reservation.
  pub transition-justified :
      (s : PeerState net) (e : Event net)
      → RequestsAreJustified (transition net s e).0 (transition net s e).1
  unfolding transition
  transition-justified s (peer_identified peer addrs _) = on_peer_identified-justified peer addrs s
  transition-justified s (mdns_discovered peers) = discover-justified _ peers s.known_peers
  transition-justified s (relay_reservation_failed _ _) = maybe_request_relay-justified _
  transition-justified s (nat_status_changed status) = on_nat_status_changed-justified status s
  transition-justified s (bootstrap_connected peer addr) = ground arith
  transition-justified s (connection_lost peer zero) = ground arith
  transition-justified s (connection_lost peer (suc n)) = tt
  transition-justified s _ = tt
