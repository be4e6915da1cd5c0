-- ===== src/Node/Execute/Reservation.antt =====
-- The address of a relay reservation (src/node/execute.rs), as src/node/translate.rs reads it
-- when its listener fails.
use punchgate.Common.{
  ◌≡◌, ◌∙◌, refl, ap, Bool, true, false, Option, none, some, List, [], ◌∷◌, ◌++◌,
}
use punchgate.Net.{Libp2p, Protocol, p2p_circuit, p2p}
use punchgate.Node.Execute.{before_p2p, reservation_addr}
use punchgate.Node.Translate.{scan_relay, extract_relay_peer_from_addrs}

module _ {PeerId : Type 0} where
  scan_relay-before_p2p :
      (o : Option PeerId) (c : Bool) (relay_peer : PeerId) (addr : List (Protocol PeerId))
      → scan_relay o c (before_p2p addr ++ p2p relay_peer ∷ p2p_circuit ∷ []) ≡ some relay_peer
  unfolding scan_relay before_p2p
  scan_relay-before_p2p o c relay_peer [] = refl
  scan_relay-before_p2p o c relay_peer (p2p pid ∷ rest) = refl
  scan_relay-before_p2p o c relay_peer (p2p_circuit ∷ rest) =
      scan_relay-before_p2p o true relay_peer rest
  scan_relay-before_p2p o c relay_peer (_ ∷ rest) = scan_relay-before_p2p o c relay_peer rest

module _ (net : Libp2p) where
  open net use {PeerId, Multiaddr, iter}

  -- Where the address that a reservation listens on comes back first in a closed listener, the
  -- peer taken from it is the relay that the reservation was asked of, whatever peers and
  -- circuits the relay's own address names.
  pub extract_relay_peer-reservation_addr :
      (relay_peer : PeerId) (relay_addr listening : Multiaddr) (rest : List Multiaddr)
      → iter listening ≡ reservation_addr relay_peer (iter relay_addr)
      → extract_relay_peer_from_addrs net (listening ∷ rest) ≡ some relay_peer
  unfolding extract_relay_peer_from_addrs reservation_addr
  extract_relay_peer-reservation_addr relay_peer relay_addr listening rest e =
      ap
        (λ (o : Option PeerId). elim o [
          | some peer ↦ some peer
          | none ↦ extract_relay_peer_from_addrs net rest
        ])
        (ap (λ (parts : List (Protocol PeerId)). scan_relay none false parts) e
          ∙ scan_relay-before_p2p none false relay_peer (iter relay_addr))
