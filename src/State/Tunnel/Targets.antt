-- ===== src/State/Tunnel/Targets.antt =====
-- `holepunch_target_peers` of src/state/tunnel.rs: the peers to punch holes to.
use punchgate.Common.{
  ◌≡◌, refl, Bool, List, [], ◌∷◌, ◌++◌, arith, Eq, ◌==◌, contains, contains-append, if◌then◌else◌,
}
use punchgate.Net.{Libp2p}
use punchgate.Collections.HashMap.{HashMap, get, contains_key, keys}
use punchgate.Collections.Sort.{sort_by, contains-sort_by}
use punchgate.State.Tunnel.Defs.{TunnelState, has_holepunch_intent}
use punchgate.State.Tunnel.Addresses.{text_le}

module _ {ℓ} {A : Type ℓ} ⦃e : Eq A⦄ where
  -- `Vec::dedup`: of equal neighbours, one stays.
  unfoldable pub dedup : List A → List A
  dedup [] = []
  dedup (x ∷ []) = x ∷ []
  dedup (x ∷ y ∷ ys) = let rest = dedup (y ∷ ys) in if x == y then rest else x ∷ rest

  contains-dedup : (a : A) (xs : List A) → contains a (dedup xs) ≡ contains a xs
  unfolding dedup
  contains-dedup a [] = refl
  contains-dedup a (x ∷ []) = refl
  contains-dedup a (x ∷ y ∷ ys) = ground (arith, contains-dedup a (y ∷ ys))

module _ {A V : Type 0} ⦃e : Eq A⦄ where
  contains-keys : (a : A) (m : HashMap A V) → contains a (keys m) ≡ contains_key a m
  unfolding get
  contains-keys a [] = refl
  contains-keys a ((k, v) ∷ m) = ground (arith, contains-keys a m)

module _ (net : Libp2p) ⦃pe : Eq net.PeerId⦄ where
  open net use {PeerId, peer_string}

  abbrev pub name_le : PeerId → PeerId → Bool
  name_le p q = text_le (peer_string p) (peer_string q)

  unfoldable pub holepunch_target_peers : TunnelState net → List PeerId
  unfolding dedup
  holepunch_target_peers s =
      dedup (sort_by name_le (keys s.pending_by_peer ++ keys s.awaiting_holepunch))

  -- A peer is a target exactly when the machine has an intent to punch a hole to it.
  pub contains-holepunch_target_peers :
      (peer : PeerId) (s : TunnelState net)
      → contains peer (holepunch_target_peers s) ≡ has_holepunch_intent net peer s
  unfolding holepunch_target_peers has_holepunch_intent
  contains-holepunch_target_peers peer s =
      let all = keys s.pending_by_peer ++ keys s.awaiting_holepunch in
      ground (
        arith,
        contains-dedup peer (sort_by name_le all),
        contains-sort_by name_le peer all,
        contains-append peer (keys s.pending_by_peer) (keys s.awaiting_holepunch),
        contains-keys peer s.pending_by_peer,
        contains-keys peer s.awaiting_holepunch,
      )
