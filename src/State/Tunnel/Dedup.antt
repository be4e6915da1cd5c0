-- ===== src/State/Tunnel/Dedup.antt =====
-- `dedup_addrs`, `dedup_peers` and `dedup_provider_candidates` of src/state/tunnel.rs: the first
-- occurrence of each value stays, in order.
use punchgate.Common.{◌≡◌, refl, Bool, ◌&&◌, not, List, [], ◌∷◌, Eq, contains, arith, if◌then◌else◌}
use punchgate.Net.{Libp2p}
use punchgate.Collections.HashSet
use punchgate.Collections.HashSet.{HashSet, inserted, IsDistinct}

module _ {ℓ} {A : Type ℓ} ⦃e : Eq A⦄ where
  -- The filter by `seen.insert(x)`, whose state is the set of values seen.
  unfoldable pub filter_unseen : HashSet A → List A → List A
  filter_unseen seen [] = []
  filter_unseen seen (x ∷ xs) =
      let rest = filter_unseen (HashSet.insert x seen) xs in
      if inserted x seen then x ∷ rest else rest

  -- The same loop over pairs that carry a flag.
  unfoldable pub filter_unseen_pairs : HashSet A → List (A × Bool) → List (A × Bool)
  filter_unseen_pairs seen [] = []
  filter_unseen_pairs seen ((x, b) ∷ xs) =
      let rest = filter_unseen_pairs (HashSet.insert x seen) xs in
      if inserted x seen then (x, b) ∷ rest else rest

module _ (net : Libp2p) where
  unfoldable pub dedup_addrs : ⦃ae : Eq net.Multiaddr⦄ → List net.Multiaddr → List net.Multiaddr
  unfolding filter_unseen
  dedup_addrs = filter_unseen []

  unfoldable pub dedup_peers : ⦃pe : Eq net.PeerId⦄ → List net.PeerId → List net.PeerId
  unfolding filter_unseen
  dedup_peers = filter_unseen []

  unfoldable pub dedup_provider_candidates :
      ⦃pe : Eq net.PeerId⦄ → List (net.PeerId × Bool) → List (net.PeerId × Bool)
  unfolding filter_unseen_pairs
  dedup_provider_candidates = filter_unseen_pairs []

module _ {ℓ} {A : Type ℓ} ⦃e : Eq A⦄ where
  -- An element stays exactly when it occurs and was not seen before.
  pub contains-filter_unseen :
      (a : A) (seen : HashSet A) (xs : List A)
      → contains a (filter_unseen seen xs) ≡ (contains a xs && not (contains a seen))
  unfolding filter_unseen
  contains-filter_unseen a seen [] = refl
  contains-filter_unseen a seen (x ∷ xs) =
      ground (
        arith,
        contains-filter_unseen a (HashSet.insert x seen) xs,
        HashSet.contains-insert x a seen,
      )

  -- What stays is different from element to element.
  pub filter_unseen-IsDistinct :
      (seen : HashSet A) (xs : List A) → IsDistinct (filter_unseen seen xs)
  unfolding filter_unseen
  filter_unseen-IsDistinct seen [] = tt
  filter_unseen-IsDistinct seen (x ∷ xs) = ground (
    arith,
    filter_unseen-IsDistinct (HashSet.insert x seen) xs,
    contains-filter_unseen x (HashSet.insert x seen) xs,
    HashSet.contains-insert x x seen,
  )
