-- ===== src/Node/Translate/Providers.antt =====
-- The providers that src/node/translate.rs hands to the tunnel machine.
use punchgate.Common.{
  ◌≡◌, ◌∙◌, refl, Bool, true, false, ◌||◌, List, [], ◌∷◌, map, any, contains, Eq, arith, if_rule,
  ap, All,
}
use punchgate.Net.{Libp2p}
use punchgate.Collections.Sort.{insert_sorted, sort_by, All-sort_by}
use punchgate.Node.Translate.Kad.{provider_candidates, provider_le}

module _ {A : Type 0} (le : A → A → Bool) where
  any-insert_sorted :
      (p : A → Bool) (a : A) (xs : List A) → any p (insert_sorted le a xs) ≡ (p a || any p xs)
  unfolding insert_sorted
  any-insert_sorted p a [] = refl
  any-insert_sorted p a (x ∷ xs) = ground (arith, any-insert_sorted p a xs)

  module _ {B : Type 0} ⦃e : Eq B⦄ (f : A → B) where
    contains-map-insert_sorted :
        (b : B) (a : A) (xs : List A)
        → contains b (map f (insert_sorted le a xs)) ≡ contains b (map f (a ∷ xs))
    unfolding insert_sorted
    contains-map-insert_sorted b a [] = refl
    contains-map-insert_sorted b a (x ∷ xs) = ground (arith, contains-map-insert_sorted b a xs)

    contains-map-sort_by :
        (b : B) (xs : List A) → contains b (map f (sort_by le xs)) ≡ contains b (map f xs)
    unfolding sort_by
    contains-map-sort_by b [] = refl
    contains-map-sort_by b (x ∷ xs) =
        ground (arith, contains-map-insert_sorted b x (sort_by le xs), contains-map-sort_by b xs)

module _ (net : Libp2p) where
  open net use {PeerId}

  -- Behind a provider that is not connected, none is.
  abbrev pub IsConnectedFirst : List (PeerId × Bool) → Type 0
  IsConnectedFirst [] = Unit {0}
  IsConnectedFirst ((peer, true) ∷ rest) = IsConnectedFirst rest
  IsConnectedFirst ((peer, false) ∷ rest) =
      (any (λ (c : PeerId × Bool). c.1) rest ≡ false) × IsConnectedFirst rest

  insert_sorted-IsConnectedFirst :
      (a : PeerId × Bool) (xs : List (PeerId × Bool))
      → IsConnectedFirst xs
      → IsConnectedFirst (insert_sorted (provider_le net) a xs)
  unfolding insert_sorted
  insert_sorted-IsConnectedFirst (p, true) [] h = tt
  insert_sorted-IsConnectedFirst (p, false) [] h = (refl, tt)
  insert_sorted-IsConnectedFirst (p, true) ((q, true) ∷ xs) h =
      if_rule IsConnectedFirst (provider_le net (p, true) (q, true)) h
        (insert_sorted-IsConnectedFirst (p, true) xs h)
  insert_sorted-IsConnectedFirst (p, true) ((q, false) ∷ xs) h = h
  insert_sorted-IsConnectedFirst (p, false) ((q, true) ∷ xs) h =
      insert_sorted-IsConnectedFirst (p, false) xs h
  insert_sorted-IsConnectedFirst (p, false) ((q, false) ∷ xs) h =
      if_rule IsConnectedFirst (provider_le net (p, false) (q, false)) (h.0, h)
        (
          any-insert_sorted (provider_le net) (λ (c : PeerId × Bool). c.1) (p, false) xs ∙ h.0,
          insert_sorted-IsConnectedFirst (p, false) xs h.1,
        )

  sort_by-IsConnectedFirst :
      (xs : List (PeerId × Bool)) → IsConnectedFirst (sort_by (provider_le net) xs)
  unfolding sort_by
  sort_by-IsConnectedFirst [] = tt
  sort_by-IsConnectedFirst (x ∷ xs) =
      insert_sorted-IsConnectedFirst x (sort_by (provider_le net) xs) (sort_by-IsConnectedFirst xs)

  module _ (is_connected : PeerId → Bool) where
    -- The flag of each candidate is whether it is connected.
    abbrev pub IsFlagged : PeerId × Bool → Type 0
    IsFlagged (peer, connected) = connected ≡ is_connected peer

    flagged : (ps : List PeerId) → All IsFlagged (map (λ p. (p, is_connected p)) ps)
    flagged [] = tt
    flagged (p ∷ ps) = (refl, flagged ps)

    map-flagged :
        (ps : List PeerId)
        → map (λ (c : PeerId × Bool). c.0) (map (λ p. (p, is_connected p)) ps) ≡ ps
    map-flagged [] = refl
    map-flagged (p ∷ ps) = ap (λ (xs : List PeerId). p ∷ xs) (map-flagged ps)

    -- The candidates are the providers that were found, each with whether it is connected,
    -- and none that is connected stands behind one that is not.
    pub provider_candidates_lem :
        ⦃pe : Eq net.PeerId⦄ (providers : List PeerId)
        → IsConnectedFirst (provider_candidates net is_connected providers)
          × All IsFlagged (provider_candidates net is_connected providers)
          × ((peer : PeerId)
              → contains peer (
                  map (λ (c : PeerId × Bool). c.0) (provider_candidates net is_connected providers))
                ≡ contains peer providers)
    unfolding provider_candidates
    provider_candidates_lem providers =
        let flagged_providers = map (λ p. (p, is_connected p)) providers in
        (
          sort_by-IsConnectedFirst flagged_providers,
          All-sort_by IsFlagged (provider_le net) flagged_providers (flagged providers),
          λ peer.
              contains-map-sort_by (provider_le net) (λ (c : PeerId × Bool). c.0) peer
                flagged_providers
              ∙ ap (λ (xs : List PeerId). contains peer xs) (map-flagged providers),
        )
