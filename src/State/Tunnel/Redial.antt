-- ===== src/State/Tunnel/Redial.antt =====
-- Which addresses src/state/tunnel.rs dials for a retry: few, different, fresh, and direct ones
-- first.
use punchgate.Common.{
  All, ℕ, zero, suc, ◌≤◌, ◌≡◌, refl, Bool, true, ◌&&◌, none, some, List, [], ◌∷◌, map, take, length,
  arith, Eq, contains, Bool-cases, inl, inr, ◌-◌, ap,
}
use mathlib.Core.List.{head?}
use punchgate.Net.{Libp2p}
use punchgate.Collections.HashMap.{HashMap, get, IsMap}
use punchgate.Collections.HashSet.{IsDistinct}
use punchgate.Collections.Sort.{sort_by, All-sort_by}
use punchgate.State.Tunnel.Defs.{
  address_candidate_ttl, TunnelState, HolePunchSession, max_redial_addresses,
}
use punchgate.State.Tunnel.Dedup.{dedup_addrs, filter_unseen, filter_unseen-IsDistinct}
use punchgate.State.Tunnel.Addresses.{
  is_fresh, ranks_before, fresh_entries, fresh_candidates, redial_sources, prioritized_redial_addrs,
}

module _ {ℓ} {A : Type ℓ} where
  length-take-le : (n : ℕ) (xs : List A) → length (take n xs) ≤ n
  length-take-le zero xs = omega arith
  length-take-le (suc n) [] = omega arith
  length-take-le (suc n) (x ∷ xs) = omega (arith, length-take-le n xs)

module _ {ℓ} {A : Type ℓ} ⦃e : Eq A⦄ where
  contains-take :
      (a : A) (n : ℕ) (xs : List A) → contains a (take n xs) ≡ true → contains a xs ≡ true
  contains-take a zero xs h = cc
  contains-take a (suc n) [] h = h
  contains-take a (suc n) (x ∷ xs) h = ground (arith, contains-take a n xs)

  take-IsDistinct : (n : ℕ) (xs : List A) → IsDistinct xs → IsDistinct (take n xs)
  take-IsDistinct zero xs h = tt
  take-IsDistinct (suc n) [] h = tt
  take-IsDistinct (suc n) (x ∷ xs) h =
      ground (arith, take-IsDistinct n xs h.1, contains-take x n xs)

-- A predicate on every element of a list.
module _ {ℓ} {A : Type ℓ} (P : A → Type ℓ) where
  pub All-take : (n : ℕ) (xs : List A) → All P xs → All P (take n xs)
  All-take zero xs h = tt
  All-take (suc n) [] h = tt
  All-take (suc n) (x ∷ xs) h = (h.0, All-take n xs h.1)

module _ (net : Libp2p) ⦃pe : Eq net.PeerId⦄ ⦃ae : Eq net.Multiaddr⦄ where
  open net use {PeerId, Multiaddr}

  -- At most twelve addresses are dialled, and none twice.
  pub prioritized_redial_addrs_lem :
      (peer : PeerId) (session : HolePunchSession net) (now : ℕ) (s : TunnelState net)
      → (length (prioritized_redial_addrs net peer session now s) ≤ max_redial_addresses)
        × IsDistinct (prioritized_redial_addrs net peer session now s)
  unfolding prioritized_redial_addrs dedup_addrs
  prioritized_redial_addrs_lem peer session now s =
      let unique = filter_unseen [] (redial_sources net peer session now s) in
      (
        length-take-le max_redial_addresses unique,
        take-IsDistinct max_redial_addresses unique (filter_unseen-IsDistinct [] _),
      )

  -- Where the session's snapshot of direct addresses is not empty, its first is dialled first.
  pub direct_first :
      (peer : PeerId) (session : HolePunchSession net) (now : ℕ) (s : TunnelState net)
      {a : Multiaddr} {rest : List Multiaddr}
      → session.direct_snapshot ≡ a ∷ rest
      → head? (prioritized_redial_addrs net peer session now s) ≡ some a
  unfolding prioritized_redial_addrs dedup_addrs redial_sources filter_unseen
  direct_first peer session now s h = rw h

  -- An entry of the address book that passes both tests.
  abbrev IsFreshEntry : ℕ → (Multiaddr → Bool) → HashMap Multiaddr ℕ → Multiaddr × ℕ → Type 0
  IsFreshEntry now predicate last_seen (a, seen_at) =
      (get a last_seen ≡ some seen_at) × (is_fresh now seen_at ≡ true) × (predicate a ≡ true)

  IsFreshEntry-cons :
      (now : ℕ) (predicate : Multiaddr → Bool) (k : Multiaddr) (v : ℕ) (m : HashMap Multiaddr ℕ)
      (entries : List (Multiaddr × ℕ))
      → get k m ≡ none
      → All (IsFreshEntry now predicate m) entries
      → All (IsFreshEntry now predicate ((k, v) ∷ m)) entries
  unfolding get
  IsFreshEntry-cons now predicate k v m [] h all = tt
  IsFreshEntry-cons now predicate k v m ((a, t) ∷ entries) h all =
      (ground arith, IsFreshEntry-cons now predicate k v m entries h all.1)

  fresh_entries-IsFreshEntry :
      (now : ℕ) (predicate : Multiaddr → Bool) (m : HashMap Multiaddr ℕ)
      → IsMap m
      → All (IsFreshEntry now predicate m) (fresh_entries net now predicate m)
  unfolding fresh_entries get
  fresh_entries-IsFreshEntry now predicate [] h = tt
  fresh_entries-IsFreshEntry now predicate ((k, v) ∷ m) h =
      let absent : get k m ≡ none = ground arith in
      let later =
        IsFreshEntry-cons now predicate k v m (fresh_entries net now predicate m) absent
          (fresh_entries-IsFreshEntry now predicate m h.1) in
      elim (Bool-cases (is_fresh now v && predicate k)) [
        | inl e ↦ rw e (ground arith, later)
        | inr e ↦ rw e later
      ]

  -- A candidate: an address seen within the last 45 seconds that passes the test.
  abbrev pub IsCandidate : ℕ → (Multiaddr → Bool) → HashMap Multiaddr ℕ → Multiaddr → Type 0
  IsCandidate now predicate last_seen a =
      (seen_at : ℕ) × (get a last_seen ≡ some seen_at)
      × (now - seen_at ≤ address_candidate_ttl)
      × (predicate a ≡ true)

  candidates-IsCandidate :
      (now : ℕ) (predicate : Multiaddr → Bool) (m : HashMap Multiaddr ℕ)
      (entries : List (Multiaddr × ℕ))
      → All (IsFreshEntry now predicate m) entries
      → All (IsCandidate now predicate m) (map (λ e. e.0) entries)
  candidates-IsCandidate now predicate m [] h = tt
  candidates-IsCandidate now predicate m ((a, seen_at) ∷ entries) h =
      ((seen_at, h.0.0, ground arith, h.0.2), candidates-IsCandidate now predicate m entries h.1)

  length-map : (entries : List (Multiaddr × ℕ)) → length (map (λ e. e.0) entries) ≡ length entries
  length-map [] = refl
  length-map (x ∷ xs) = ap suc (length-map xs)

  -- Of a peer with sightings, one for an address, the fresh candidates are no more than the
  -- limit, and each passes the test and was seen at most 45 seconds before.
  pub fresh_candidates_lem :
      (peer : PeerId) (now : ℕ) (predicate : Multiaddr → Bool) (limit : ℕ) (s : TunnelState net)
      {last_seen : HashMap Multiaddr ℕ}
      → get peer s.address_last_seen ≡ some last_seen
      → IsMap last_seen
      → All (IsCandidate now predicate last_seen) (fresh_candidates net peer now predicate limit s)
        × (length (fresh_candidates net peer now predicate limit s) ≤ limit)
  unfolding fresh_candidates
  fresh_candidates_lem peer now predicate limit s {last_seen} h m =
      let fresh = fresh_entries net now predicate last_seen in
      let ranked = sort_by (ranks_before net) fresh in
      let P = IsFreshEntry now predicate last_seen in
      rw (h, fresh_candidates)
        (
          candidates-IsCandidate now predicate last_seen (take limit ranked) (
              All-take P limit ranked (
                All-sort_by P (ranks_before net) fresh
                  (fresh_entries-IsFreshEntry now predicate last_seen m))),
          omega (arith, length-map (take limit ranked), length-take-le limit ranked),
        )
