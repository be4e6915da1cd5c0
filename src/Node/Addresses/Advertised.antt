-- ===== src/Node/Addresses/Advertised.antt =====
-- What the swarm advertises behind an observation of src/node/mod.rs.
use punchgate.Common.{
  ℕ, ◌≡◌, ◌≢◌, ◌==◌, ◌||◌, ◌&&◌, not, Bool, true, false, Option, none, some, arith, Eq, ap, ◌⊎◌,
  inl, inr, ◌∙◌,
}
use punchgate.Net.{Libp2p, IpAddr, ip_addr_eq}
use punchgate.Collections.HashMap.{get, get-insert}
use punchgate.ExternalAddr.{extract_public_ip_port, is_valid_external_candidate}
use punchgate.Node.Addresses.{AddressCalls, ByIp, announce, observe}

-- What the source relies on of the swarm: it advertises an address that was added until it is
-- removed.
pub record AddressLaws {net : Libp2p} ⦃ae : Eq net.Multiaddr⦄ (calls : AddressCalls net)
    : Type 0 where
  pub advertised : calls.State → net.Multiaddr → Bool
  pub advertised-add :
      (a b : net.Multiaddr) (s : calls.State)
      → advertised (calls.add_external_address a s) b ≡ (b == a || advertised s b)
  pub advertised-remove :
      (a b : net.Multiaddr) (s : calls.State)
      → advertised (calls.remove_external_address a s) b ≡ (not (b == a) && advertised s b)
  pub advertised-candidate :
      (a b : net.Multiaddr) (s : calls.State)
      → advertised (calls.new_external_addr_candidate a s) b ≡ advertised s b

module _ (net : Libp2p) ⦃ae : Eq net.Multiaddr⦄ (calls : AddressCalls net)
    (laws : AddressLaws calls) where
  open net use {Multiaddr}
  open calls use {State, add_external_address, remove_external_address}
  open laws use {advertised, advertised-add, advertised-remove, advertised-candidate}

  -- The observed address is advertised, the one before it no more, and all else is as it was.
  abbrev pub IsAnnounced : Option Multiaddr → Multiaddr → State → State → Type 0
  IsAnnounced previous observed s t =
      (advertised t observed ≡ true)
      × ((a : Multiaddr) → previous ≡ some a → a ≢ observed → advertised t a ≡ false)
      × ((b : Multiaddr) → b ≢ observed → previous ≢ some b → advertised t b ≡ advertised s b)

  add-advertised :
      (observed b : Multiaddr) (s : State)
      → advertised (calls.new_external_addr_candidate observed (add_external_address observed s)) b
        ≡ (b == observed || advertised s b)
  add-advertised observed b s =
      advertised-candidate observed b (add_external_address observed s)
      ∙ advertised-add observed b s

  announce-IsAnnounced :
      (previous : Option Multiaddr) (observed : Multiaddr) (s : State)
      → previous ≢ some observed
      → IsAnnounced previous observed s (announce net calls previous observed s)
  unfolding announce
  announce-IsAnnounced none observed s h = (
    ground (arith, add-advertised observed observed s),
    λ a e n. absurd cc,
    λ b n e. ground (arith, add-advertised observed b s, n),
  )
  announce-IsAnnounced (some previous) observed s h =
      let left = remove_external_address previous s in
      let other : previous ≢ observed = λ e. h (ap (λ x. some x) e) in
      (
        ground (arith, other, add-advertised observed observed left),
        λ a e n.
            ground
              (arith, other, add-advertised observed a left, advertised-remove previous a s, e, n),
        λ b n e. ground (
          arith,
          other,
          add-advertised observed b left,
          advertised-remove previous b s,
          n,
          λ (x : previous ≡ b). e (ap (λ y. some y) x),
        ),
      )

  -- What an observation does to the swarm: nothing where the address stood for its IP already.
  abbrev pub IsRefreshed : Option Multiaddr → Multiaddr → State → State → Type 0
  IsRefreshed previous observed s t =
      ((previous ≡ some observed) × (t ≡ s))
      ⊎ ((previous ≢ some observed) × IsAnnounced previous observed s t)

  announce-IsRefreshed :
      (previous : Option Multiaddr) (observed : Multiaddr) (s : State)
      → IsRefreshed previous observed s (announce net calls previous observed s)
  unfolding announce
  announce-IsRefreshed none observed s =
      let new : none ≢ some observed = λ e. absurd cc in
      inr (new, announce-IsAnnounced none observed s new)
  announce-IsRefreshed (some previous) observed s = elim (ae.dec previous observed) [
    | yes e ↦ inl (ap (λ x. some x) e, ground (arith, e))
    | no n ↦
        let new : some previous ≢ some observed = λ e. n cc in
        inr (new, announce-IsAnnounced (some previous) observed s new)
  ]

  pub observe_replaces :
      (observed : Multiaddr) (by_ip : ByIp net calls) (s : State) (ip : IpAddr) (port : ℕ)
      → is_valid_external_candidate net observed ≡ true
      → extract_public_ip_port net observed ≡ some (ip, port)
      → let after = observe net calls observed (by_ip, s) in
        (get ip after.0 ≡ some observed) × IsRefreshed (get ip by_ip) observed s after.1
  unfolding observe
  observe_replaces observed by_ip s ip port v e =
      rw (v, e)
        (
          ground (arith, get-insert ip ip observed by_ip),
          announce-IsRefreshed (get ip by_ip) observed s,
        )
