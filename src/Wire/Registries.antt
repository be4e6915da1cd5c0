-- ===== src/Wire/Registries.antt =====
-- `DirectPeerRegistry` and `TunnelRegistry` of src/tunnel.rs.
use punchgate.Common.{
  ℕ, suc, ◌+◌, ◌^◌, ◌≤◌, ◌≡◌, ◌∙◌, ap, ◌≢◌, ◌==◌, refl, Bool, true, false, Option, Option-cases,
  none, some, inl, inr, String, List, [], ◌∷◌, length, ltb, contains, arith, Eq, nat_eq,
  if◌then◌else◌, if_rule, subst,
}
use punchgate.Net.{Libp2p}
use punchgate.Collections.HashMap.{HashMap, get, get-insert, get-remove, values}
use punchgate.Collections.HashMap as Map
use punchgate.Collections.HashSet.{HashSet, contains-insert, contains-remove}
use punchgate.Collections.HashSet as Set

-- The set behind the lock; each method takes the lock once.
pub record DirectPeerRegistry (net : Libp2p) : Type 0 where
  pub peers : HashSet net.PeerId

pub data DirectStep (net : Libp2p) : Type 0 where
  mark clear : net.PeerId → DirectStep net

module _ (net : Libp2p) ⦃pe : Eq net.PeerId⦄ where
  open net use {PeerId}

  unfoldable pub mark_direct : PeerId → DirectPeerRegistry net → DirectPeerRegistry net
  unfolding Set.insert
  mark_direct peer s = record { peers = Set.insert peer s.peers }

  unfoldable pub clear_direct : PeerId → DirectPeerRegistry net → DirectPeerRegistry net
  unfolding Set.remove
  clear_direct peer s = record { peers = Set.remove peer s.peers }

  unfoldable pub is_direct : PeerId → DirectPeerRegistry net → Bool
  is_direct peer s = contains peer s.peers

  -- Any order in which tasks take the lock.
  unfoldable pub direct_run :
      List (DirectStep net) → DirectPeerRegistry net → DirectPeerRegistry net
  unfolding mark_direct clear_direct
  direct_run [] s = s
  direct_run (mark peer ∷ steps) s = direct_run steps (mark_direct peer s)
  direct_run (clear peer ∷ steps) s = direct_run steps (clear_direct peer s)

  -- Whether the last step on the peer marked it, and what was so before, where none did.
  abbrev pub last_marked : PeerId → List (DirectStep net) → Bool → Bool
  last_marked p [] before = before
  last_marked p (mark peer ∷ steps) before =
      last_marked p steps (if p == peer then true else before)
  last_marked p (clear peer ∷ steps) before =
      last_marked p steps (if p == peer then false else before)

  pub is_direct-mark :
      (p peer : PeerId) (s : DirectPeerRegistry net)
      → is_direct p (mark_direct peer s) ≡ (if p == peer then true else is_direct p s)
  unfolding is_direct mark_direct
  is_direct-mark p peer s = ground (arith, contains-insert peer p s.peers)

  pub is_direct-clear :
      (p peer : PeerId) (s : DirectPeerRegistry net)
      → is_direct p (clear_direct peer s) ≡ (if p == peer then false else is_direct p s)
  unfolding is_direct clear_direct
  is_direct-clear p peer s = ground (arith, contains-remove peer p s.peers)

  -- A peer is direct just when the last step on it marked it, in any order of the steps.
  pub is_direct-direct_run :
      (p : PeerId) (steps : List (DirectStep net)) (s : DirectPeerRegistry net)
      → is_direct p (direct_run steps s) ≡ last_marked p steps (is_direct p s)
  unfolding is_direct direct_run
  is_direct-direct_run p [] s = refl
  is_direct-direct_run p (mark peer ∷ steps) s =
      is_direct-direct_run p steps (mark_direct peer s)
      ∙ ap (λ x. last_marked p steps x) (is_direct-mark p peer s)
  is_direct-direct_run p (clear peer ∷ steps) s =
      is_direct-direct_run p steps (clear_direct peer s)
      ∙ ap (λ x. last_marked p steps x) (is_direct-clear p peer s)

-- The spawned tasks, with their labels, by id.
pub record TunnelRegistry (Handle : Type 0) : Type 0 where
  pub tunnels : HashMap ℕ (String × Handle)
  pub next_id : ℕ  -- u64

pub data RegistryStep (Handle : Type 0) : Type 0 where
  register_step : String → Handle → RegistryStep Handle
  unregister_step : ℕ → RegistryStep Handle

module _ {Handle : Type 0} where
  -- The panic of `checked_add(1).expect(..)` is `none`.
  unfoldable pub register_tunnel :
      String → Handle → TunnelRegistry Handle → Option (ℕ × TunnelRegistry Handle)
  unfolding Map.insert
  register_tunnel label handle s =
      if ltb (s.next_id + 1) (2 ^ 64)
      then some (
        s.next_id,
        record {
          tunnels = Map.insert s.next_id (label, handle) s.tunnels;
          next_id = s.next_id + 1;
        },
      )
      else none

  unfoldable pub unregister_tunnel : ℕ → TunnelRegistry Handle → TunnelRegistry Handle
  unfolding Map.remove
  unregister_tunnel id s = record { tunnels = Map.remove id s.tunnels; next_id = s.next_id }

  abbrev pub handles : HashMap ℕ (String × Handle) → List Handle
  handles [] = []
  handles ((id, (label, handle)) ∷ rest) = handle ∷ handles rest

  -- The handles that are aborted, and the registry drained. A task that outlasts the timeout is
  -- only logged.
  unfoldable pub shutdown_all : TunnelRegistry Handle → List Handle × TunnelRegistry Handle
  shutdown_all s = (handles s.tunnels, record { tunnels = []; next_id = s.next_id })

  unfoldable pub active_count : TunnelRegistry Handle → ℕ
  active_count s = length s.tunnels

  unfoldable pub new_registry : TunnelRegistry Handle
  new_registry = record { tunnels = []; next_id = 0 }

  -- No id at or above the next one is in use.
  abbrev pub IsFresh : TunnelRegistry Handle → Type 0
  IsFresh s = (id : ℕ) → s.next_id ≤ id → get id s.tunnels ≡ none

  -- The registry behind a step; the panic of `register` ends the run.
  abbrev after : Option (ℕ × TunnelRegistry Handle) → Option (TunnelRegistry Handle)
  after none = none
  after (some (id, s)) = some s

  unfoldable pub registry_step :
      RegistryStep Handle → TunnelRegistry Handle → Option (TunnelRegistry Handle)
  unfolding register_tunnel unregister_tunnel
  registry_step (register_step label handle) s = after (register_tunnel label handle s)
  registry_step (unregister_step id) s = some (unregister_tunnel id s)

  unfoldable pub registry_run :
      List (RegistryStep Handle) → TunnelRegistry Handle → Option (TunnelRegistry Handle)
  unfolding registry_step
  registry_run [] s = some s
  registry_run (step ∷ steps) s = elim (registry_step step s) [
    | none ↦ none
    | some t ↦ registry_run steps t
  ]

  abbrev IsFreshAfter : Option (TunnelRegistry Handle) → Type 0
  IsFreshAfter none = Unit {0}
  IsFreshAfter (some s) = IsFresh s

  registry_step-IsFresh :
      (step : RegistryStep Handle) (s : TunnelRegistry Handle)
      → IsFresh s
      → IsFreshAfter (registry_step step s)
  unfolding registry_step
  registry_step-IsFresh (register_step label handle) s h =
      if_rule (λ x. IsFreshAfter (after x)) (ltb (s.next_id + 1) (2 ^ 64))
        (λ id k. ground (arith, get-insert s.next_id id (label, handle) s.tunnels, h id)) tt
  registry_step-IsFresh (unregister_step id) s h =
      λ j k. ground (arith, get-remove id j s.tunnels, h j)

  registry_run-IsFresh :
      (steps : List (RegistryStep Handle)) (s : TunnelRegistry Handle)
      → IsFresh s
      → IsFreshAfter (registry_run steps s)
  unfolding registry_run
  registry_run-IsFresh [] s h = h
  registry_run-IsFresh (step ∷ steps) s h = elim (Option-cases (registry_step step s)) [
    | inl e ↦ rw (IsFreshAfter, e) tt
    | inr (t, e) ↦
        rw (IsFreshAfter, e)
          (registry_run-IsFresh steps t (subst IsFreshAfter e (registry_step-IsFresh step s h)))
  ]

  length-insert :
      (id : ℕ) (v : String × Handle) (m : HashMap ℕ (String × Handle))
      → get id m ≡ none
      → length (Map.insert id v m) ≡ suc (length m)
  unfolding get Map.insert
  length-insert id v [] h = refl
  length-insert id v ((j, w) ∷ m) h = ground (arith, length-insert id v m)

  -- A new tunnel stands under an id that no other has, and the others are as they were.
  abbrev pub IsRegistered :
      TunnelRegistry Handle → String → Handle → Option (ℕ × TunnelRegistry Handle) → Type 0
  IsRegistered s label handle none = Unit {0}
  IsRegistered s label handle (some (id, t)) =
      (get id s.tunnels ≡ none)
      × (get id t.tunnels ≡ some (label, handle))
      × ((j : ℕ) → j ≢ id → get j t.tunnels ≡ get j s.tunnels)
      × (active_count t ≡ suc (active_count s))

  register_tunnel-IsRegistered :
      (s : TunnelRegistry Handle) (label : String) (handle : Handle)
      → IsFresh s
      → IsRegistered s label handle (register_tunnel label handle s)
  unfolding register_tunnel active_count
  register_tunnel-IsRegistered s label handle h =
      let absent = h s.next_id (omega arith) in
      if_rule (IsRegistered s label handle) (ltb (s.next_id + 1) (2 ^ 64))
        (
          absent,
          ground (arith, get-insert s.next_id s.next_id (label, handle) s.tunnels),
          λ j k. ground (arith, get-insert s.next_id j (label, handle) s.tunnels, k),
          length-insert s.next_id (label, handle) s.tunnels absent,
        )
        tt

  -- After any steps from the start, a registered tunnel gets an id that no other tunnel has,
  -- stands under it, and leaves the others as they are.
  pub register-registry_run :
      (steps : List (RegistryStep Handle)) (s t : TunnelRegistry Handle) (label : String)
      (handle : Handle) (id : ℕ)
      → registry_run steps new_registry ≡ some s
      → register_tunnel label handle s ≡ some (id, t)
      → (get id s.tunnels ≡ none)
        × (get id t.tunnels ≡ some (label, handle))
        × ((j : ℕ) → j ≢ id → get j t.tunnels ≡ get j s.tunnels)
        × (active_count t ≡ suc (active_count s))
  unfolding new_registry get
  register-registry_run steps s t label handle id r e =
      let h = subst IsFreshAfter r (registry_run-IsFresh steps new_registry (λ j k. refl)) in
      subst (IsRegistered s label handle) e (register_tunnel-IsRegistered s label handle h)
