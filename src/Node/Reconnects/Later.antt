-- ===== src/Node/Reconnects/Later.antt =====
-- The arm for due reconnects in src/node/mod.rs does not fire again at once.
use punchgate.Common.{
  ℕ, ◌+◌, ◌<◌, ◌≡◌, ◌⊎◌, inl, inr, Bool, Bool-cases, true, false, Option-cases, some, List, [], ◌∷◌,
  leb, contains, Eq, arith, min,
}
use punchgate.Net.{Libp2p}
use punchgate.Collections.HashMap.{
  HashMap, get, remove, values, get-insert, get-remove, IsMap, insert-IsMap, remove-IsMap,
}
use punchgate.Node.Backoff.{
  new, ReconnectBackoff, schedule_reconnect, reset, current_delay, saturating_mul, backoff_max,
}
use punchgate.Node.Reconnects.{
  Reconnects, schedule, due_peers, dialled, redial, redial_all, on_reconnects_due, least,
  next_reconnect,
}

module _ (net : Libp2p) ⦃pe : Eq net.PeerId⦄ where
  open net use {PeerId, Multiaddr}

  -- No delay is zero.
  abbrev pub AreDelaysPositive : ReconnectBackoff net → Type 0
  AreDelaysPositive b = (peer : PeerId) → 0 < current_delay net peer b

  schedule_reconnect-positive :
      (peer : PeerId) (b : ReconnectBackoff net)
      → AreDelaysPositive b
      → AreDelaysPositive (schedule_reconnect net peer b).0
  unfolding schedule_reconnect
  schedule_reconnect-positive peer b h p = ground (
    arith,
    h p,
    h peer,
    get-insert peer p (min (saturating_mul (current_delay net peer b) 2) backoff_max) b.delays,
  )

  -- Each deadline is later, but for the peers that are still to be dialled.
  abbrev IsLater : ℕ → List PeerId → Reconnects net → Type 0
  IsLater now peers r =
      AreDelaysPositive r.backoff
      × ((p : PeerId) (deadline : ℕ)
          → get p r.pending ≡ some deadline
          → (now < deadline) ⊎ (contains p peers ≡ true))

  schedule-IsLater :
      (now : ℕ) (peers : List PeerId) (peer : PeerId) (r : Reconnects net)
      → IsLater now peers r
      → IsLater now peers (schedule net now peer r)
  unfolding schedule schedule_reconnect
  schedule-IsLater now peers peer r h = (
    λ p. elim (Option-cases (get peer r.backoff.addrs)) [
      | inl e ↦ ground (arith, e, h.0 p)
      | inr (addr, e) ↦ ground (arith, e, schedule_reconnect-positive peer r.backoff h.0 p)
    ],
    λ p deadline g. elim (Bool-cases (contains p peers)) [
      | inl e ↦ inr e
      | inr n ↦ inl (
          ground (
            arith,
            h.1 p deadline,
            h.0 peer,
            get-insert peer p (now + current_delay net peer r.backoff) r.pending,
            g,
            n,
          ))
    ],
  )

  remove-IsLater :
      (now : ℕ) (peers : List PeerId) (peer : PeerId) (r : Reconnects net)
      → IsLater now (peer ∷ peers) r
      → IsLater now peers (record r { pending = remove peer r.pending })
  remove-IsLater now peers peer r h = (
    h.0,
    λ p deadline g. elim (Bool-cases (contains p peers)) [
      | inl e ↦ inr e
      | inr n ↦ inl (ground (arith, h.1 p deadline, get-remove peer p r.pending, g, n))
    ],
  )

  due_peers-IsLater :
      (now : ℕ) (pending : HashMap PeerId ℕ) (p : PeerId) (deadline : ℕ)
      → get p pending ≡ some deadline
      → (now < deadline) ⊎ (contains p (due_peers net now pending) ≡ true)
  unfolding get due_peers
  due_peers-IsLater now [] p deadline g = absurd cc
  due_peers-IsLater now ((peer, d) ∷ rest) p deadline g =
      elim (Bool-cases (contains p (due_peers net now ((peer, d) ∷ rest)))) [
        | inl e ↦ inr e
        | inr n ↦ inl (ground (arith, due_peers-IsLater now rest p deadline, g, n))
      ]

  module _ {State : Type 0} (dial : Multiaddr → State → Bool × State) where
    dialled-IsLater :
        (now : ℕ) (peers : List PeerId) (peer : PeerId) (answer : Bool × State) (r : Reconnects net)
        → IsLater now peers r
        → IsLater now peers (dialled net dial now peer answer r).0
    unfolding dialled
    dialled-IsLater now peers peer (true, sw) r h = h
    dialled-IsLater now peers peer (false, sw) r h = schedule-IsLater now peers peer r h

    redial-IsLater :
        (now : ℕ) (peers : List PeerId) (peer : PeerId) (s : Reconnects net × State)
        → IsLater now (peer ∷ peers) s.0
        → IsLater now peers (redial net dial now peer s).0
    unfolding redial
    redial-IsLater now peers peer (r, sw) h =
        let left = record r { pending = remove peer r.pending } in
        let k = remove-IsLater now peers peer r h in
        elim (Option-cases (get peer r.backoff.addrs)) [
          | inl e ↦ rw (IsLater, redial, e) k
          | inr (addr, e) ↦
              rw (IsLater, redial, e) (dialled-IsLater now peers peer (dial addr sw) left k)
        ]

    redial_all-IsLater :
        (now : ℕ) (peers : List PeerId) (s : Reconnects net × State)
        → IsLater now peers s.0
        → IsLater now [] (redial_all net dial now peers s).0
    unfolding redial_all
    redial_all-IsLater now [] s h = h
    redial_all-IsLater now (peer ∷ peers) s h =
        redial_all-IsLater now peers (redial net dial now peer s)
          (redial-IsLater now peers peer s h)

    on_reconnects_due-IsLater :
        (now : ℕ) (s : Reconnects net × State)
        → AreDelaysPositive s.0.backoff
        → IsLater now [] (on_reconnects_due net dial now s).0
    unfolding on_reconnects_due
    on_reconnects_due-IsLater now (r, sw) h =
        redial_all-IsLater now (due_peers net now r.pending) (r, sw)
          (h, due_peers-IsLater now r.pending)

    dialled-IsMap :
        (now : ℕ) (peer : PeerId) (answer : Bool × State) (r : Reconnects net)
        → IsMap r.pending
        → IsMap (dialled net dial now peer answer r).0.pending
    unfolding dialled schedule schedule_reconnect
    dialled-IsMap now peer (true, sw) r h = h
    dialled-IsMap now peer (false, sw) r h =
        ground (arith, insert-IsMap peer (now + current_delay net peer r.backoff) r.pending h)

    redial_all-IsMap :
        (now : ℕ) (peers : List PeerId) (s : Reconnects net × State)
        → IsMap s.0.pending
        → IsMap (redial_all net dial now peers s).0.pending
    unfolding redial_all redial
    redial_all-IsMap now [] s h = h
    redial_all-IsMap now (peer ∷ peers) (r, sw) h =
        let left = record r { pending = remove peer r.pending } in
        let k = remove-IsMap peer r.pending h in
        redial_all-IsMap now peers (redial net dial now peer (r, sw))
          (elim (Option-cases (get peer r.backoff.addrs)) [
            | inl e ↦ rw (IsMap, redial, e) k
            | inr (addr, e) ↦ rw (IsMap, redial, e) (dialled-IsMap now peer (dial addr sw) left k)
          ])

  least_found :
      (m : HashMap PeerId ℕ) (d : ℕ)
      → IsMap m
      → least net (values m) ≡ some d
      → (p : PeerId) × (get p m ≡ some d)
  unfolding least get
  least_found [] d h e = absurd cc
  least_found ((k, v) ∷ m) d h e = elim (Option-cases (least net (values m))) [
    | inl n ↦ (k, ground (arith, n, e))
    | inr (x, n) ↦
        let (p, g) = least_found m x h.1 n in
        elim (Bool-cases (leb v x)) [
          | inl y ↦ (k, ground (arith, n, e, y))
          | inr y ↦ (p, ground (arith, n, e, y, g, h.0))
        ]
  ]

  -- The arm for due reconnects makes progress: where no delay is zero, the next deadline behind
  -- it, of a peer that was not due or whose dial failed at once, is later than the time of the
  -- arm, so the loop does not spin.
  pub next_reconnect-on_reconnects_due :
      {State : Type 0} (dial : Multiaddr → State → Bool × State) (now : ℕ) (r : Reconnects net)
      (sw : State) (deadline : ℕ)
      → AreDelaysPositive r.backoff
      → IsMap r.pending
      → next_reconnect net (on_reconnects_due net dial now (r, sw)).0 ≡ some deadline
      → now < deadline
  unfolding next_reconnect on_reconnects_due
  next_reconnect-on_reconnects_due dial now r sw deadline h m e =
      let after = redial_all net dial now (due_peers net now r.pending) (r, sw) in
      let (p, g) =
        least_found after.0.pending deadline
          (redial_all-IsMap dial now (due_peers net now r.pending) (r, sw) m) e in
      elim ((on_reconnects_due-IsLater dial now (r, sw) h).1 p deadline g) [
        | inl later ↦ later
        | inr none_left ↦ absurd cc
      ]

  -- The delays start positive, and stay so.
  pub reset-positive :
      (peer : PeerId) (b : ReconnectBackoff net)
      → AreDelaysPositive b
      → AreDelaysPositive (reset net peer b)
  unfolding reset
  reset-positive peer b h p = ground (arith, h p, get-remove peer p b.delays)

  pub new-positive : (bootstrap : List (PeerId × Multiaddr)) → AreDelaysPositive (new net bootstrap)
  unfolding new get
  new-positive bootstrap p = omega arith
