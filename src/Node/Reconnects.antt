-- ===== src/Node/Reconnects.antt =====
-- The reconnects to bootstrap peers that the loop of src/node/mod.rs schedules.
pub mod Later
use punchgate.Common.{
  ℕ, ◌+◌, Bool, true, false, ◌&&◌, not, Option, none, some, List, [], ◌∷◌, leb, min, contains, Eq,
  if◌then◌else◌,
}
use punchgate.Net.{Libp2p}
use punchgate.Collections.HashMap.{HashMap, contains_key, get, insert, remove, values}
use punchgate.Collections.HashSet.{HashSet}
use punchgate.Node.Backoff.{ReconnectBackoff, schedule_reconnect, reset}

-- The delays of the peers, and the deadlines of those that are to be dialled.
pub record Reconnects (net : Libp2p) : Type 0 where
  pub backoff : ReconnectBackoff net
  pub pending : HashMap net.PeerId ℕ

module _ (net : Libp2p) ⦃pe : Eq net.PeerId⦄ where
  open net use {PeerId, Multiaddr}

  -- What `schedule_reconnect` answers, as a deadline.
  unfoldable pub add_deadline :
      ℕ → PeerId → ReconnectBackoff net × Option (Multiaddr × ℕ) → HashMap PeerId ℕ → Reconnects net
  unfolding insert
  add_deadline now peer (backoff, none) pending = record { backoff = backoff; pending = pending }
  add_deadline now peer (backoff, some (addr, delay)) pending = record {
    backoff = backoff;
    pending = insert peer (now + delay) pending;
  }

  unfoldable pub schedule : ℕ → PeerId → Reconnects net → Reconnects net
  unfolding schedule_reconnect add_deadline
  schedule now peer r = add_deadline now peer (schedule_reconnect net peer r.backoff) r.pending

  module _ (bootstrap_peers : HashSet PeerId) where
    -- `SwarmEvent::ConnectionEstablished`.
    unfoldable pub on_established_peer : PeerId → Reconnects net → Reconnects net
    unfolding reset remove
    on_established_peer peer r =
        if contains peer bootstrap_peers
        then record { backoff = reset net peer r.backoff; pending = remove peer r.pending }
        else r

    -- A peer whose last connection is gone.
    unfoldable pub on_fully_disconnected : ℕ → PeerId → Reconnects net → Reconnects net
    unfolding schedule
    on_fully_disconnected now peer r =
        if contains peer bootstrap_peers then schedule now peer r else r

    -- `SwarmEvent::OutgoingConnectionError`.
    unfoldable pub on_dial_error :
        ℕ → (PeerId → Bool) → Option PeerId → Reconnects net → Reconnects net
    unfolding schedule get
    on_dial_error now is_connected none r = r
    on_dial_error now is_connected (some peer) r =
        if contains peer bootstrap_peers
          && (not (is_connected peer) && not (contains_key peer r.pending))
        then schedule now peer r
        else r

  -- `pending_reconnects.values().min()`.
  unfoldable pub least : List ℕ → Option ℕ
  least [] = none
  least (deadline ∷ rest) = elim (least rest) [
    | none ↦ some deadline
    | some d ↦ some (min deadline d)
  ]

  unfoldable pub next_reconnect : Reconnects net → Option ℕ
  unfolding least
  next_reconnect r = least (values r.pending)

  unfoldable pub due_peers : ℕ → HashMap PeerId ℕ → List PeerId
  due_peers now [] = []
  due_peers now ((peer, deadline) ∷ rest) =
      let later = due_peers now rest in if leb deadline now then peer ∷ later else later

  -- The swarm's `dial` of an address, which may fail at once.
  module _ {State : Type 0} (dial : Multiaddr → State → Bool × State) where
    -- Behind the dial: a failure is scheduled again.
    unfoldable pub dialled : ℕ → PeerId → Bool × State → Reconnects net → Reconnects net × State
    unfolding schedule
    dialled now peer (true, sw) r = (r, sw)
    dialled now peer (false, sw) r = (schedule now peer r, sw)

    unfoldable pub redial : ℕ → PeerId → Reconnects net × State → Reconnects net × State
    unfolding get remove dialled
    redial now peer (r, sw) =
        let left = record r { pending = remove peer r.pending } in
        elim (get peer r.backoff.addrs) [
          | none ↦ (left, sw)
          | some addr ↦ dialled now peer (dial addr sw) left
        ]

    unfoldable pub redial_all : ℕ → List PeerId → Reconnects net × State → Reconnects net × State
    unfolding redial
    redial_all now [] s = s
    redial_all now (peer ∷ peers) s = redial_all now peers (redial now peer s)

    -- The arm for the deadlines that are due.
    unfoldable pub on_reconnects_due : ℕ → Reconnects net × State → Reconnects net × State
    unfolding due_peers redial_all
    on_reconnects_due now (r, sw) = redial_all now (due_peers now r.pending) (r, sw)
