-- ===== src/Node/Backoff.antt =====
-- src/node/backoff.rs: the growing delay between two dials of a bootstrap peer.
use punchgate.Common.{ℕ, ◌*◌, Option, none, some, List, [], ◌∷◌, min, Eq}
use punchgate.Net.{Libp2p}
use punchgate.Collections.HashMap
use punchgate.Collections.HashMap.{HashMap, get_or}
use punchgate.State.Tunnel.Defs.{from_secs}

abbrev pub backoff_initial : ℕ
backoff_initial = from_secs 1

abbrev pub backoff_max : ℕ
backoff_max = from_secs 60

-- `Duration::MAX`, in nanoseconds: `u64::MAX` seconds and 999,999,999 nanoseconds.
abbrev pub duration_max : ℕ
duration_max = 18_446_744_073_709_551_615_999_999_999

-- `Duration::saturating_mul`.
abbrev pub saturating_mul : ℕ → ℕ → ℕ
saturating_mul d n = min (d * n) duration_max

pub record ReconnectBackoff (net : Libp2p) : Type 0 where
  pub delays : HashMap net.PeerId ℕ
  pub addrs : HashMap net.PeerId net.Multiaddr

module _ (net : Libp2p) ⦃pe : Eq net.PeerId⦄ where
  open net use {PeerId, Multiaddr}

  -- `collect` of the pairs: of two for one peer, the later stays.
  unfoldable pub collect :
      List (PeerId × Multiaddr) → HashMap PeerId Multiaddr → HashMap PeerId Multiaddr
  collect [] m = m
  collect ((peer, addr) ∷ rest) m = collect rest (HashMap.insert peer addr m)

  unfoldable pub new : List (PeerId × Multiaddr) → ReconnectBackoff net
  unfolding collect
  new bootstrap = record { delays = []; addrs = collect bootstrap [] }

  abbrev pub current_delay : PeerId → ReconnectBackoff net → ℕ
  current_delay peer b = get_or (HashMap.get peer b.delays) backoff_initial

  unfoldable pub schedule_reconnect :
      PeerId → ReconnectBackoff net → ReconnectBackoff net × Option (Multiaddr × ℕ)
  schedule_reconnect peer b = elim (HashMap.get peer b.addrs) [
    | none ↦ (b, none)
    | some addr ↦ (
      record b {
        delays =
            HashMap.upsert peer backoff_initial (λ delay. min (saturating_mul delay 2) backoff_max)
              b.delays;
      },
      some (addr, current_delay peer b),
    )
  ]

  unfoldable pub reset : PeerId → ReconnectBackoff net → ReconnectBackoff net
  reset peer b = record b { delays = HashMap.remove peer b.delays }
