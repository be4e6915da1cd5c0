-- ===== src/Node/Delays.antt =====
-- The delays of src/node/backoff.rs over repeated failures.
use punchgate.Common.{ℕ, zero, suc, ◌*◌, ◌^◌, ◌≡◌, refl, ap, ◌∙◌, some, min, Eq, arith}
use punchgate.Net.{Libp2p}
use punchgate.Collections.HashMap.{get, get-insert, get-remove}
use punchgate.State.Tunnel.Defs.{from_secs}
use punchgate.Node.Backoff.{
  backoff_initial, backoff_max, ReconnectBackoff, saturating_mul, current_delay, schedule_reconnect,
  reset,
}

-- `min (2 ^ n) 60`, in seconds.
abbrev pub delay_after : ℕ → ℕ
delay_after n = min (from_secs 1 * 2 ^ n) (from_secs 60)

module _ (net : Libp2p) ⦃pe : Eq net.PeerId⦄ where
  open net use {PeerId, Multiaddr}

  -- The state after `n` calls of `schedule_reconnect` for a peer.
  unfoldable pub schedule_times : ℕ → PeerId → ReconnectBackoff net → ReconnectBackoff net
  schedule_times zero peer b = b
  schedule_times (suc n) peer b = (schedule_reconnect net peer (schedule_times n peer b)).0

  addrs-schedule_times :
      (n : ℕ) (peer : PeerId) (b : ReconnectBackoff net) → (schedule_times n peer b).addrs ≡ b.addrs
  unfolding schedule_times schedule_reconnect
  addrs-schedule_times zero peer b = refl
  addrs-schedule_times (suc n) peer b = ground (arith, addrs-schedule_times n peer b)

  -- `min (saturating_mul delay 2) backoff_max` of a delay that is already bounded.
  doubled :
      (x : ℕ) → min (saturating_mul (min x backoff_max) 2) backoff_max ≡ min (x * 2) backoff_max
  doubled x = omega arith

  pow_suc : (n : ℕ) → from_secs 1 * 2 ^ suc n ≡ from_secs 1 * 2 ^ n * 2
  pow_suc n = omega arith

  -- One call for a peer that is known doubles its delay, up to the bound.
  schedule_reconnect_lem :
      (peer : PeerId) (addr : Multiaddr) (b : ReconnectBackoff net)
      → get peer b.addrs ≡ some addr
      → current_delay net peer (schedule_reconnect net peer b).0
        ≡ min (saturating_mul (current_delay net peer b) 2) backoff_max
  unfolding schedule_reconnect
  schedule_reconnect_lem peer addr b h = ground (
    arith,
    get-insert peer peer (min (saturating_mul (current_delay net peer b) 2) backoff_max) b.delays,
  )

  delay-schedule_times :
      (n : ℕ) (peer : PeerId) (addr : Multiaddr) (b : ReconnectBackoff net)
      → get peer b.addrs ≡ some addr
      → current_delay net peer b ≡ backoff_initial
      → current_delay net peer (schedule_times n peer b) ≡ delay_after n
  unfolding schedule_times
  delay-schedule_times zero peer addr b h d = ground arith
  delay-schedule_times (suc n) peer addr b h d =
      let b' = schedule_times n peer b in
      omega (
        arith,
        schedule_reconnect_lem peer addr b' (ap (get peer) (addrs-schedule_times n peer b) ∙ h),
        delay-schedule_times n peer addr b h d,
        doubled (from_secs 1 * 2 ^ n),
        pow_suc n,
      )

  answer :
      (peer : PeerId) (addr : Multiaddr) (b : ReconnectBackoff net) (delay : ℕ)
      → get peer b.addrs ≡ some addr
      → current_delay net peer b ≡ delay
      → (schedule_reconnect net peer b).1 ≡ some (addr, delay)
  unfolding schedule_reconnect
  answer peer addr b delay h d = ground arith

  -- After a reset, the call for the failure that follows `n` others of a peer with an address
  -- answers with that address, to dial after `2 ^ n` seconds, or a minute where that is more.
  pub schedule-reset :
      (n : ℕ) (peer : PeerId) (addr : Multiaddr) (b : ReconnectBackoff net)
      → get peer b.addrs ≡ some addr
      → (schedule_reconnect net peer (schedule_times n peer (reset net peer b))).1
        ≡ some (addr, delay_after n)
  unfolding reset
  schedule-reset n peer addr b h =
      let start = reset net peer b in
      let fresh : current_delay net peer start ≡ backoff_initial =
        ground (arith, get-remove peer peer b.delays) in
      answer peer addr (schedule_times n peer start) (delay_after n)
        (ap (get peer) (addrs-schedule_times n peer start) ∙ h)
        (delay-schedule_times n peer addr start h fresh)
