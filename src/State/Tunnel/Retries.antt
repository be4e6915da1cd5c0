-- ===== src/State/Tunnel/Retries.antt =====
-- The retries of a hole punch in src/state/tunnel.rs: how many there are, when one is made, and
-- what ends them.
use punchgate.Common.{
  ℕ, ◌+◌, ◌≤◌, ◌<◌, ◌≡◌, refl, ◌⊎◌, true, false, ◌==◌, if◌then◌else◌, String, none, some, [], ◌∷◌,
  arith, Eq, nat_eq, contains, List, ◌++◌, is_empty, take, inl, inr,
}
use punchgate.Net.{Libp2p}
use punchgate.Collections.HashMap.{get_or, get, contains_key, get-insert, get-remove, get-modify}
use punchgate.Collections.HashSet
use punchgate.State.Command.{Command, disconnect_peer, dial_peer, dial_peer_with_addrs}
use punchgate.State.Tunnel.Defs.{
  TunnelState, HolePunchSession, punching, waiting_disconnect, waiting_redial,
  max_relay_reconnect_retries, max_redial_addresses,
}
use punchgate.State.Tunnel.Machine.{is_pending_abort_dial_error, on_tunnel_dial_failed}
use punchgate.State.Tunnel.HolePunch.{
  spawn_all, retries_so_far, retry_holepunch_attempt, on_last_connection_lost, redial_command,
  reconnect, set_session_phase,
}
use punchgate.State.Tunnel.Dedup.{dedup_addrs}
use punchgate.State.Tunnel.Addresses.{
  oracle_of, fresh_direct, fresh_relay, redial_sources, prioritized_redial_addrs,
}

is_empty-cases {ℓ} : {A : Type ℓ} (xs : List A) → (xs ≡ []) ⊎ (is_empty xs ≡ false)
is_empty-cases [] = inl refl
is_empty-cases (x ∷ xs) = inr refl

module _ (net : Libp2p) ⦃pe : Eq net.PeerId⦄ where
  open net use {PeerId, Multiaddr}

  -- The attempt of the id can be retried: its session is punching, and tunnels wait.
  pub record IsRetriable (peer : PeerId) (attempt_id : ℕ) (s : TunnelState net) : Type 0 where
    pub session : HolePunchSession net
    pub active : get peer s.holepunch_sessions ≡ some session
    pub current : session.attempt_id ≡ attempt_id
    pub punching_now : session.phase ≡ punching
    pub waiting : contains_key peer s.awaiting_holepunch ≡ true

  -- A failed attempt whose session is punching while tunnels wait either, with retries left,
  -- uses up one of the three, by a disconnect that schedules a dial while the tunnels still
  -- wait, or, with none left, spawns the waiting tunnels over the relay; then nothing waits,
  -- the session is gone and the count starts anew.
  pub retry_progress :
      (peer : PeerId) (attempt_id : ℕ) (s : TunnelState net)
      → IsRetriable peer attempt_id s
      → let result = retry_holepunch_attempt net peer attempt_id s in
        ((retries_so_far net peer s < max_relay_reconnect_retries)
          × (retries_so_far net peer result.0 ≡ retries_so_far net peer s + 1)
          × (contains peer result.0.pending_retry_redial ≡ true)
          × (result.0.awaiting_holepunch ≡ s.awaiting_holepunch)
          × (result.1 ≡ disconnect_peer peer ∷ []))
        ⊎ ((max_relay_reconnect_retries ≤ retries_so_far net peer s)
            × (retries_so_far net peer result.0 ≡ 0)
            × (contains_key peer result.0.awaiting_holepunch ≡ false)
            × (get peer result.0.holepunch_sessions ≡ none)
            × (result.1 ≡ spawn_all net peer (get_or (get peer s.awaiting_holepunch) [])))
  unfolding retry_holepunch_attempt
  retry_progress peer attempt_id s r = ground (
    arith,
    r.active,
    r.current,
    r.punching_now,
    r.waiting,
    get-insert peer peer (retries_so_far net peer s + 1) s.holepunch_retry_attempts,
    get-remove peer peer s.holepunch_retry_attempts,
    get-remove peer peer s.awaiting_holepunch,
    get-remove peer peer s.holepunch_sessions,
    HashSet.contains-insert peer peer s.pending_retry_redial,
  )

  -- A second report of the same attempt, a timeout after a failure or the other way round,
  -- changes nothing and asks for nothing.
  pub retry_twice :
      (peer : PeerId) (attempt_id : ℕ) (s : TunnelState net)
      → let after = (retry_holepunch_attempt net peer attempt_id s).0 in
        retry_holepunch_attempt net peer attempt_id after ≡ (after, [])
  unfolding retry_holepunch_attempt
  retry_twice peer attempt_id s = ground (
    arith,
    get-modify peer peer
        (λ (session : HolePunchSession net). record session { phase = waiting_disconnect })
        s.holepunch_sessions,
    get-remove peer peer s.holepunch_sessions,
  )

  -- While tunnels wait for a direct path in a session, only one dial failure leads to another
  -- dial: after a failure that was not an aborted attempt, the next one changes nothing and asks
  -- for nothing.
  pub dial_failed_twice :
      ⦃ae : Eq net.Multiaddr⦄ (peer : PeerId) (reason next_reason : String) (now later : ℕ)
      (s : TunnelState net) {session : HolePunchSession net}
      → contains_key peer s.awaiting_holepunch ≡ true
      → get peer s.holepunch_sessions ≡ some session
      → is_pending_abort_dial_error reason ≡ false
      → let after = (on_tunnel_dial_failed net peer reason now s).0 in
        on_tunnel_dial_failed net peer next_reason later after ≡ (after, [])
  unfolding on_tunnel_dial_failed
  dial_failed_twice peer reason next_reason now later s {session} ha hs hr = ground (
    arith,
    get-modify peer peer
        (λ (active_session : HolePunchSession net).
          if active_session.attempt_id == session.attempt_id
          then record active_session { dial_retry_dispatched = true }
          else active_session)
        s.holepunch_sessions,
  )

  reconnect_lem :
      (peer : PeerId) (attempt_id : ℕ) (s : TunnelState net)
      → IsRetriable peer attempt_id s
      → retries_so_far net peer s < max_relay_reconnect_retries
      → retry_holepunch_attempt net peer attempt_id s ≡ reconnect net peer s
  unfolding retry_holepunch_attempt
  reconnect_lem peer attempt_id s r b =
      ground (arith, r.active, r.current, r.punching_now, r.waiting)

  -- The addresses of a retry: those that the session was given, the peer's latest and those seen
  -- of late, direct ones ahead of relayed ones, none twice, and twelve at most.
  abbrev pub retry_addrs :
      ⦃ae : Eq net.Multiaddr⦄ → PeerId → HolePunchSession net → ℕ → TunnelState net → List Multiaddr
  retry_addrs peer session now s =
      let oracle = oracle_of net peer s in
      take max_redial_addresses (
        dedup_addrs net (
          session.direct_snapshot
          ++ (oracle.direct_addrs
              ++ (fresh_direct net peer now s
                  ++ (session.relay_redial_addrs
                      ++ (oracle.relay_addrs ++ fresh_relay net peer now s))))))

  -- The dial of a retry: with its addresses, where there is one, and the id of the attempt.
  abbrev pub IsRetryDial :
      ⦃ae : Eq net.Multiaddr⦄
      → PeerId
      → HolePunchSession net
      → ℕ
      → TunnelState net
      → List (Command net)
      → Type 0
  IsRetryDial peer session now s commands =
      let addrs = retry_addrs peer session now s in
      ((addrs ≡ []) × (commands ≡ dial_peer peer ∷ []))
      ⊎ ((is_empty addrs ≡ false)
          × (commands ≡ dial_peer_with_addrs peer addrs session.attempt_id ∷ []))

  redial_command-IsRetryDial :
      ⦃ae : Eq net.Multiaddr⦄ (peer : PeerId) (session : HolePunchSession net) (now : ℕ)
      (s : TunnelState net)
      → IsRetryDial peer session now s (redial_command net peer session now s ∷ [])
  unfolding redial_command prioritized_redial_addrs redial_sources
  redial_command-IsRetryDial peer session now s =
      elim (is_empty-cases (retry_addrs peer session now s)) [
        | inl e ↦ inl (e, rw e refl)
        | inr e ↦ inr (e, rw e refl)
      ]

  -- What follows a lost connection of a peer with a retry scheduled.
  lost_lem :
      ⦃ae : Eq net.Multiaddr⦄ (peer : PeerId) (now : ℕ) (s : TunnelState net)
      (session : HolePunchSession net)
      → contains peer s.pending_retry_redial ≡ true
      → get peer s.holepunch_sessions ≡ some session
      → let lost = on_last_connection_lost net peer now s in
        IsRetryDial peer session now s lost.1
        × (lost.0.awaiting_holepunch ≡ s.awaiting_holepunch)
        × (get peer lost.0.holepunch_sessions ≡ some (record session { phase = waiting_redial }))
        × (contains peer lost.0.pending_retry_redial ≡ false)
  unfolding on_last_connection_lost
  lost_lem peer now s session hp hs =
      rw (hp, hs)
        (
          redial_command-IsRetryDial peer session now (
              set_session_phase net peer waiting_redial (record s {
                relayed_peers = HashSet.remove peer s.relayed_peers;
                pending_retry_redial = HashSet.remove peer s.pending_retry_redial;
              })),
          refl,
          ground (
            arith,
            get-modify peer peer
                (λ (session : HolePunchSession net). record session { phase = waiting_redial })
                s.holepunch_sessions,
          ),
          ground (arith, HashSet.contains-remove peer peer s.pending_retry_redial),
        )

  -- A retry comes back: once the last connection is lost after the disconnect that a retry with
  -- retries left asked for, the peer is dialled one time, with the session's addresses and those
  -- known of the peer, direct ones first, or without any where there is none; the tunnels still
  -- wait, and the session waits for the dial.
  pub retry_redials :
      ⦃ae : Eq net.Multiaddr⦄ (peer : PeerId) (attempt_id now : ℕ) (s : TunnelState net)
      (r : IsRetriable peer attempt_id s)
      → retries_so_far net peer s < max_relay_reconnect_retries
      → let lost =
          on_last_connection_lost net peer now (retry_holepunch_attempt net peer attempt_id s).0 in
        IsRetryDial peer r.session now s lost.1
        × (lost.0.awaiting_holepunch ≡ s.awaiting_holepunch)
        × (get peer lost.0.holepunch_sessions ≡ some (record r.session { phase = waiting_redial }))
        × (contains peer lost.0.pending_retry_redial ≡ false)
  unfolding reconnect oracle_of fresh_direct fresh_relay
  retry_redials peer attempt_id now s r b = rw (reconnect_lem peer attempt_id s r b) (
      lost_lem peer now (reconnect net peer s).0 (record r.session { phase = waiting_disconnect })
        (ground (arith, HashSet.contains-insert peer peer s.pending_retry_redial))
        (ground (
          arith,
          r.active,
          get-modify peer peer
              (λ (session : HolePunchSession net). record session { phase = waiting_disconnect })
              s.holepunch_sessions,
        )))
