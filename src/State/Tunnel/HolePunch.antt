-- ===== src/State/Tunnel/HolePunch.antt =====
-- The hole-punch sessions of src/state/tunnel.rs: how an attempt begins, how its retry is
-- asked for, and how the relayed connection is dialled again.
use punchgate.Common.{
  ℕ, Bool, true, false, not, none, some, List, [], ◌∷◌, map, is_empty, contains, leb, nat_eq,
  list_eq, Eq, ◌==◌, if◌then◌else◌, saturating_add,
}
use punchgate.Net.{Libp2p}
use punchgate.Types.{Spec}
use punchgate.Collections.HashMap
use punchgate.Collections.HashMap.{HashMap, get_or, contains_key}
use punchgate.Collections.HashSet
use punchgate.State.Command.{
  Command, dial_peer, dial_peer_with_addrs, disconnect_peer, spawn_tunnel,
}
use punchgate.State.Tunnel.Defs.{
  HolePunchPhase, punching, waiting_disconnect, waiting_redial, HolePunchSession, TunnelState,
  max_relay_reconnect_retries, clear_retry_state, extend_entry,
}
use punchgate.State.Tunnel.Addresses.{
  record_address_candidates, fresh_direct, fresh_relay, oracle_of, prioritized_redial_addrs,
  refresh_session,
}

abbrev pub is_punching : HolePunchPhase → Bool
is_punching punching = true
is_punching _ = false

abbrev pub is_waiting_disconnect : HolePunchPhase → Bool
is_waiting_disconnect waiting_disconnect = true
is_waiting_disconnect _ = false

abbrev pub spawn_all : (net : Libp2p) → net.PeerId → List Spec → List (Command net)
spawn_all net peer = map (λ spec. spawn_tunnel peer spec.0 spec.1)

module _ (net : Libp2p) ⦃pe : Eq net.PeerId⦄ where
  open net use {PeerId, Multiaddr}

  unfoldable pub schedule_holepunch_retry : PeerId → TunnelState net → TunnelState net
  schedule_holepunch_retry peer s = record s {
    holepunch_retry_attempts =
        HashMap.upsert peer 0 (λ attempts. saturating_add 32 attempts 1) s.holepunch_retry_attempts;
    pending_retry_redial = HashSet.insert peer s.pending_retry_redial;
  }

  -- `if let Some(session) = holepunch_sessions.get_mut(&peer) { session.phase = phase }`.
  unfoldable pub set_session_phase : PeerId → HolePunchPhase → TunnelState net → TunnelState net
  set_session_phase peer phase s = record s {
    holepunch_sessions =
        HashMap.modify peer (λ session. record session { phase = phase }) s.holepunch_sessions;
  }

  unfoldable pub begin_holepunch_attempt : PeerId → ℕ → TunnelState net → TunnelState net
  unfolding oracle_of
  begin_holepunch_attempt peer attempt_id s =
      let oracle = oracle_of net peer s in
      let session : HolePunchSession net = record {
        attempt_id = attempt_id;
        phase = punching;
        relay_redial_addrs = oracle.relay_addrs;
        direct_snapshot = oracle.direct_addrs;
        dial_retry_dispatched = false;
      } in
      record s { holepunch_sessions = HashMap.insert peer session s.holepunch_sessions }

  unfoldable pub retries_so_far : PeerId → TunnelState net → ℕ
  retries_so_far peer s = get_or (HashMap.get peer s.holepunch_retry_attempts) 0

  -- The retries are used up: the waiting tunnels are spawned over the relayed connection.
  unfoldable pub give_up : PeerId → TunnelState net → TunnelState net × List (Command net)
  unfolding clear_retry_state
  give_up peer s =
      let fallback_specs = get_or (HashMap.get peer s.awaiting_holepunch) [] in
      (
        clear_retry_state net peer
            (record s { awaiting_holepunch = HashMap.remove peer s.awaiting_holepunch }),
        spawn_all net peer fallback_specs,
      )

  unfoldable pub reconnect : PeerId → TunnelState net → TunnelState net × List (Command net)
  unfolding schedule_holepunch_retry set_session_phase
  reconnect peer s = (
    set_session_phase peer waiting_disconnect (schedule_holepunch_retry peer s),
    disconnect_peer peer ∷ [],
  )

  -- `retry_holepunch_attempt` for an active session.
  unfoldable pub retry_session :
      PeerId → ℕ → HolePunchSession net → TunnelState net → TunnelState net × List (Command net)
  unfolding retries_so_far give_up reconnect
  retry_session peer attempt_id session s =
      if not (session.attempt_id == attempt_id)
      then (s, [])
      else if not (is_punching session.phase)
      then (s, [])
      else if not (contains_key peer s.awaiting_holepunch)
      then (s, [])
      else if leb max_relay_reconnect_retries (retries_so_far peer s)
      then give_up peer s
      else reconnect peer s

  -- The `reason` is only logged.
  unfoldable pub retry_holepunch_attempt :
      PeerId → ℕ → TunnelState net → TunnelState net × List (Command net)
  unfolding retry_session
  retry_holepunch_attempt peer attempt_id s = elim (HashMap.get peer s.holepunch_sessions) [
    | none ↦ (s, [])
    | some session ↦ retry_session peer attempt_id session s
  ]

module _ (net : Libp2p) ⦃pe : Eq net.PeerId⦄ ⦃ae : Eq net.Multiaddr⦄ where
  open net use {PeerId, Multiaddr}

  unfoldable pub update_address_oracle :
      PeerId → List Multiaddr → ℕ → TunnelState net → TunnelState net
  unfolding record_address_candidates fresh_direct fresh_relay refresh_session
  update_address_oracle peer listen_addrs now s =
      let seen = record_address_candidates net peer listen_addrs now s in
      let relay_addrs = fresh_relay net peer now seen in
      let direct_addrs = fresh_direct net peer now seen in
      record seen {
        holepunch_sessions =
            HashMap.modify peer (refresh_session net relay_addrs direct_addrs)
              seen.holepunch_sessions;
        address_oracle =
            HashMap.insert peer (record { relay_addrs = relay_addrs; direct_addrs = direct_addrs })
              seen.address_oracle;
      }

  -- The dial command of a retry: the addresses in order, or a plain dial where there are none.
  unfoldable pub redial_command : PeerId → HolePunchSession net → ℕ → TunnelState net → Command net
  unfolding prioritized_redial_addrs
  redial_command peer session now s =
      let addrs = prioritized_redial_addrs net peer session now s in
      if is_empty addrs then dial_peer peer else dial_peer_with_addrs peer addrs session.attempt_id

  -- `ConnectionLost` of the last connection, with a retry scheduled.
  unfoldable pub redial_after_disconnect :
      PeerId → ℕ → TunnelState net → TunnelState net × List (Command net)
  unfolding set_session_phase redial_command
  redial_after_disconnect peer now s =
      let s' = set_session_phase net peer waiting_redial s in
      (
        s',
        (elim (HashMap.get peer s.holepunch_sessions) [
          | some session ↦ redial_command peer session now s'
          | none ↦ dial_peer peer
        ])
            ∷ [],
      )

  -- `ConnectionLost` of the last connection.
  unfoldable pub on_last_connection_lost :
      PeerId → ℕ → TunnelState net → TunnelState net × List (Command net)
  unfolding redial_after_disconnect clear_retry_state
  on_last_connection_lost peer now s =
      let s' = record s { relayed_peers = HashSet.remove peer s.relayed_peers } in
      if contains peer s'.pending_retry_redial
      then redial_after_disconnect peer now
          (record s' { pending_retry_redial = HashSet.remove peer s'.pending_retry_redial })
      else elim (HashMap.get peer s'.awaiting_holepunch) [
        | some waiting_specs ↦
            let cleared =
              clear_retry_state net peer
                (record s' { awaiting_holepunch = HashMap.remove peer s'.awaiting_holepunch }) in
            (
              record cleared {
                pending_by_peer = extend_entry peer waiting_specs cleared.pending_by_peer;
              },
              dial_peer peer ∷ [],
            )
        | none ↦ (clear_retry_state net peer s', [])
      ]
