-- ===== src/Node/Connections/Dials.antt =====
-- The dials of an attempt in src/node/connection_state.rs, tracked by connection id.
use Prim.Native.String.{String}
use punchgate.Common.{ℕ, not, Option, none, some, nat_eq, Eq, ◌==◌, if◌then◌else◌, saturating_add}
use punchgate.Net.{Libp2p}
use punchgate.Collections.HashMap
use punchgate.Collections.HashMap.{HashMap, get_or, contains_key, values}
use punchgate.Node.Connections.Defs.{
  ConnectionId, DialingUpdate, OutgoingErrorUpdate, ConnectionStateMachine,
}
use punchgate.Node.Connections.Registry.{peer_is_relay_only}

module _ (net : Libp2p) ⦃pe : Eq net.PeerId⦄ where
  open net use {PeerId}

  unfoldable pub on_dialing :
      PeerId
      → ConnectionId
      → ConnectionStateMachine net
      → ConnectionStateMachine net × DialingUpdate
  unfolding peer_is_relay_only
  on_dialing peer connection_id m =
      if not (peer_is_relay_only net peer m)
      then (m, DialingUpdate.ignored)
      else elim (HashMap.get peer m.hole_punch_attempts) [
        | none ↦ (m, DialingUpdate.relay_only_without_active_attempt)
        | some stats ↦
            let attempt = saturating_add 32 stats.dials_started 1 in
            (
              record m {
                hole_punch_attempts =
                    HashMap.insert peer (record stats { dials_started = attempt })
                      m.hole_punch_attempts;
                pending_hole_punch_dials =
                    HashMap.insert connection_id (peer, stats.attempt_id)
                      m.pending_hole_punch_dials;
              },
              DialingUpdate.tracked stats.attempt_id attempt,
            )
      ]

  -- A failed dial that was tracked for `peer` under `attempt_id`.
  unfoldable pub on_tracked_error :
      PeerId
      → ℕ
      → String
      → ConnectionStateMachine net
      → ConnectionStateMachine net × OutgoingErrorUpdate net
  unfolding peer_is_relay_only
  on_tracked_error peer attempt_id error_text m =
      if not (peer_is_relay_only net peer m)
      then (m, OutgoingErrorUpdate.ignored)
      else elim (HashMap.get peer m.hole_punch_attempts) [
        | none ↦ (m, OutgoingErrorUpdate.relay_only_untracked peer)
        | some stats ↦
            let failures = saturating_add 32 stats.dials_failed 1 in
            if stats.attempt_id == attempt_id
            then (
              record m {
                hole_punch_attempts =
                    HashMap.insert peer
                      (record stats { dials_failed = failures; last_dial_error = some error_text })
                      m.hole_punch_attempts;
              },
              OutgoingErrorUpdate.tracked peer attempt_id stats.dials_started failures,
            )
            else (m, OutgoingErrorUpdate.stale_tracked peer stats.attempt_id attempt_id)
      ]

  unfoldable pub untracked_error :
      Option PeerId → ConnectionStateMachine net → OutgoingErrorUpdate net
  unfolding peer_is_relay_only
  untracked_error none m = OutgoingErrorUpdate.ignored
  untracked_error (some peer) m =
      if peer_is_relay_only net peer m
      then OutgoingErrorUpdate.relay_only_untracked peer
      else OutgoingErrorUpdate.ignored

  unfoldable pub forget_dial :
      ConnectionId
      → ConnectionStateMachine net × OutgoingErrorUpdate net
      → ConnectionStateMachine net × OutgoingErrorUpdate net
  forget_dial connection_id (m, update) = (
    record m { pending_hole_punch_dials = HashMap.remove connection_id m.pending_hole_punch_dials },
    update,
  )

  unfoldable pub on_outgoing_connection_error :
      Option PeerId
      → ConnectionId
      → String
      → ConnectionStateMachine net
      → ConnectionStateMachine net × OutgoingErrorUpdate net
  unfolding on_tracked_error untracked_error forget_dial
  on_outgoing_connection_error peer_id connection_id error_text m =
      forget_dial connection_id (elim (HashMap.get connection_id m.pending_hole_punch_dials) [
        | some (peer, attempt_id) ↦ on_tracked_error peer attempt_id error_text m
        | none ↦ (m, untracked_error peer_id m)
      ])
