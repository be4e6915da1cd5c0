-- ===== src/Node/Connections/Tracking.antt =====
-- The dials that src/node/connection_state.rs tracks belong to the attempts that are active.
use Prim.Native.String.{String}
use punchgate.Common.{
  ℕ, ◌==◌, ◌≡◌, refl, Bool, true, false, not, Option, none, some, arith, Eq, nat_eq, Option-cases,
  if_rule, saturating_add, inl, inr,
}
use punchgate.Net.{Libp2p}
use punchgate.Collections.HashMap
use punchgate.Collections.HashMap.{
  HashMap, get, get-insert, get-remove, get-retain, IsMap, insert-IsMap, remove-IsMap, retain-IsMap,
}
use punchgate.Node.Connections.Defs.{
  HolePunchAttemptStats, new_stats, ConnectionId, DialingUpdate, ConnectionStateMachine,
}
use punchgate.Node.Connections.Registry.{peer_is_relay_only, remove_connection_id}
use punchgate.Node.Connections.Attempts.{
  next_attempt_id, other_dials, complete_hole_punch_attempt, on_connection_established,
  start_hole_punch_attempt, drop_peer, on_connection_closed,
}
use punchgate.Node.Connections.Dials.{on_dialing, on_tracked_error, on_outgoing_connection_error}

module _ (net : Libp2p) ⦃pe : Eq net.PeerId⦄ where
  open net use {PeerId}

  -- The active attempt has the id.
  abbrev HasId : Option HolePunchAttemptStats → ℕ → Type 0
  HasId none a = ⊥
  HasId (some stats) a = stats.attempt_id ≡ a

  -- A tracked dial belongs to the active attempt of its peer.
  abbrev Belongs : HashMap PeerId HolePunchAttemptStats → Option (PeerId × ℕ) → Type 0
  Belongs attempts none = Unit {0}
  Belongs attempts (some (peer, a)) = HasId (get peer attempts) a

  pub record IsTracked (c : ConnectionId) (m : ConnectionStateMachine net) : Type 0 where
    pub dials : IsMap m.pending_hole_punch_dials
    pub belongs : Belongs m.hole_punch_attempts (get c m.pending_hole_punch_dials)

  remove-Belongs :
      (c id : ConnectionId) (attempts : HashMap PeerId HolePunchAttemptStats)
      (dials : HashMap ConnectionId (PeerId × ℕ))
      → Belongs attempts (get c dials)
      → Belongs attempts (get c (HashMap.remove id dials))
  remove-Belongs c id attempts dials h = ground (arith, get-remove id c dials)

  -- Without a peer's dials and attempt, the dials of the others are as before.
  other_dials-Belongs :
      (c : ConnectionId) (peer : PeerId) (attempts : HashMap PeerId HolePunchAttemptStats)
      (dials : HashMap ConnectionId (PeerId × ℕ))
      → IsMap dials
      → Belongs attempts (get c dials)
      → Belongs (HashMap.remove peer attempts) (get c (other_dials net peer dials))
  unfolding other_dials
  other_dials-Belongs c peer attempts dials m h = elim (Option-cases (get c dials)) [
    | inl e ↦
        ground (arith, get-retain c (λ (_ : ℕ) (entry : PeerId × ℕ). not (entry.0 == peer)) dials m)
    | inr ((p, a), e) ↦ ground (
      arith,
      get-retain c (λ (_ : ℕ) (entry : PeerId × ℕ). not (entry.0 == peer)) dials m,
      get-remove peer p attempts,
    )
  ]

  pub complete-IsTracked :
      (c : ConnectionId) (peer : PeerId) (m : ConnectionStateMachine net)
      → IsTracked c m
      → IsTracked c (complete_hole_punch_attempt net peer m).0
  unfolding complete_hole_punch_attempt other_dials
  complete-IsTracked c peer m h = record {
    dials = retain-IsMap (λ _ entry. not (entry.0 == peer)) m.pending_hole_punch_dials h.dials;
    belongs =
        other_dials-Belongs c peer m.hole_punch_attempts m.pending_hole_punch_dials h.dials
          h.belongs;
  }

  -- A dial that ended is not tracked any more.
  forgotten-IsTracked :
      (c id : ConnectionId) (m : ConnectionStateMachine net)
      → IsTracked c m
      → IsTracked c
          (record m { pending_hole_punch_dials = HashMap.remove id m.pending_hole_punch_dials })
  forgotten-IsTracked c id m h = record {
    dials = remove-IsMap id m.pending_hole_punch_dials h.dials;
    belongs = remove-Belongs c id m.hole_punch_attempts m.pending_hole_punch_dials h.belongs;
  }

  pub established-IsTracked :
      (c : ConnectionId) (peer : PeerId) (id : ConnectionId) (relayed : Bool)
      (m : ConnectionStateMachine net)
      → IsTracked c m
      → IsTracked c (on_connection_established net peer id relayed m).0
  unfolding on_connection_established
  established-IsTracked c peer id true m h =
      let f = forgotten-IsTracked c id m h in record { dials = f.dials; belongs = f.belongs }
  established-IsTracked c peer id false m h =
      let f = complete-IsTracked c peer _ (forgotten-IsTracked c id m h) in
      record { dials = f.dials; belongs = f.belongs }

  pub start-IsTracked :
      (c : ConnectionId) (peer : PeerId) (hole_punch_timeout now : ℕ)
      (m : ConnectionStateMachine net)
      → IsTracked c m
      → IsTracked c (start_hole_punch_attempt net peer hole_punch_timeout now m).0
  unfolding start_hole_punch_attempt
  start-IsTracked c peer hole_punch_timeout now m h =
      elim (Option-cases (get c m.pending_hole_punch_dials)) [
        | inl e ↦ ground arith
        | inr ((p, a), e) ↦ ground (
          arith,
          get-insert peer p (new_stats (next_attempt_id net peer m) now) m.hole_punch_attempts,
        )
      ]

  drop_peer-IsTracked :
      (c : ConnectionId) (peer : PeerId) (m : ConnectionStateMachine net)
      → IsTracked c m
      → IsTracked c (drop_peer net peer m)
  unfolding drop_peer
  drop_peer-IsTracked c peer m h =
      let f = complete-IsTracked c peer m h in record { dials = f.dials; belongs = f.belongs }

  pub closed-IsTracked :
      (c : ConnectionId) (peer : PeerId) (id num_established : ℕ) (m : ConnectionStateMachine net)
      → IsTracked c m
      → IsTracked c (on_connection_closed net peer id num_established m).0
  unfolding on_connection_closed
  closed-IsTracked c peer id num_established m h =
      let m' = record m {
        pending_hole_punch_dials = HashMap.remove id m.pending_hole_punch_dials;
        relayed_connections = (remove_connection_id net peer id m.relayed_connections).0;
        direct_connections = (remove_connection_id net peer id m.direct_connections).0;
      } in
      let f = forgotten-IsTracked c id m h in
      let g : IsTracked c m' = record { dials = f.dials; belongs = f.belongs } in
      if_rule (IsTracked c) _ (drop_peer-IsTracked c peer m' g) g

  -- A new dial of the active attempt belongs to it, and the others still do.
  dialled-Belongs :
      (c : ConnectionId) (peer : PeerId) (id : ConnectionId) (m : ConnectionStateMachine net)
      (stats stats' : HolePunchAttemptStats)
      → stats'.attempt_id ≡ stats.attempt_id
      → get peer m.hole_punch_attempts ≡ some stats
      → Belongs m.hole_punch_attempts (get c m.pending_hole_punch_dials)
      → Belongs
          (HashMap.insert peer stats' m.hole_punch_attempts)
          (get c (HashMap.insert id (peer, stats.attempt_id) m.pending_hole_punch_dials))
  dialled-Belongs c peer id m stats stats' s e h =
      elim (Option-cases (get c m.pending_hole_punch_dials)) [
        | inl n ↦ ground (
          arith,
          get-insert peer peer stats' m.hole_punch_attempts,
          get-insert id c (peer, stats.attempt_id) m.pending_hole_punch_dials,
        )
        | inr ((p, a), n) ↦ ground (
          arith,
          get-insert peer peer stats' m.hole_punch_attempts,
          get-insert peer p stats' m.hole_punch_attempts,
          get-insert id c (peer, stats.attempt_id) m.pending_hole_punch_dials,
        )
      ]

  pub dialing-IsTracked :
      (c : ConnectionId) (peer : PeerId) (id : ConnectionId) (m : ConnectionStateMachine net)
      → IsTracked c m
      → IsTracked c (on_dialing net peer id m).0
  unfolding on_dialing
  dialing-IsTracked c peer id m h = elim (Option-cases (get peer m.hole_punch_attempts)) [
    | inl e ↦ rw e (
        if_rule {A = ConnectionStateMachine net × DialingUpdate} (λ r. IsTracked c r.0)
          (not (peer_is_relay_only net peer m)) {x = (m, DialingUpdate.ignored)}
          {y = (m, DialingUpdate.relay_only_without_active_attempt)} h h)
    | inr (stats, e) ↦
        let stats' = record stats { dials_started = saturating_add 32 stats.dials_started 1 } in
        rw e (
          ground (
            arith,
            insert-IsMap id (peer, stats.attempt_id) m.pending_hole_punch_dials,
            dialled-Belongs c peer id m stats stats' refl e h.belongs,
          ))
  ]

  -- An attempt that is updated keeps its dials.
  failed-Belongs :
      (c : ConnectionId) (peer : PeerId) (m : ConnectionStateMachine net)
      (stats stats' : HolePunchAttemptStats)
      → stats'.attempt_id ≡ stats.attempt_id
      → get peer m.hole_punch_attempts ≡ some stats
      → Belongs m.hole_punch_attempts (get c m.pending_hole_punch_dials)
      → Belongs
          (HashMap.insert peer stats' m.hole_punch_attempts)
          (get c m.pending_hole_punch_dials)
  failed-Belongs c peer m stats stats' s e h =
      elim (Option-cases (get c m.pending_hole_punch_dials)) [
        | inl n ↦ ground arith
        | inr ((p, a), n) ↦ ground (arith, get-insert peer p stats' m.hole_punch_attempts)
      ]

  counted-IsTracked :
      (c : ConnectionId) (peer : PeerId) (a : ℕ) (error_text : String)
      (m : ConnectionStateMachine net)
      → IsTracked c m
      → IsTracked c (on_tracked_error net peer a error_text m).0
  unfolding on_tracked_error
  counted-IsTracked c peer a error_text m h = elim (Option-cases (get peer m.hole_punch_attempts)) [
    | inl e ↦ rw e (ground arith)
    | inr (stats, e) ↦
        let failed = record stats {
          dials_failed = saturating_add 32 stats.dials_failed 1;
          last_dial_error = some error_text;
        } in
        rw e (ground (arith, failed-Belongs c peer m stats failed refl e h.belongs))
  ]

  pub failed-IsTracked :
      (c : ConnectionId) (peer_id : Option PeerId) (id : ConnectionId) (error_text : String)
      (m : ConnectionStateMachine net)
      → IsTracked c m
      → IsTracked c (on_outgoing_connection_error net peer_id id error_text m).0
  unfolding on_outgoing_connection_error
  failed-IsTracked c peer_id id error_text m h =
      elim (Option-cases (get id m.pending_hole_punch_dials)) [
        | inl e ↦ rw e (forgotten-IsTracked c id m h)
        | inr ((peer, a), e) ↦ rw e (
            forgotten-IsTracked c id (on_tracked_error net peer a error_text m).0
              (counted-IsTracked c peer a error_text m h))
      ]
