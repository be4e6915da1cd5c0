-- ===== src/Node/Connections/Invariant.antt =====
-- What holds of every peer between two calls of `ConnectionStateMachine`
-- (src/node/connection_state.rs).
use Prim.Native.String.{String}
use punchgate.Common.{
  ℕ, ◌+◌, ◌≤◌, ◌≡◌, refl, Bool, true, false, ◌⊎◌, if_rule, saturating_add, ◌&&◌, Option, none, some,
  List, [], ◌∷◌, arith, Eq, nat_eq, Option-cases, inl, inr,
}
use punchgate.Net.{Libp2p}
use punchgate.Collections.HashMap
use punchgate.Collections.HashMap.{
  HashMap, get, get_or, contains_key, get-insert, get-remove, IsMap, remove-IsMap,
}
use punchgate.Collections.HashSet
use punchgate.Collections.HashSet.{HashSet}
use punchgate.Node.Connections.Defs.{
  HolePunchAttemptStats, new_stats, HolePunchDeadline, ConnectionId, ConnectionStateMachine, new,
}
use punchgate.Node.Connections.Registry.{
  remove_connection_id, peer_is_relay_only, has_relayed_connection, has_direct_connection,
}
use punchgate.Node.Connections.Attempts.{
  next_attempt_id, complete_hole_punch_attempt, on_connection_established, start_hole_punch_attempt,
  drop_peer, on_connection_closed,
}
use punchgate.Node.Connections.Dials.{
  on_dialing, on_tracked_error, forget_dial, on_outgoing_connection_error,
}
use punchgate.Node.Connections.Timeouts.{due_timeouts, remove_all, take_due_hole_punch_timeouts}

-- A deadline belongs to the active attempt.
abbrev pub Matches : Option HolePunchDeadline → Option HolePunchAttemptStats → Type 0
Matches none stats = Unit {0}
Matches (some d) none = ⊥
Matches (some d) (some stats) = d.attempt_id ≡ stats.attempt_id

-- An attempt has an id that was issued.
abbrev pub IsIssued : Option HolePunchAttemptStats → ℕ → Type 0
IsIssued none seq = Unit {0}
IsIssued (some stats) seq = stats.attempt_id ≤ seq

-- A peer with an entry has a connection.
abbrev pub IsOccupied : Option (HashSet ConnectionId) → Type 0
IsOccupied none = Unit {0}
IsOccupied (some []) = ⊥
IsOccupied (some (id ∷ ids)) = Unit {0}

module _ (net : Libp2p) ⦃pe : Eq net.PeerId⦄ where
  open net use {PeerId}

  pub record IsValidAt (p : PeerId) (m : ConnectionStateMachine net) : Type 0 where
    pub deadline_matches : Matches (get p m.hole_punch_deadlines) (get p m.hole_punch_attempts)
    pub attempt_issued :
        IsIssued (get p m.hole_punch_attempts) (get_or (get p m.hole_punch_attempt_seq) 0)
    pub attempt_not_direct :
        (contains_key p m.hole_punch_attempts && contains_key p m.direct_connections) ≡ false
    pub relayed_occupied : IsOccupied (get p m.relayed_connections)
    pub direct_occupied : IsOccupied (get p m.direct_connections)

  pub new-IsValidAt : (p : PeerId) → IsValidAt p (new net)
  unfolding new get
  new-IsValidAt p = record {
    deadline_matches = tt;
    attempt_issued = tt;
    attempt_not_direct = refl;
    relayed_occupied = tt;
    direct_occupied = tt;
  }

  insert-IsOccupied :
      (id : ConnectionId) (ids : HashSet ConnectionId) → IsOccupied (some (HashSet.insert id ids))
  unfolding HashSet.insert
  insert-IsOccupied id [] = tt
  insert-IsOccupied id (x ∷ ids) = ground arith

  pub on_connection_established-IsValidAt :
      (p peer : PeerId) (id : ConnectionId) (relayed : Bool) (m : ConnectionStateMachine net)
      → IsValidAt p m
      → IsValidAt p (on_connection_established net peer id relayed m).0
  unfolding on_connection_established
  on_connection_established-IsValidAt p peer id true m h =
      let ids = HashSet.insert id (get_or (get peer m.relayed_connections) []) in
      ground (
        arith,
        get-insert peer p ids m.relayed_connections,
        insert-IsOccupied id (get_or (get peer m.relayed_connections) []),
      )
  on_connection_established-IsValidAt p peer id false m h =
      let ids = HashSet.insert id (get_or (get peer m.direct_connections) []) in
      ground (
        arith,
        get-insert peer p ids m.direct_connections,
        insert-IsOccupied id (get_or (get peer m.direct_connections) []),
        get-remove peer p m.hole_punch_attempts,
        get-remove peer p m.hole_punch_deadlines,
        get-remove peer p m.relayed_connections,
      )

  pub start_hole_punch_attempt-IsValidAt :
      (p peer : PeerId) (hole_punch_timeout now : ℕ) (m : ConnectionStateMachine net)
      → IsValidAt p m
      → IsValidAt p (start_hole_punch_attempt net peer hole_punch_timeout now m).0
  unfolding start_hole_punch_attempt new_stats peer_is_relay_only has_relayed_connection
      has_direct_connection
  start_hole_punch_attempt-IsValidAt p peer hole_punch_timeout now m h =
      let attempt_id = next_attempt_id net peer m in
      ground (
        arith,
        get-insert peer p attempt_id m.hole_punch_attempt_seq,
        get-insert peer p (new_stats attempt_id now) m.hole_punch_attempts,
        get-insert peer p (record { attempt_id = attempt_id; deadline = now + hole_punch_timeout })
            m.hole_punch_deadlines,
      )

  remove_connection_id-IsOccupied :
      (p peer : PeerId) (id : ConnectionId) (by_peer : HashMap PeerId (HashSet ConnectionId))
      → IsOccupied (get p by_peer)
      → IsOccupied (get p (remove_connection_id net peer id by_peer).0)
  unfolding remove_connection_id
  remove_connection_id-IsOccupied p peer id by_peer h = elim (Option-cases (get peer by_peer)) [
    | inl e ↦ ground arith
    | inr (ids, e) ↦
        ground (arith, get-remove peer p by_peer, get-insert peer p (HashSet.remove id ids) by_peer)
  ]

  remove_connection_id-contains_key :
      (p peer : PeerId) (id : ConnectionId) (by_peer : HashMap PeerId (HashSet ConnectionId))
      → contains_key p (remove_connection_id net peer id by_peer).0 ≡ true
      → contains_key p by_peer ≡ true
  unfolding remove_connection_id
  remove_connection_id-contains_key p peer id by_peer h = elim (Option-cases (get peer by_peer)) [
    | inl e ↦ ground arith
    | inr (ids, e) ↦
        ground (arith, get-remove peer p by_peer, get-insert peer p (HashSet.remove id ids) by_peer)
  ]

  pub drop_peer-IsValidAt :
      (p peer : PeerId) (m : ConnectionStateMachine net)
      → IsValidAt p m
      → IsValidAt p (drop_peer net peer m)
  unfolding drop_peer complete_hole_punch_attempt
  drop_peer-IsValidAt p peer m h = ground (
    arith,
    get-remove peer p m.hole_punch_attempts,
    get-remove peer p m.hole_punch_deadlines,
    get-remove peer p m.relayed_connections,
    get-remove peer p m.direct_connections,
  )

  pub on_connection_closed-IsValidAt :
      (p peer : PeerId) (id : ConnectionId) (num_established : ℕ) (m : ConnectionStateMachine net)
      → IsValidAt p m
      → IsValidAt p (on_connection_closed net peer id num_established m).0
  unfolding on_connection_closed
  on_connection_closed-IsValidAt p peer id num_established m h =
      let m' = record m {
        pending_hole_punch_dials = HashMap.remove id m.pending_hole_punch_dials;
        relayed_connections = (remove_connection_id net peer id m.relayed_connections).0;
        direct_connections = (remove_connection_id net peer id m.direct_connections).0;
      } in
      let valid : IsValidAt p m' = record {
        deadline_matches = h.deadline_matches;
        attempt_issued = h.attempt_issued;
        attempt_not_direct = ground (
          arith,
          h.attempt_not_direct,
          remove_connection_id-contains_key p peer id m.direct_connections,
        );
        relayed_occupied =
            remove_connection_id-IsOccupied p peer id m.relayed_connections h.relayed_occupied;
        direct_occupied =
            remove_connection_id-IsOccupied p peer id m.direct_connections h.direct_occupied;
      } in
      if_rule (IsValidAt p) _ (drop_peer-IsValidAt p peer m' valid) valid

  pub on_dialing-IsValidAt :
      (p peer : PeerId) (id : ConnectionId) (m : ConnectionStateMachine net)
      → IsValidAt p m
      → IsValidAt p (on_dialing net peer id m).0
  unfolding on_dialing
  on_dialing-IsValidAt p peer id m h = elim (Option-cases (get peer m.hole_punch_attempts)) [
    | inl e ↦ rw e (ground arith)
    | inr (stats, e) ↦ rw e (
        ground (
          arith,
          get-insert peer p
              (record stats { dials_started = saturating_add 32 stats.dials_started 1 })
              m.hole_punch_attempts,
        ))
  ]

  pub on_tracked_error-IsValidAt :
      (p peer : PeerId) (attempt_id : ℕ) (error_text : String) (m : ConnectionStateMachine net)
      → IsValidAt p m
      → IsValidAt p (on_tracked_error net peer attempt_id error_text m).0
  unfolding on_tracked_error
  on_tracked_error-IsValidAt p peer attempt_id error_text m h =
      elim (Option-cases (get peer m.hole_punch_attempts)) [
        | inl e ↦ rw e (ground arith)
        | inr (stats, e) ↦
            let failed = record stats {
              dials_failed = saturating_add 32 stats.dials_failed 1;
              last_dial_error = some error_text;
            } in
            rw e (ground (arith, get-insert peer p failed m.hole_punch_attempts))
      ]

  pub on_outgoing_connection_error-IsValidAt :
      (p : PeerId) (peer_id : Option PeerId) (id : ConnectionId) (error_text : String)
      (m : ConnectionStateMachine net)
      → IsValidAt p m
      → IsValidAt p (on_outgoing_connection_error net peer_id id error_text m).0
  unfolding on_outgoing_connection_error forget_dial
  on_outgoing_connection_error-IsValidAt p peer_id id error_text m h =
      elim (Option-cases (get id m.pending_hole_punch_dials)) [
        | inl e ↦ rw e (ground arith)
        | inr ((peer, attempt_id), e) ↦
            rw e (ground (arith, on_tracked_error-IsValidAt p peer attempt_id error_text m h))
      ]

  get-remove_all :
      (p : PeerId) (due : List (PeerId × ℕ)) (deadlines : HashMap PeerId HolePunchDeadline)
      → (get p (remove_all net due deadlines) ≡ none)
        ⊎ (get p (remove_all net due deadlines) ≡ get p deadlines)
  unfolding remove_all
  get-remove_all p [] deadlines = inr refl
  get-remove_all p ((peer, _) ∷ due) deadlines =
      ground
        (arith, get-remove_all p due (HashMap.remove peer deadlines), get-remove peer p deadlines)

  pub take_due-IsValidAt :
      (p : PeerId) (now : ℕ) (m : ConnectionStateMachine net)
      → IsValidAt p m
      → IsValidAt p (take_due_hole_punch_timeouts net now m).0
  unfolding take_due_hole_punch_timeouts
  take_due-IsValidAt p now m h =
      elim (get-remove_all p (due_timeouts net now m.hole_punch_deadlines) m.hole_punch_deadlines) [
        | inl e ↦ record {
          deadline_matches = rw e tt;
          attempt_issued = h.attempt_issued;
          attempt_not_direct = h.attempt_not_direct;
          relayed_occupied = h.relayed_occupied;
          direct_occupied = h.direct_occupied;
        }
        | inr e ↦ record {
          deadline_matches = rw e h.deadline_matches;
          attempt_issued = h.attempt_issued;
          attempt_not_direct = h.attempt_not_direct;
          relayed_occupied = h.relayed_occupied;
          direct_occupied = h.direct_occupied;
        }
      ]
