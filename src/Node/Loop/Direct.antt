-- ===== src/Node/Loop/Direct.antt =====
-- The registry of direct peers that the loop of src/node/mod.rs keeps for the tunnels, beside
-- the connections that `ConnectionStateMachine` tracks.
use punchgate.Common.{
  ℕ, ◌&&◌, not, String, ◌≡◌, ◌==◌, refl, Bool, true, false, Option, Option-cases, inl, inr, List,
  [], ◌∷◌, arith, Eq, nat_eq, if◌then◌else◌,
}
use punchgate.Net.{Libp2p}
use punchgate.Collections.HashMap.{HashMap, contains_key, get, get-insert, get-remove, get_or}
use punchgate.Collections.HashSet as Set
use punchgate.Collections.HashSet.{HashSet}
use punchgate.Node.Connections.Defs.{
  ConnectionId, ConnectionStateMachine, ConnectionEstablishedUpdate, ConnectionClosedUpdate, new,
}
use punchgate.Node.Connections.Registry.{has_direct_connection, remove_connection_id}
use punchgate.Node.Connections.Attempts.{on_connection_established, on_connection_closed}
use punchgate.Node.Connections.Attempts as Attempts
use punchgate.Node.Connections.Dials.{on_dialing, on_outgoing_connection_error}
use punchgate.Node.Connections.Timeouts.{take_due_hole_punch_timeouts}
use punchgate.Node.Connections.Reachable.{Call, apply}
use punchgate.Node.Connections.Reachable as Reachable
use punchgate.Wire.Registries.{
  DirectPeerRegistry, mark_direct, clear_direct, is_direct, is_direct-mark, is_direct-clear,
}

module _ (net : Libp2p) ⦃pe : Eq net.PeerId⦄ where
  open net use {PeerId}

  unfoldable pub note_established :
      PeerId → ConnectionEstablishedUpdate → DirectPeerRegistry net → DirectPeerRegistry net
  unfolding mark_direct
  note_established peer update registry =
      if update.direct_connection_established then mark_direct net peer registry else registry

  unfoldable pub note_closed :
      PeerId → ConnectionClosedUpdate → DirectPeerRegistry net → DirectPeerRegistry net
  unfolding clear_direct
  note_closed peer update registry =
      if update.clear_direct_registry then clear_direct net peer registry else registry

  -- A call of the machine, with what the loop tells the registry behind it.
  unfoldable pub track :
      Call net
      → ConnectionStateMachine net × DirectPeerRegistry net
      → ConnectionStateMachine net × DirectPeerRegistry net
  unfolding on_connection_established on_connection_closed note_established note_closed apply
  track (Reachable.established peer id relayed) (m, registry) =
      let (m', update) = on_connection_established net peer id relayed m in
      (m', note_established peer update registry)
  track (Reachable.closed peer id num_established) (m, registry) =
      let (m', update) = on_connection_closed net peer id num_established m in
      (m', note_closed peer update registry)
  track call (m, registry) = (apply net call m, registry)

  unfoldable pub track_all :
      List (Call net)
      → ConnectionStateMachine net × DirectPeerRegistry net
      → ConnectionStateMachine net × DirectPeerRegistry net
  unfolding track
  track_all [] s = s
  track_all (call ∷ calls) s = track_all calls (track call s)

  -- The registry holds just the peers with a direct connection.
  abbrev pub Agree : ConnectionStateMachine net × DirectPeerRegistry net → Type 0
  Agree (m, registry) = (p : PeerId) → is_direct net p registry ≡ has_direct_connection net p m

  established-Agree :
      (peer : PeerId) (id : ConnectionId) (relayed : Bool)
      (s : ConnectionStateMachine net × DirectPeerRegistry net)
      → Agree s
      → Agree (track (Reachable.established peer id relayed) s)
  unfolding track has_direct_connection
  established-Agree peer id true s h p = h p
  established-Agree peer id false (m, registry) h p = ground (
    arith,
    h p,
    is_direct-mark net p peer registry,
    get-insert peer p (Set.insert id (get_or (get peer m.direct_connections) []))
        m.direct_connections,
  )

  -- What is left of a peer's connections behind the removal of one.
  removed :
      (p peer : PeerId) (id : ConnectionId) (by_peer : HashMap PeerId (HashSet ConnectionId))
      → contains_key p (remove_connection_id net peer id by_peer).0 ≡ (
          if p == peer
          then contains_key peer by_peer && not (remove_connection_id net peer id by_peer).1
          else contains_key p by_peer)
  unfolding remove_connection_id
  removed p peer id by_peer = elim (Option-cases (get peer by_peer)) [
    | inl e ↦ ground (arith, e)
    | inr (ids, e) ↦
        ground (arith, e, get-insert peer p (Set.remove id ids) by_peer, get-remove peer p by_peer)
  ]

  closed-Agree :
      (peer : PeerId) (id : ConnectionId) (num_established : ℕ)
      (s : ConnectionStateMachine net × DirectPeerRegistry net)
      → Agree s
      → Agree (track (Reachable.closed peer id num_established) s)
  unfolding track has_direct_connection Attempts.drop_peer
  closed-Agree peer id num_established (m, registry) h p =
      let left = (remove_connection_id net peer id m.direct_connections).0 in
      ground (
        arith,
        h p,
        h peer,
        is_direct-clear net p peer registry,
        removed p peer id m.direct_connections,
        get-remove peer p left,
      )

  dialing-same :
      (peer : PeerId) (id : ConnectionId) (m : ConnectionStateMachine net)
      → (on_dialing net peer id m).0.direct_connections ≡ m.direct_connections
  unfolding on_dialing
  dialing-same peer id m = ground arith

  failed-same :
      (peer_id : Option PeerId) (id : ConnectionId) (error_text : String)
      (m : ConnectionStateMachine net)
      → (on_outgoing_connection_error net peer_id id error_text m).0.direct_connections
        ≡ m.direct_connections
  unfolding on_outgoing_connection_error
  failed-same peer_id id error_text m = ground arith

  start-same :
      (peer : PeerId) (hole_punch_timeout now : ℕ) (m : ConnectionStateMachine net)
      → (Attempts.start_hole_punch_attempt net peer hole_punch_timeout now m).0.direct_connections
        ≡ m.direct_connections
  unfolding Attempts.start_hole_punch_attempt
  start-same peer hole_punch_timeout now m = ground arith

  -- A call that leaves the direct connections as they are.
  same-Agree :
      (m m' : ConnectionStateMachine net) (registry : DirectPeerRegistry net)
      → m'.direct_connections ≡ m.direct_connections
      → Agree (m, registry)
      → Agree (m', registry)
  unfolding has_direct_connection
  same-Agree m m' registry e h p = rw e (h p)

  track-Agree :
      (call : Call net) (s : ConnectionStateMachine net × DirectPeerRegistry net)
      → Agree s
      → Agree (track call s)
  unfolding track take_due_hole_punch_timeouts
  track-Agree (Reachable.established peer id relayed) s h = established-Agree peer id relayed s h
  track-Agree (Reachable.closed peer id num_established) s h =
      closed-Agree peer id num_established s h
  track-Agree (Reachable.start peer hole_punch_timeout now) (m, registry) h =
      same-Agree m (Attempts.start_hole_punch_attempt net peer hole_punch_timeout now m).0 registry
        (start-same peer hole_punch_timeout now m) h
  track-Agree (Reachable.dialing peer id) (m, registry) h =
      same-Agree m (on_dialing net peer id m).0 registry (dialing-same peer id m) h
  track-Agree (Reachable.failed peer_id id error_text) (m, registry) h =
      same-Agree m (on_outgoing_connection_error net peer_id id error_text m).0 registry
        (failed-same peer_id id error_text m) h
  track-Agree (Reachable.complete peer) s h = h
  track-Agree (Reachable.due now) s h = h

  track_all-Agree :
      (calls : List (Call net)) (s : ConnectionStateMachine net × DirectPeerRegistry net)
      → Agree s
      → Agree (track_all calls s)
  unfolding track_all
  track_all-Agree [] s h = h
  track_all-Agree (call ∷ calls) s h = track_all-Agree calls (track call s) (track-Agree call s h)

  -- The registry refines the connections that are tracked: after any calls from the start, it
  -- holds just the peers that have a direct connection.
  pub is_direct-track_all :
      (calls : List (Call net)) (p : PeerId)
      → is_direct net p (track_all calls (new net, record { peers = [] })).1
        ≡ has_direct_connection net p (track_all calls (new net, record { peers = [] })).0
  unfolding new is_direct has_direct_connection get
  is_direct-track_all calls = track_all-Agree calls (new net, record { peers = [] }) (λ p. refl)
