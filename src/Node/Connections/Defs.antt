-- ===== src/Node/Connections/Defs.antt =====
-- The state and the answers of src/node/connection_state.rs.
use Prim.Native.String.{String}
use punchgate.Common.{ℕ, Bool, Option, none, List, []}
use punchgate.Net.{Libp2p}
use punchgate.Collections.HashMap.{HashMap}
use punchgate.Collections.HashSet.{HashSet}

-- The counters are u32, the id is a u64. The time of the start is only logged.
pub record HolePunchAttemptStats : Type 0 where
  pub attempt_id : ℕ
  pub started_at : ℕ
  pub dials_started : ℕ
  pub dials_failed : ℕ
  pub last_dial_error : Option String

unfoldable pub new_stats : ℕ → ℕ → HolePunchAttemptStats
new_stats attempt_id now = record {
  attempt_id = attempt_id;
  started_at = now;
  dials_started = 0;
  dials_failed = 0;
  last_dial_error = none;
}

pub record HolePunchDeadline : Type 0 where
  pub attempt_id : ℕ
  pub deadline : ℕ

-- `swarm::ConnectionId` is a number of libp2p.
abbrev pub ConnectionId : Type 0
ConnectionId = ℕ

pub record ConnectionEstablishedUpdate : Type 0 where
  pub started_attempt_id : Option ℕ
  pub completed_attempt : Option HolePunchAttemptStats
  pub relayed_connections_to_close : List ConnectionId
  pub direct_connection_established : Bool

pub record ConnectionClosedUpdate : Type 0 where
  pub clear_direct_registry : Bool
  pub peer_fully_disconnected : Bool

pub data DialingUpdate : Type 0 where
  -- The attempt's id, and the number of the dial.
  tracked : ℕ → ℕ → DialingUpdate
  relay_only_without_active_attempt : DialingUpdate
  ignored : DialingUpdate

pub data OutgoingErrorUpdate (net : Libp2p) : Type 0 where
  -- The attempt's id, its dials, and its failures.
  tracked : net.PeerId → ℕ → ℕ → ℕ → OutgoingErrorUpdate net
  -- The id expected, and the id received.
  stale_tracked : net.PeerId → ℕ → ℕ → OutgoingErrorUpdate net
  relay_only_untracked : net.PeerId → OutgoingErrorUpdate net
  ignored : OutgoingErrorUpdate net

pub record ConnectionStateMachine (net : Libp2p) : Type 0 where
  pub relayed_connections : HashMap net.PeerId (HashSet ConnectionId)
  pub direct_connections : HashMap net.PeerId (HashSet ConnectionId)
  pub hole_punch_deadlines : HashMap net.PeerId HolePunchDeadline
  pub hole_punch_attempts : HashMap net.PeerId HolePunchAttemptStats
  pub hole_punch_attempt_seq : HashMap net.PeerId ℕ  -- u64
  pub pending_hole_punch_dials : HashMap ConnectionId (net.PeerId × ℕ)

unfoldable pub new : (net : Libp2p) → ConnectionStateMachine net
new net = record {
  relayed_connections = [];
  direct_connections = [];
  hole_punch_deadlines = [];
  hole_punch_attempts = [];
  hole_punch_attempt_seq = [];
  pending_hole_punch_dials = [];
}
