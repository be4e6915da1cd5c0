-- ===== src/Node/Connections/Timeouts.antt =====
-- The deadlines of the attempts in src/node/connection_state.rs.
use punchgate.Common.{ℕ, Option, none, some, List, [], ◌∷◌, leb, min, nat_eq, Eq, if◌then◌else◌}
use punchgate.Net.{Libp2p}
use punchgate.Collections.HashMap
use punchgate.Collections.HashMap.{HashMap, get_or, contains_key, values}
use punchgate.Node.Connections.Defs.{HolePunchDeadline, ConnectionStateMachine}

module _ (net : Libp2p) ⦃pe : Eq net.PeerId⦄ where
  open net use {PeerId}

  -- `values().map(deadline).min()`.
  unfoldable pub least_deadline : List HolePunchDeadline → Option ℕ
  least_deadline [] = none
  least_deadline (entry ∷ rest) = elim (least_deadline rest) [
    | none ↦ some entry.deadline
    | some d ↦ some (min entry.deadline d)
  ]

  unfoldable pub next_hole_punch_deadline : ConnectionStateMachine net → Option ℕ
  unfolding least_deadline
  next_hole_punch_deadline m = least_deadline (values m.hole_punch_deadlines)

  unfoldable pub due_timeouts : ℕ → HashMap PeerId HolePunchDeadline → List (PeerId × ℕ)
  due_timeouts now [] = []
  due_timeouts now ((peer, entry) ∷ rest) =
      let later = due_timeouts now rest in
      if leb entry.deadline now then (peer, entry.attempt_id) ∷ later else later

  unfoldable pub remove_all :
      List (PeerId × ℕ) → HashMap PeerId HolePunchDeadline → HashMap PeerId HolePunchDeadline
  remove_all [] deadlines = deadlines
  remove_all ((peer, _) ∷ rest) deadlines = remove_all rest (HashMap.remove peer deadlines)

  unfoldable pub take_due_hole_punch_timeouts :
      ℕ → ConnectionStateMachine net → ConnectionStateMachine net × List (PeerId × ℕ)
  unfolding due_timeouts remove_all
  take_due_hole_punch_timeouts now m =
      let due = due_timeouts now m.hole_punch_deadlines in
      (record m { hole_punch_deadlines = remove_all due m.hole_punch_deadlines }, due)
