-- ===== src/Node/Connections/Deadlines.antt =====
-- The deadlines of src/node/connection_state.rs: which attempts time out, and when to look next.
use punchgate.Common.{
  ℕ, leb, ◌≡◌, refl, Bool, false, not, Option, none, some, List, [], ◌∷◌, arith, Eq, nat_eq,
  is_empty, if◌then◌else◌,
}
use punchgate.Net.{Libp2p}
use punchgate.Collections.HashMap
use punchgate.Collections.HashMap.{
  HashMap, get, get_or, contains_key, values, get-insert, get-remove, IsMap, remove-IsMap,
}
use punchgate.Node.Connections.Defs.{HolePunchDeadline, ConnectionStateMachine}
use punchgate.Node.Connections.Timeouts.{due_timeouts, remove_all, take_due_hole_punch_timeouts}
use punchgate.Node.Connections.Timeouts.{least_deadline, next_hole_punch_deadline}

-- Whether the time has come.
abbrev pub is_past : ℕ → Option ℕ → Bool
is_past now none = false
is_past now (some d) = leb d now

-- What a sweep at the time `now` leaves of an entry.
abbrev pub left_at : ℕ → Option HolePunchDeadline → Option HolePunchDeadline
left_at now none = none
left_at now (some entry) = if leb entry.deadline now then none else some entry

module _ (net : Libp2p) ⦃pe : Eq net.PeerId⦄ where
  open net use {PeerId}

  least_deadline-due :
      (now : ℕ) (deadlines : HashMap PeerId HolePunchDeadline)
      → is_past now (least_deadline net (values deadlines))
        ≡ not (is_empty (due_timeouts net now deadlines))
  unfolding least_deadline due_timeouts
  least_deadline-due now [] = refl
  least_deadline-due now ((peer, entry) ∷ deadlines) =
      ground (arith, least_deadline-due now deadlines)

  -- The next deadline is not after a time exactly when a sweep at that time returns an attempt.
  pub next_deadline-take_due :
      (now : ℕ) (m : ConnectionStateMachine net)
      → is_past now (next_hole_punch_deadline net m)
        ≡ not (is_empty (take_due_hole_punch_timeouts net now m).1)
  unfolding next_hole_punch_deadline take_due_hole_punch_timeouts
  next_deadline-take_due now m = least_deadline-due now m.hole_punch_deadlines

  remove_all-absent :
      (p : PeerId) (due : List (PeerId × ℕ)) (deadlines : HashMap PeerId HolePunchDeadline)
      → get p deadlines ≡ none
      → get p (remove_all net due deadlines) ≡ none
  unfolding remove_all
  remove_all-absent p [] deadlines h = h
  remove_all-absent p ((q, id) ∷ due) deadlines h =
      remove_all-absent p due (HashMap.remove q deadlines)
        (ground (arith, get-remove q p deadlines))

  -- Of two maps that agree on a key, what `remove_all` leaves agrees.
  remove_all-agree :
      (p : PeerId) (due : List (PeerId × ℕ)) (d e : HashMap PeerId HolePunchDeadline)
      → get p d ≡ get p e
      → get p (remove_all net due d) ≡ get p (remove_all net due e)
  unfolding remove_all
  remove_all-agree p [] d e h = h
  remove_all-agree p ((q, id) ∷ due) d e h =
      remove_all-agree p due (HashMap.remove q d) (HashMap.remove q e)
        (ground (arith, get-remove q p d, get-remove q p e))

  remove_due-absent :
      (p : PeerId) (now : ℕ) (rest deadlines : HashMap PeerId HolePunchDeadline)
      → get p rest ≡ none
      → get p (remove_all net (due_timeouts net now rest) deadlines) ≡ get p deadlines
  unfolding remove_all due_timeouts get
  remove_due-absent p now [] deadlines h = refl
  remove_due-absent p now ((q, entry) ∷ rest) deadlines h = ground (
    arith,
    get-remove q p deadlines,
    remove_due-absent p now rest deadlines,
    remove_due-absent p now rest (HashMap.remove q deadlines),
  )

  get-remove_due :
      (p : PeerId) (now : ℕ) (deadlines : HashMap PeerId HolePunchDeadline)
      → IsMap deadlines
      → get p (remove_all net (due_timeouts net now deadlines) deadlines)
        ≡ left_at now (get p deadlines)
  unfolding due_timeouts remove_all get
  get-remove_due p now [] h = refl
  get-remove_due p now ((q, entry) ∷ rest) h =
      let all = (q, entry) ∷ rest in
      let later = due_timeouts net now rest in
      ground (
        arith,
        get-remove_due p now rest h.1,
        get-remove q p all,
        remove_all-absent p later (HashMap.remove q all),
        remove_all-agree p later (HashMap.remove q all) rest,
        remove_all-agree p later all rest,
        remove_due-absent p now rest all,
      )

  -- Where each peer has one deadline at most, a sweep drops those that are not after its time,
  -- and no other.
  pub get-take_due :
      (p : PeerId) (now : ℕ) (m : ConnectionStateMachine net)
      → IsMap m.hole_punch_deadlines
      → get p (take_due_hole_punch_timeouts net now m).0.hole_punch_deadlines
        ≡ left_at now (get p m.hole_punch_deadlines)
  unfolding take_due_hole_punch_timeouts
  get-take_due p now m h = get-remove_due p now m.hole_punch_deadlines h
