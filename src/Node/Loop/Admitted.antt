-- ===== src/Node/Loop/Admitted.antt =====
-- Which reports of a failed hole punch reach the state machine.
use punchgate.Common.{
  ◌≡◌, ◌==◌, ◌⊎◌, inl, inr, refl, Option, Option-cases, none, some, arith, Eq, nat_eq, subst,
  if_cases,
}
use punchgate.Net.{Libp2p}
use punchgate.Collections.HashMap.{get}
use punchgate.State.Event as StateEvent
use punchgate.State.Event.{Event}
use punchgate.Node.Connections.Defs.{ConnectionStateMachine, HolePunchAttemptStats}
use punchgate.Node.Loop.{admit}

module _ (net : Libp2p) ⦃pe : Eq net.PeerId⦄ ⦃ae : Eq net.Multiaddr⦄
    (m : ConnectionStateMachine net) where
  open net use {PeerId}

  -- A failure is one of an attempt, and not of another than the active one.
  unfoldable pub IsCurrent : Event net → Type 0
  IsCurrent (StateEvent.hole_punch_failed peer reason) = ⊥
  IsCurrent (StateEvent.hole_punch_attempt_failed peer attempt_id reason) =
      (get peer m.hole_punch_attempts ≡ none)
      ⊎ ((stats : HolePunchAttemptStats) × (get peer m.hole_punch_attempts ≡ some stats)
          × (stats.attempt_id ≡ attempt_id))
  IsCurrent _ = Unit

  abbrev IsAdmitted : Option (Event net) → Type 0
  IsAdmitted none = Unit {0}
  IsAdmitted (some event) = IsCurrent event

  admit-IsAdmitted : (event : Event net) → IsAdmitted (admit net m event)
  unfolding admit IsCurrent
  admit-IsAdmitted (StateEvent.hole_punch_failed peer reason) =
      elim (Option-cases (get peer m.hole_punch_attempts)) [
        | inl e ↦ rw (IsAdmitted, e) tt
        | inr (stats, e) ↦ rw (IsAdmitted, e) (inr (stats, e, refl))
      ]
  admit-IsAdmitted (StateEvent.hole_punch_attempt_failed peer attempt_id reason) =
      elim (Option-cases (get peer m.hole_punch_attempts)) [
        | inl e ↦ rw (IsAdmitted, e) (inl e)
        | inr (stats, e) ↦
            rw (IsAdmitted, e)
              (if_cases IsAdmitted (stats.attempt_id == attempt_id)
                (λ h. inr (stats, e, ground (arith, h))) (λ _. tt))
      ]
  admit-IsAdmitted _ = tt

  -- What reaches the state machine is never DCUtR's own report of a failure, and the failure of
  -- an attempt only where no other attempt to the peer is active.
  pub admit-IsCurrent :
      (event admitted : Event net) → admit net m event ≡ some admitted → IsCurrent admitted
  admit-IsCurrent event admitted h = subst IsAdmitted h (admit-IsAdmitted event)
