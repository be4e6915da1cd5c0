-- ===== src/Tests/Loops.antt =====
-- The loop of src/node/mod.rs at a hole punch that fails.
use punchgate.Common.{◌≡◌, refl, some, nat_eq}
use punchgate.State.Event.{hole_punch_failed, hole_punch_attempt_failed}
use punchgate.Node.Connections.Defs.{new_stats}
use punchgate.Node.Loop.{admit}
use punchgate.Tests.Links.{punching}
use punchgate.Tests.Toy.{toy}

admit_refused :
    admit toy punching (hole_punch_failed 5 "refused")
    ≡ some (hole_punch_attempt_failed 5 1 "refused")
unfolding admit nat_eq new_stats
admit_refused = refl
