-- ===== src/Runner/Contained.antt =====
-- What the loop of a worker can raise: nothing that steps, builders, reports or callbacks raise.
use rpacore.Exec.{Exec}
use rpacore.Transaction.{Transaction}
use rpacore.Engine.World.{World}
use rpacore.Runner.Progress.{Progress}
