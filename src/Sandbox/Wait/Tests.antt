-- ===== src/Sandbox/Wait/Tests.antt =====
-- A run of the loop that waits.
use jaim.Prelude.{ℕ, ◌==◌, ◌||◌, Bool, List, [], ◌∷◌}
use jaim.Sandbox.Wait.{Waited, failed, reaped, stopped, exited, other}

abbrev kills : ℕ → Bool
kills sig = sig == 9 || sig == 15

abbrev before : List Waited
before = failed 4 ∷ reaped (stopped 18) ∷ other ∷ reaped (stopped 5) ∷ []
