-- ===== src/Sandbox/Profile/Refusal.antt =====
-- When no profile is written.
use jaim.Prelude.{true, false, [], ◌≡◌, ◌≢◌, All, Result, ok, err}
use jaim.Fs.Paths.{join, contains}
use jaim.Sandbox.Profile.{Mode, casual, bare, strict, Settings, Fault}

-- What has to be set for a mode.
abbrev pub IsHomeReady : Mode → Settings → Type 0
IsHomeReady casual s = s.overlay_mount ≢ []
IsHomeReady bare s = s.private_home ≢ []
IsHomeReady strict s = Unit {0}

abbrev pub IsOutside : Settings → Type 0
IsOutside s = All (λ m. contains (join s.homepath m) s.cwd ≡ false) s.mask_files

abbrev pub IsReady : Settings → Type 0
IsReady s = (s.private_tmp ≢ []) × (IsHomeReady s.mode s × (s.grant_cwd ≡ true → IsOutside s))

abbrev pub Succeeds : {A : Type 0} → Result Fault A → Type 0
Succeeds (ok a) = Unit {0}
Succeeds (err e) = ⊥
