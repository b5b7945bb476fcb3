-- ===== src/Sandbox/Launch/State.antt =====
-- What `Config::exec` of jaim.cc keeps and changes while it prepares the sandbox, and how it calls
-- the outside.
use jaim.Prelude.{ℕ, Bool, List, ◌++◌, Result, ok, err, Text, codes}
use jaim.Prelude.Stateful.{◌>>◌, Act}
use jaim.Credentials.{Credentials}
use jaim.Credentials.System.{Process}
use jaim.Config.Environment.{Variables, put}
use jaim.Sandbox.Profile.{
  Mode, casual, bare, strict, Settings, check_cwd, masked_in, generate_sandbox_profile,
}
use jaim.Sandbox.Launch.System.{LaunchSystem}

pub data Fault : Type 0 where
  no_root no_jaim_user : Fault
  profile_fault : jaim.Sandbox.Profile.Fault → Fault
  no_temp no_mkdtemp no_canonical no_directory no_state_dir no_stat no_fork : ℕ → Fault
  no_chown : ℕ → Fault
  no_script : jaim.Sandbox.Script.Fault → Fault
  no_helper helper_exited : Fault
  mount_timeout : Text → Fault

-- The fields of `Config` that `exec` changes, with the outside and the ids of jaim's process.
pub record Session (W : Type 0) : Type 0 where
  pub world : W
  pub ids : Process
  pub user : Credentials
  pub settings : Settings
  pub sandbox_name : Text
  pub homejaimpath : Text
  pub script_inputs : List Text
  pub setenv : Variables
  pub overlay_upper : Text
  pub overlay_pid : ℕ
  pub overlay_mounted : Bool

module _ (sys : LaunchSystem) where
  abbrev pub LaunchAct : Type 0 → Type 0
  LaunchAct A = Act (Session sys.World) Fault A

  -- A call that gives a value, and one that changes the outside.
  abbrev pub ask_settle :
      {A : Type 0}
      → (ℕ → Fault)
      → Session sys.World
      → Result ℕ A
      → Result Fault A × Session sys.World
  ask_settle fault s (ok a) = (ok a, s)
  ask_settle fault s (err e) = (err (fault e), s)

  abbrev pub ask : {A : Type 0} → (ℕ → Fault) → (sys.World → Result ℕ A) → LaunchAct A
  ask fault f s = ask_settle fault s (f s.world)

  abbrev pub invoke_settle :
      (ℕ → Fault)
      → Session sys.World
      → Result ℕ sys.World
      → Result Fault (Unit {0}) × Session sys.World
  invoke_settle fault s (ok w) = (ok tt, record s { world = w })
  invoke_settle fault s (err e) = (err (fault e), s)

  abbrev pub invoke : (ℕ → Fault) → (sys.World → Result ℕ sys.World) → LaunchAct (Unit {0})
  invoke fault f s = invoke_settle fault s (f s.world)

  abbrev pub make_settle :
      {A : Type 0}
      → (ℕ → Fault)
      → Session sys.World
      → Result ℕ (A × sys.World)
      → Result Fault A × Session sys.World
  make_settle fault s (ok (a, w)) = (ok a, record s { world = w })
  make_settle fault s (err e) = (err (fault e), s)

  abbrev pub make :
      {A : Type 0} → (ℕ → Fault) → (sys.World → Result ℕ (A × sys.World)) → LaunchAct A
  make fault f s = make_settle fault s (f s.world)

  abbrev pub outside : (sys.World → sys.World) → Session sys.World → Session sys.World
  outside f s = record s { world = f s.world }

  abbrev pub modify : (Session sys.World → Session sys.World) → LaunchAct (Unit {0})
  modify f s = (ok tt, f s)

  abbrev pub lift_profile :
      {A : Type 0}
      → Session sys.World
      → Result jaim.Sandbox.Profile.Fault A
      → Result Fault A × Session sys.World
  lift_profile s (ok a) = (ok a, s)
  lift_profile s (err e) = (err (profile_fault e), s)

  -- `setenv_.insert_or_assign`.
  abbrev pub export : Text → Text → Session sys.World → Session sys.World
  export name value s = record s { setenv = put name (name ++ (codes "=" ++ value)) s.setenv }

  abbrev pub udir_settle :
      Session sys.World
      → Result ℕ (Unit {0}) × sys.World
      → Result Fault (Unit {0}) × Session sys.World
  udir_settle s (ok u, w) = (ok tt, record s { world = w })
  udir_settle s (err e, w) = (err (no_directory e), record s { world = w })

  abbrev pub udir : Text → LaunchAct (Unit {0})
  udir d s = udir_settle s (sys.ensure_udir d s.world)

  -- `ensure_udir` and the resolved path of the directory.
  abbrev pub resolved_dir : Text → LaunchAct Text
  resolved_dir d = udir d >> ask no_canonical (sys.canonical d)
