-- ===== src/Sandbox/Launch.antt =====
-- `Config::exec` of jaim.cc up to the point where it forks the child that becomes the sandboxed
-- program.
pub mod System
pub mod State
pub mod Overlay
pub mod Ends
pub mod Held
pub mod Reaps
pub mod Sweep
pub mod Gives
pub mod Placed
pub mod Made
pub mod Ready
mod Tests
use jaim.Prelude.{
  ℕ, zero, suc, ◌==◌, ◌%◌, Bool, true, false, not, ◌&&◌, ltb, if◌then◌else◌, List, [], ◌∷◌, ◌++◌,
  is_empty, Option, none, some, Result, ok, err, Text, codes,
}
use jaim.Prelude.Stateful.{Act, feed, ◌>>=◌, ◌>>◌, pure, throw}
use jaim.Acl.System.{Tree}
use jaim.Acl.{apply_recursive, add_allow_user, warn_only}
use jaim.Credentials.{Credentials, is_populated}
use jaim.Credentials.System.{Process, seteuid}
use jaim.Config.Environment.{Variables, put}
use jaim.Fs.Paths.{join, cat}
use jaim.Sandbox.Rules.{Item, profile_text}
use jaim.Sandbox.Profile.{
  Mode, casual, bare, strict, Settings, check_cwd, masked_in, generate_sandbox_profile,
}
use jaim.Sandbox.Script.{make_script}
use jaim.Sandbox.Launch.System.{LaunchSystem}
use jaim.Sandbox.Launch.State.{
  Fault, no_root, no_jaim_user, profile_fault, no_temp, no_mkdtemp, no_canonical, no_directory,
  no_state_dir, no_helper, no_stat, no_fork, no_script, no_chown, helper_exited, mount_timeout,
  Session, LaunchAct, ask, ask_settle, invoke, udir, invoke_settle, make, make_settle, outside,
  resolved_dir, modify, lift_profile, export,
}
use jaim.Sandbox.Launch.Overlay.{start_overlay, stop_helper}

module _ (sys : LaunchSystem) where
  -- The user whom strict mode needs.
  abbrev pub elevated :
      Session sys.World → Result ℕ Process → Result Fault (Unit {0}) × Session sys.World
  elevated s (err e) = (err no_root, s)
  elevated s (ok p) =
      let user = sys.jaim_user s.world in
      let t = record s { ids = p; user = user } in
      if is_populated user then (ok tt, t) else (err no_jaim_user, t)

  unfoldable pub check_strict : Mode → LaunchAct sys (Unit {0})
  check_strict strict s = elevated s (sys.kernel.perform (seteuid 0) s.ids)
  check_strict bare s = (ok tt, s)
  check_strict casual s = (ok tt, s)

  unfoldable pub preflight_cwd : LaunchAct sys (Unit {0})
  preflight_cwd s =
      let c = s.settings in
      if c.grant_cwd
      then lift_profile sys s (check_cwd c.cwd (masked_in c.homepath c.mask_files))
      else (ok tt, s)

  abbrev pub set_tmp : Text → Session sys.World → Session sys.World
  set_tmp d s =
      export sys (codes "TMPDIR") d (record s { settings = record s.settings { private_tmp = d } })

  unfoldable pub make_tmp : LaunchAct sys (Unit {0})
  make_tmp = do
    base ← ask sys no_temp sys.temp_directory
    made ← make sys no_mkdtemp (sys.mkdtemp (join base (codes "jaim.XXXXXXXX")))
    d ← ask sys no_canonical (sys.canonical made)
    modify sys (set_tmp d)

  abbrev pub set_home : Text → Session sys.World → Session sys.World
  set_home d s =
      export sys (codes "HOME") d (record s { settings = record s.settings { private_home = d } })

  unfoldable pub make_home : LaunchAct sys (Unit {0})
  make_home s =
      (do
        let dir = join s.homejaimpath (cat s.sandbox_name (codes ".home"))
        udir sys s.homejaimpath
        d ← resolved_dir sys dir
        modify sys (set_home d))
        s

  abbrev pub after_unmount : Text → Option ℕ × sys.World → sys.World
  after_unmount m (none, w) = w
  after_unmount m (some e, w) = (sys.unmount true m w).1

  abbrev pub unmounted : Text → sys.World → sys.World
  unmounted m w = after_unmount m (sys.unmount false m w)

  unfoldable pub unmount_overlay : Session sys.World → Session sys.World
  unmount_overlay s =
      if s.overlay_mounted && not (is_empty s.settings.overlay_mount)
      then record s { world = unmounted s.settings.overlay_mount s.world; overlay_mounted = false }
      else s

  unfoldable pub end_helper : Session sys.World → Session sys.World
  end_helper s = if ltb 0 s.overlay_pid then stop_helper sys s else s

  unfoldable pub remove_tmp : Session sys.World → Session sys.World
  remove_tmp s =
      if is_empty s.settings.private_tmp
      then s
      else outside sys (sys.remove_all s.settings.private_tmp) s

  -- `pre_fork_cleanup`.
  unfoldable pub pre_fork_cleanup : Session sys.World → Session sys.World
  pre_fork_cleanup s = remove_tmp (end_helper (unmount_overlay s))

  abbrev pub or_undo :
      {A : Type 0} → Result Fault A × Session sys.World → Result Fault A × Session sys.World
  or_undo (ok a, s) = (ok a, s)
  or_undo (err e, s) = (err e, pre_fork_cleanup s)

  abbrev pub give : Text → LaunchAct sys (Unit {0})
  give p s = invoke sys no_chown (sys.chown p s.user.uid s.user.gid) s

  abbrev pub unless : Bool → LaunchAct sys (Unit {0}) → LaunchAct sys (Unit {0})
  unless b m s = if b then (ok tt, s) else m s

  abbrev pub is_read_only : ℕ → Bool
  is_read_only flags = flags % 2 == 1

  abbrev pub open_directory : Text → ℕ → sys.World → Session sys.World → sys.World
  open_directory d perms w s =
      sys.with_files (apply_recursive sys.acl d (sys.tree_of w d) s.user.uid perms (sys.files w)) w

  abbrev pub admit_file : Text → ℕ → sys.World → Session sys.World → sys.World
  admit_file f perms w s =
      sys.with_files
        (warn_only sys.acl (add_allow_user sys.acl f (sys.tree_of w f) s.user.uid perms)
          (sys.files w))
        w

  -- kReadExec or kReadWriteExec, and kRead or both kRead and kWrite.
  unfoldable pub open_directories : List (Text × ℕ) → Session sys.World → Session sys.World
  open_directories [] s = s
  open_directories ((d, flags) ∷ rest) s =
      let perms = if is_read_only flags then 5 else 7 in
      open_directories rest (record s { world = open_directory d perms s.world s })

  unfoldable pub open_files : List (Text × ℕ) → Session sys.World → Session sys.World
  open_files [] s = s
  open_files ((f, flags) ∷ rest) s =
      let perms = if is_read_only flags then 1 else 3 in
      open_files rest (record s { world = admit_file f perms s.world s })

  abbrev pub open_cwd : Session sys.World → Session sys.World
  open_cwd s = if s.settings.grant_cwd then open_directories ((s.settings.cwd, 0) ∷ []) s else s

  -- What the sandbox user needs of files.
  unfoldable pub open_up : Text → Mode → LaunchAct sys (Unit {0})
  open_up script casual = pure tt
  open_up script bare = pure tt
  open_up script strict = do
    λ s. give s.settings.private_tmp s
    unless (is_empty script) (give script)
    modify sys (λ s.
        open_cwd
          (open_files s.settings.grant_files (open_directories s.settings.grant_directories s)))

  abbrev pub scripted :
      Session sys.World
      → Result jaim.Sandbox.Script.Fault Text × sys.scripts.Files
      → Result Fault Text × Session sys.World
  scripted s (ok p, fs) = (ok p, record s { world = sys.with_script_files fs s.world })
  scripted s (err e, fs) =
      (err (no_script e), record s { world = sys.with_script_files fs s.world })

  -- Behind `pre_fork_cleanup`: the profile, and the script's path.
  unfoldable pub prepare : LaunchAct sys (List Item × Text)
  prepare = do
    script ← (λ s. scripted s (
        make_script sys.scripts sys.read_file s.settings.private_tmp (sys.rndbuf s.world)
          s.script_inputs (sys.script_files s.world)))
    λ s. open_up script s.settings.mode s
    items ← (λ s. lift_profile sys s (generate_sandbox_profile s.settings))
    pure (items, script)

  unfoldable pub make_mode : Mode → LaunchAct sys (Unit {0})
  make_mode casual = start_overlay sys
  make_mode bare = make_home
  make_mode strict = pure tt

  unfoldable pub launch : LaunchAct sys (List Item × Text)
  launch = do
    λ s. check_strict s.settings.mode s
    preflight_cwd
    make_tmp
    λ s. make_mode s.settings.mode s
    λ s. or_undo (prepare s)
