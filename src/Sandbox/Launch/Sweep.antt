-- ===== src/Sandbox/Launch/Sweep.antt =====
-- `atexit_fn` of `Config::exec` in jaim.cc, which runs when the sandboxed program has ended.
pub mod Swept
use jaim.Prelude.{
  ℕ, zero, suc, ◌==◌, Bool, true, false, not, ◌&&◌, ◌||◌, ltb, if◌then◌else◌, List, [], ◌∷◌,
  is_empty, Option, none, some, Text,
}
use jaim.Acl.{remove_recursive, remove_user_entries, warn_only}
use jaim.Credentials.{is_populated}
use jaim.Sandbox.Profile.{Mode, casual, bare, strict}
use jaim.Sandbox.Launch.System.{LaunchSystem}
use jaim.Sandbox.Launch.State.{Session, outside}
use jaim.Sandbox.Launch.Overlay.{after_wait, forget_helper, stop_helper}
use jaim.Sandbox.Launch.{end_helper, remove_tmp}

module _ (sys : LaunchSystem) where
  abbrev pub take_directory : Text → Session sys.World → sys.World → sys.World
  take_directory d s w =
      sys.with_files
        (warn_only sys.acl (remove_recursive sys.acl d (sys.tree_of w d) s.user.uid) (sys.files w))
        w

  abbrev pub take_file : Text → Session sys.World → sys.World → sys.World
  take_file f s w =
      sys.with_files (warn_only sys.acl (remove_user_entries sys.acl f s.user.uid) (sys.files w)) w

  unfoldable pub take_directories : List (Text × ℕ) → Session sys.World → Session sys.World
  take_directories [] s = s
  take_directories ((d, flags) ∷ rest) s =
      take_directories rest (record s { world = take_directory d s s.world })

  unfoldable pub take_files : List (Text × ℕ) → Session sys.World → Session sys.World
  take_files [] s = s
  take_files ((f, flags) ∷ rest) s = take_files rest (record s { world = take_file f s s.world })

  abbrev pub take_cwd : Session sys.World → Session sys.World
  take_cwd s =
      if s.settings.grant_cwd && not (is_empty s.settings.cwd)
      then take_directories ((s.settings.cwd, 0) ∷ []) s
      else s

  -- The entries of the sandbox user.
  unfoldable pub take_entries : Mode → Session sys.World → Session sys.World
  take_entries casual s = s
  take_entries bare s = s
  take_entries strict s =
      if is_populated s.user
      then take_cwd
          (take_files s.settings.grant_files (take_directories s.settings.grant_directories s))
      else s

  -- By force, unless there is no mount: EINVAL or ENOENT.
  abbrev pub after_first : Text → Option ℕ × sys.World → sys.World
  after_first m (none, w) = w
  after_first m (some e, w) = if e == 22 || e == 2 then w else (sys.unmount true m w).1

  unfoldable pub unmount_last : Session sys.World → Session sys.World
  unmount_last s =
      let m = s.settings.overlay_mount in
      if s.overlay_mounted && not (is_empty m)
      then record s { world = after_first m (sys.unmount false m s.world); overlay_mounted = false }
      else s

  -- The turns that are left, of twenty, in which the helper may end by itself.
  unfoldable pub await_helper : ℕ → Session sys.World → Session sys.World
  await_helper zero s = s
  await_helper (suc left) s =
      let rest = await_helper left (outside sys sys.usleep (after_wait sys s)) in
      if (sys.has_exited s.overlay_pid s.world).0
      then forget_helper sys (after_wait sys s)
      else rest

  unfoldable pub end_last : Session sys.World → Session sys.World
  end_last s = if ltb 0 s.overlay_pid then end_helper sys (await_helper 20 s) else s

  unfoldable pub atexit_fn : Session sys.World → Session sys.World
  atexit_fn s = remove_tmp sys (end_last (unmount_last (take_entries s.settings.mode s)))
