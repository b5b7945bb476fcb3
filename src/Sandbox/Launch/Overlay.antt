-- ===== src/Sandbox/Launch/Overlay.antt =====
-- The overlay of casual mode, which `Config::exec` of jaim.cc starts.
use jaim.Prelude.{
  ℕ, zero, suc, ◌==◌, Bool, true, false, not, if◌then◌else◌, Option, none, some, Result, ok, err,
  Text, codes,
}
use jaim.Prelude.Stateful.{◌>>=◌, ◌>>◌}
use jaim.Fs.Paths.{join, cat}
use jaim.Sandbox.Helper.{find_overlay_helper}
use jaim.Sandbox.Launch.System.{LaunchSystem}
use jaim.Sandbox.Launch.State.{
  Fault, no_state_dir, no_canonical, no_helper, no_stat, no_fork, helper_exited, mount_timeout,
  Session, LaunchAct, ask, ask_settle, udir, make, outside, resolved_dir, modify, export,
}

module _ (sys : LaunchSystem) where
  abbrev pub differ : Option ℕ → Option ℕ → Bool
  differ none d = false
  differ (some c) none = false
  differ (some c) (some d) = not (c == d)

  -- A mount that a jaim which has crashed has left.
  unfoldable pub drop_stale : Session sys.World → Session sys.World
  drop_stale s =
      let m = s.settings.overlay_mount in
      if differ (sys.device m s.world) (sys.parent_device m s.world)
      then record s { world = (sys.unmount true m s.world).1 }
      else s

  abbrev pub forget_helper : Session sys.World → Session sys.World
  forget_helper s = record s { overlay_pid = 0 }

  -- SIGTERM and the wait for the helper.
  abbrev pub stop_helper : Session sys.World → Session sys.World
  stop_helper s = record s {
    world = sys.reap s.overlay_pid (sys.terminate s.overlay_pid s.world);
    overlay_pid = 0;
  }

  abbrev pub is_mounted : ℕ → Session sys.World → Bool
  is_mounted pre s = differ (sys.device s.settings.overlay_mount s.world) (some pre)

  abbrev pub after_wait : Session sys.World → Session sys.World
  after_wait s = record s { world = (sys.has_exited s.overlay_pid s.world).1 }

  -- The attempts that are left, of a hundred.
  unfoldable pub poll : ℕ → ℕ → LaunchAct sys (Unit {0})
  poll zero pre s = (err (mount_timeout s.settings.overlay_mount), stop_helper s)
  poll (suc left) pre s =
      let rest = poll left pre (outside sys sys.usleep (after_wait s)) in
      if is_mounted pre s
      then (ok tt, s)
      else if (sys.has_exited s.overlay_pid s.world).0
      then (err helper_exited, forget_helper (after_wait s))
      else rest

  abbrev pub device_settle : Session sys.World → Option ℕ → Result Fault ℕ × Session sys.World
  device_settle s (some d) = (ok d, s)
  device_settle s none = (err (no_stat 0), s)

  abbrev pub set_mounted : Session sys.World → Session sys.World
  set_mounted s =
      export sys (codes "HOME") s.settings.overlay_mount (record s { overlay_mounted = true })

  unfoldable pub make_upper : Text → LaunchAct sys (Unit {0})
  make_upper root s =
      (do
        upper ← resolved_dir sys (join root (cat s.sandbox_name (codes ".changes")))
        modify sys (λ t. record t { overlay_upper = upper }))
        s

  unfoldable pub make_mount : Text → LaunchAct sys (Unit {0})
  make_mount root s =
      (do
        mount ← resolved_dir sys (join root (cat s.sandbox_name (codes ".mount")))
        modify sys (λ t. record t { settings = record t.settings { overlay_mount = mount } }))
        s

  unfoldable pub prepare_dirs : LaunchAct sys (Unit {0})
  prepare_dirs = do
    root ← ask sys no_state_dir sys.state_dir
    udir sys root
    make_upper root
    make_mount root

  unfoldable pub fork_overlay : Text → LaunchAct sys (Unit {0})
  fork_overlay helper s =
      (do
        pid ←
            make sys no_fork
              (sys.fork_helper helper s.settings.homepath s.overlay_upper s.settings.overlay_mount)
        modify sys (λ t. record t { overlay_pid = pid }))
        s

  -- Where no helper is found, `exec` gives up.
  abbrev pub helper_settle : Session sys.World → Option Text → Result Fault Text × Session sys.World
  helper_settle s none = (err no_helper, s)
  helper_settle s (some p) = ask_settle sys no_canonical s (sys.weakly_canonical p s.world)

  -- The overlay of casual mode.
  unfoldable pub start_overlay : LaunchAct sys (Unit {0})
  start_overlay = do
    prepare_dirs
    modify sys drop_stale
    helper ← (λ s.
        helper_settle s
          (find_overlay_helper (sys.runs s.world) sys.parent_path sys.prog sys.path_env))
    pre ← (λ s. device_settle s (sys.device s.settings.overlay_mount s.world))
    fork_overlay helper
    poll 100 pre
    modify sys set_mounted
