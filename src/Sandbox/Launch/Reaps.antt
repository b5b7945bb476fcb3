-- ===== src/Sandbox/Launch/Reaps.antt =====
-- The helper of the overlay does not outlive a launch that fails, by `Config::exec` of jaim.cc.
use jaim.Prelude.{
  ℕ, ◌<◌, ltb, true, false, not, ◌&&◌, if◌then◌else◌, List, [], ◌∷◌, is_empty, Result, ok, err,
  Text, ◌≡◌, ◌⊎◌, inl, inr, refl, ◌∙◌, arith,
}
use jaim.Sandbox.Profile.{Mode, casual, bare, strict, generate_sandbox_profile}
use jaim.Sandbox.Script.{make_script}
use jaim.Sandbox.Launch.System.{LaunchSystem}
use jaim.Sandbox.Launch.State.{Fault, Session, invoke_settle}
use jaim.Prelude.{Option, none, some}
use jaim.Sandbox.Launch.{
  scripted, after_unmount, unmounted, unmount_overlay, end_helper, remove_tmp, pre_fork_cleanup,
  or_undo, give, open_directory, admit_file, is_read_only, open_cwd, open_directories, open_files,
  open_up, prepare, make_mode, launch,
}
use jaim.Sandbox.Launch.Ends.{Ends, returned, thrown, Ends-feed, Ends-weaken, Ends-if, if-either}
use jaim.Sandbox.Launch.Held.{
  IsFree, IsHeld, profile-settled, preflight_cwd-IsFree, make_tmp-IsFree, make_home-IsFree,
  check_strict-IsFree, stop_helper-IsFree, start_overlay-IsHeld,
}

pub pos-ltb : (n : ℕ) → 0 < n → ltb 0 n ≡ true
pos-ltb n h = ground (arith)

pub zero-ltb : (n : ℕ) → n ≡ 0 → ltb 0 n ≡ false
zero-ltb n h = ground (arith)

module _ (sys : LaunchSystem) (base : List ℕ) where
  abbrev pub S : Type 0
  S = Session sys.World

  abbrev pub IsLive : S → Type 0
  IsLive t = IsFree sys base t ⊎ IsHeld sys base t

  pub moved-IsLive :
      (s : S) (w : sys.World)
      → sys.unreaped w ≡ sys.unreaped s.world
      → IsLive s
      → IsLive (record s { world = w })
  moved-IsLive s w k (inl h) = inl (h.0, k ∙ h.1)
  moved-IsLive s w k (inr h) = inr (h.0, k ∙ h.1)

  after_unmount-unreaped :
      (m : Text) (r : Option ℕ × sys.World)
      → sys.unreaped (after_unmount sys m r) ≡ sys.unreaped r.1
  after_unmount-unreaped m (none, w) = refl
  after_unmount-unreaped m (some e, w) = sys.unmount-unreaped true m w

  unmount_overlay-IsLive : (s : S) → IsLive s → IsLive (unmount_overlay sys s)
  unfolding unmount_overlay
  unmount_overlay-IsLive s h =
      let m = s.settings.overlay_mount in
      if-either IsLive (s.overlay_mounted && not (is_empty m))
        (moved-IsLive s (unmounted sys m s.world)
          (after_unmount-unreaped m (sys.unmount false m s.world)
            ∙ sys.unmount-unreaped false m s.world)
          h)
        h

  pub end_helper-IsFree : (s : S) → IsLive s → (IsFree sys base) (end_helper sys s)
  unfolding end_helper
  end_helper-IsFree s (inl h) = rw (zero-ltb s.overlay_pid h.0) h
  end_helper-IsFree s (inr h) = rw (pos-ltb s.overlay_pid h.0) (stop_helper-IsFree sys base s h)

  pub remove_tmp-IsFree : (s : S) → IsFree sys base s → (IsFree sys base) (remove_tmp sys s)
  unfolding remove_tmp
  remove_tmp-IsFree s h =
      if-either (IsFree sys base) (is_empty s.settings.private_tmp) h
        (h.0, sys.remove_all-unreaped s.settings.private_tmp s.world ∙ h.1)

  pre_fork_cleanup-IsFree : (s : S) → IsLive s → (IsFree sys base) (pre_fork_cleanup sys s)
  unfolding pre_fork_cleanup
  pre_fork_cleanup-IsFree s h =
      remove_tmp-IsFree _ (end_helper-IsFree _ (unmount_overlay-IsLive s h))

  open_directories-IsLive :
      (grants : List (Text × ℕ)) (s : S) → IsLive s → IsLive (open_directories sys grants s)
  unfolding open_directories
  open_directories-IsLive [] s h = h
  open_directories-IsLive ((d, flags) ∷ rest) s h =
      let w = open_directory sys d (if is_read_only sys flags then 5 else 7) s.world s in
      open_directories-IsLive rest (record s { world = w })
        (moved-IsLive s w (sys.with_files-unreaped _ s.world) h)

  open_files-IsLive :
      (grants : List (Text × ℕ)) (s : S) → IsLive s → IsLive (open_files sys grants s)
  unfolding open_files
  open_files-IsLive [] s h = h
  open_files-IsLive ((f, flags) ∷ rest) s h =
      let w = admit_file sys f (if is_read_only sys flags then 1 else 3) s.world s in
      open_files-IsLive rest (record s { world = w })
        (moved-IsLive s w (sys.with_files-unreaped _ s.world) h)

  chowned :
      (s : S) (r : Result ℕ sys.World)
      → ((w : sys.World) → r ≡ ok w → sys.unreaped w ≡ sys.unreaped s.world)
      → IsLive s
      → Ends IsLive IsLive (invoke_settle sys Fault.no_chown s r)
  chowned s (ok w) law h = returned (moved-IsLive s w (law w refl) h)
  chowned s (err e) law h = thrown h

  give-IsLive : (p : Text) (s : S) → IsLive s → Ends IsLive IsLive (give sys p s)
  give-IsLive p s h =
      chowned s (sys.chown p s.user.uid s.user.gid s.world)
        (sys.chown-unreaped p s.user.uid s.user.gid s.world) h

  open_cwd-IsLive : (s : S) → IsLive s → IsLive (open_cwd sys s)
  open_cwd-IsLive s h = if-either IsLive s.settings.grant_cwd (open_directories-IsLive _ s h) h

  open_up-IsLive :
      (script : Text) (m : Mode) (s : S) → IsLive s → Ends IsLive IsLive (open_up sys script m s)
  unfolding open_up
  open_up-IsLive script casual s h = returned h
  open_up-IsLive script bare s h = returned h
  open_up-IsLive script strict s h = Ends-feed (give-IsLive s.settings.private_tmp s h) (λ x t h.
      Ends-feed (Ends-if (is_empty script) (returned h) (give-IsLive script t h)) (λ x u h.
        returned (open_cwd-IsLive _ (open_files-IsLive _ _ (open_directories-IsLive _ u h)))))

  script-IsLive :
      (s : S) (r : Result jaim.Sandbox.Script.Fault Text × sys.scripts.Files)
      → IsLive s
      → Ends IsLive IsLive (scripted sys s r)
  script-IsLive s (ok p, fs) h =
      returned (moved-IsLive s _ (sys.with_script_files-unreaped fs s.world) h)
  script-IsLive s (err e, fs) h =
      thrown (moved-IsLive s _ (sys.with_script_files-unreaped fs s.world) h)

  prepare-IsLive : (s : S) → IsLive s → Ends IsLive IsLive (prepare sys s)
  unfolding prepare
  prepare-IsLive s h =
      Ends-feed
        (script-IsLive s
          (make_script sys.scripts sys.read_file s.settings.private_tmp (sys.rndbuf s.world)
            s.script_inputs (sys.script_files s.world))
          h)
        (λ script t h. Ends-feed (open_up-IsLive script t.settings.mode t h) (λ x u h.
          Ends-feed (profile-settled sys base IsLive u (generate_sandbox_profile u.settings) h)
            (λ items v h. returned h)))

  or_undo-IsLive :
      {A : Type 0} {r : Result Fault A × S}
      → Ends IsLive IsLive r
      → Ends IsLive (IsFree sys base) (or_undo sys r)
  or_undo-IsLive (returned h) = returned h
  or_undo-IsLive (thrown h) = thrown (pre_fork_cleanup-IsFree _ h)

  make_mode-IsLive :
      (m : Mode) (s : S) → IsFree sys base s → Ends IsLive (IsFree sys base) (make_mode sys m s)
  unfolding make_mode
  make_mode-IsLive casual s h = Ends-weaken (start_overlay-IsHeld sys base s h) (λ t k. inr k)
  make_mode-IsLive bare s h = Ends-weaken (make_home-IsFree sys base s h) (λ t k. inl k)
  make_mode-IsLive strict s h = returned (inl h)

  -- Whatever fails, a launch that begins with no helper of the overlay leaves none where it throws:
  -- the one that it has forked has been waited for; where it returns, there is none, or exactly the
  -- one whose number the session keeps.
  pub launch-Ends : (s : S) → IsFree sys base s → Ends IsLive (IsFree sys base) (launch sys s)
  unfolding launch
  launch-Ends s h = Ends-feed (check_strict-IsFree sys base s.settings.mode s h) (λ x t h.
      Ends-feed (preflight_cwd-IsFree sys base t h) (λ x u h.
        Ends-feed (make_tmp-IsFree sys base u h) (λ x v h.
          Ends-feed (make_mode-IsLive v.settings.mode v h)
            (λ x w h. or_undo-IsLive (prepare-IsLive w h)))))
