-- ===== src/Sandbox/Launch/Sweep/Swept.antt =====
-- No helper of the overlay is left when jaim ends, by `Config::exec` of jaim.cc.
use jaim.Prelude.{
  ℕ, zero, suc, ◌==◌, true, false, not, ◌&&◌, ◌||◌, List, [], ◌∷◌, is_empty, Option, none, some,
  Text, ◌≡◌, inl, inr, refl, ◌∙◌, Bool-cases,
}
use jaim.Credentials.{is_populated}
use jaim.Sandbox.Profile.{Mode, casual, bare, strict}
use jaim.Sandbox.Launch.System.{LaunchSystem}
use jaim.Sandbox.Launch.State.{Session, outside}
use jaim.Sandbox.Launch.Overlay.{after_wait}
use jaim.Sandbox.Launch.Ends.{Ends, Ends-weaken, if-either}
use jaim.Sandbox.Launch.Held.{IsFree, IsHeld, exited-IsFree, waiting-IsHeld}
use jaim.Sandbox.Launch.Reaps.{
  IsLive, moved-IsLive, end_helper-IsFree, remove_tmp-IsFree, launch-Ends, pos-ltb, zero-ltb,
}
use jaim.Sandbox.Launch.{launch}
use jaim.Sandbox.Launch.Sweep.{
  take_directory, take_file, take_directories, take_files, take_cwd, take_entries, after_first,
  unmount_last, await_helper, end_last, atexit_fn,
}

module _ (sys : LaunchSystem) (base : List ℕ) where
  abbrev S : Type 0
  S = Session sys.World

  abbrev Live : S → Type 0
  Live s = IsLive sys base s

  take_directories-IsLive :
      (grants : List (Text × ℕ)) (s : S) → Live s → Live (take_directories sys grants s)
  unfolding take_directories
  take_directories-IsLive [] s h = h
  take_directories-IsLive ((d, flags) ∷ rest) s h =
      let w = take_directory sys d s s.world in
      take_directories-IsLive rest (record s { world = w })
        (moved-IsLive sys base s w (sys.with_files-unreaped _ s.world) h)

  take_files-IsLive : (grants : List (Text × ℕ)) (s : S) → Live s → Live (take_files sys grants s)
  unfolding take_files
  take_files-IsLive [] s h = h
  take_files-IsLive ((f, flags) ∷ rest) s h =
      let w = take_file sys f s s.world in
      take_files-IsLive rest (record s { world = w })
        (moved-IsLive sys base s w (sys.with_files-unreaped _ s.world) h)

  take_cwd-IsLive : (s : S) → Live s → Live (take_cwd sys s)
  take_cwd-IsLive s h =
      if-either Live (s.settings.grant_cwd && not (is_empty s.settings.cwd))
        (take_directories-IsLive ((s.settings.cwd, 0) ∷ []) s h) h

  take_entries-IsLive : (m : Mode) (s : S) → Live s → Live (take_entries sys m s)
  unfolding take_entries
  take_entries-IsLive casual s h = h
  take_entries-IsLive bare s h = h
  take_entries-IsLive strict s h =
      let opened = take_directories sys s.settings.grant_directories s in
      let filed = take_files sys s.settings.grant_files opened in
      if-either Live (is_populated s.user)
        (take_cwd-IsLive filed (
          take_files-IsLive s.settings.grant_files opened
            (take_directories-IsLive s.settings.grant_directories s h)))
        h

  after_first-unreaped :
      (m : Text) (r : Option ℕ × sys.World) → sys.unreaped (after_first sys m r) ≡ sys.unreaped r.1
  after_first-unreaped m (none, w) = refl
  after_first-unreaped m (some e, w) =
      if-either (λ v. sys.unreaped v ≡ sys.unreaped w) (e == 22 || e == 2) refl
        (sys.unmount-unreaped true m w)

  unmount_last-IsLive : (s : S) → Live s → Live (unmount_last sys s)
  unfolding unmount_last
  unmount_last-IsLive s h =
      let m = s.settings.overlay_mount in
      if-either Live (s.overlay_mounted && not (is_empty m))
        (moved-IsLive sys base s (after_first sys m (sys.unmount false m s.world))
          (after_first-unreaped m (sys.unmount false m s.world)
            ∙ sys.unmount-unreaped false m s.world)
          h)
        h

  await_helper-IsLive : (left : ℕ) (s : S) → IsHeld sys base s → Live (await_helper sys left s)
  unfolding await_helper
  await_helper-IsLive zero s h = inr h
  await_helper-IsLive (suc left) s h = elim (Bool-cases (sys.has_exited s.overlay_pid s.world).0) [
    | inl gone ↦ rw gone (inl (exited-IsFree sys base s gone h))
    | inr alive ↦ rw alive (
        await_helper-IsLive left (outside sys sys.usleep (after_wait sys s))
          (waiting-IsHeld sys base s alive h))
  ]

  end_last-IsFree : (s : S) → Live s → IsFree sys base (end_last sys s)
  unfolding end_last
  end_last-IsFree s (inl h) = rw (zero-ltb s.overlay_pid h.0) h
  end_last-IsFree s (inr h) =
      rw (pos-ltb s.overlay_pid h.0)
        (end_helper-IsFree sys base (await_helper sys 20 s) (await_helper-IsLive 20 s h))

  atexit_fn-IsFree : (s : S) → Live s → IsFree sys base (atexit_fn sys s)
  unfolding atexit_fn
  atexit_fn-IsFree s h =
      let taken = take_entries sys s.settings.mode s in
      let last = end_last sys (unmount_last sys taken) in
      remove_tmp-IsFree sys base last (
        end_last-IsFree (unmount_last sys taken)
          (unmount_last-IsLive taken (take_entries-IsLive s.settings.mode s h)))

  abbrev pub IsSwept : S → Type 0
  IsSwept t = IsLive sys base t × IsFree sys base (atexit_fn sys t)

  -- A launch that begins with no helper of the overlay leaves none, whatever fails: where it throws,
  -- the helper that it has forked has been waited for; where it returns, there is none or exactly
  -- the one whose number the session keeps, and the sweep waits for that one.
  pub launch-IsSwept : (s : S) → IsFree sys base s → Ends IsSwept (IsFree sys base) (launch sys s)
  launch-IsSwept s h =
      Ends-weaken (launch-Ends sys base s h) (λ t live. (live, atexit_fn-IsFree t live))
