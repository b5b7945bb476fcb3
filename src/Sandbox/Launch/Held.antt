-- ===== src/Sandbox/Launch/Held.antt =====
-- The helper of the overlay while `Config::exec` of jaim.cc starts it.
use jaim.Prelude.{
  ℕ, zero, suc, ◌<◌, Bool, true, false, if◌then◌else◌, List, ◌∷◌, Option, none, some, Result, ok,
  err, Text, ◌≡◌, inl, inr, refl, ap, ◌∙◌, Bool-cases,
}
use jaim.Prelude.Stateful.{feed}
use jaim.Credentials.System.{Process, seteuid}
use jaim.Credentials.{is_populated}
use jaim.Sandbox.Profile.{
  Mode, casual, bare, strict, Settings, check_cwd, masked_in, generate_sandbox_profile,
}
use jaim.Sandbox.Helper.{find_overlay_helper}
use jaim.Sandbox.Launch.System.{LaunchSystem}
use jaim.Sandbox.Launch.State.{
  Fault, Session, ask_settle, invoke_settle, udir, udir_settle, make_settle, outside, resolved_dir,
  modify, lift_profile,
}
use jaim.Sandbox.Launch.Overlay.{
  poll, drop_stale, prepare_dirs, fork_overlay, start_overlay, is_mounted, after_wait,
  forget_helper, differ, stop_helper, device_settle, helper_settle, make_upper, make_mount,
}
use jaim.Sandbox.Launch.{check_strict, elevated, preflight_cwd, make_tmp, make_home}
use jaim.Sandbox.Launch.Ends.{Ends, returned, thrown, Ends-feed, Ends-if, if-either}

module _ (sys : LaunchSystem) (base : List ℕ) where
  abbrev pub S : Type 0
  S = Session sys.World

  -- No helper of this launch is left, and one is.
  abbrev pub IsFree : S → Type 0
  IsFree t = (t.overlay_pid ≡ 0) × (sys.unreaped t.world ≡ base)

  abbrev pub IsHeld : S → Type 0
  IsHeld t = (0 < t.overlay_pid) × (sys.unreaped t.world ≡ t.overlay_pid ∷ base)

  pub ask-settled :
      {A : Type 0} (P : S → Type 0) (fault : ℕ → Fault) (s : S) (r : Result ℕ A)
      → P s
      → Ends P P (ask_settle sys fault s r)
  ask-settled P fault s (ok a) h = returned h
  ask-settled P fault s (err e) h = thrown h

  pub invoke-settled :
      (fault : ℕ → Fault) (s : S) (r : Result ℕ sys.World)
      → ((w : sys.World) → r ≡ ok w → sys.unreaped w ≡ sys.unreaped s.world)
      → IsFree s
      → Ends IsFree IsFree (invoke_settle sys fault s r)
  invoke-settled fault s (ok w) law h = returned (h.0, law w refl ∙ h.1)
  invoke-settled fault s (err e) law h = thrown h

  pub make-settled :
      {A : Type 0} (fault : ℕ → Fault) (s : S) (r : Result ℕ (A × sys.World))
      → ((a : A) (w : sys.World) → r ≡ ok (a, w) → sys.unreaped w ≡ sys.unreaped s.world)
      → IsFree s
      → Ends IsFree IsFree (make_settle sys fault s r)
  make-settled fault s (ok (a, w)) law h = returned (h.0, law a w refl ∙ h.1)
  make-settled fault s (err e) law h = thrown h

  pub profile-settled :
      {A : Type 0} (P : S → Type 0) (s : S) (r : Result jaim.Sandbox.Profile.Fault A)
      → P s
      → Ends P P (lift_profile sys s r)
  profile-settled P s (ok a) h = returned h
  profile-settled P s (err e) h = thrown h

  pub udir-settled :
      (s : S) (r : Result ℕ (Unit {0}) × sys.World)
      → sys.unreaped r.1 ≡ sys.unreaped s.world
      → IsFree s
      → Ends IsFree IsFree (udir_settle sys s r)
  udir-settled s (ok u, w) same h = returned (h.0, same ∙ h.1)
  udir-settled s (err e, w) same h = thrown (h.0, same ∙ h.1)

  pub udir-IsFree : (d : Text) (s : S) → IsFree s → Ends IsFree IsFree (udir sys d s)
  udir-IsFree d s h =
      udir-settled s (sys.ensure_udir d s.world) (sys.ensure_udir-unreaped d s.world) h

  pub resolved_dir-IsFree :
      (d : Text) (s : S) → IsFree s → Ends IsFree IsFree (resolved_dir sys d s)
  resolved_dir-IsFree d s h =
      Ends-feed (udir-IsFree d s h)
        (λ u t k. ask-settled IsFree Fault.no_canonical t (sys.canonical d t.world) k)

  pub preflight_cwd-IsFree : (s : S) → IsFree s → Ends IsFree IsFree (preflight_cwd sys s)
  unfolding preflight_cwd
  preflight_cwd-IsFree s h =
      Ends-if s.settings.grant_cwd (profile-settled IsFree s (check_cwd _ _) h) (returned h)

  pub make_tmp-IsFree : (s : S) → IsFree s → Ends IsFree IsFree (make_tmp sys s)
  unfolding make_tmp
  make_tmp-IsFree s h =
      Ends-feed (ask-settled IsFree Fault.no_temp s (sys.temp_directory s.world) h) (λ base t h.
        Ends-feed
          (make-settled Fault.no_mkdtemp t (sys.mkdtemp _ t.world) (sys.mkdtemp-unreaped _ t.world)
            h)
          (λ made u k.
            Ends-feed (ask-settled IsFree Fault.no_canonical u (sys.canonical made u.world) k)
              (λ d v l. returned l)))

  pub make_home-IsFree : (s : S) → IsFree s → Ends IsFree IsFree (make_home sys s)
  unfolding make_home
  make_home-IsFree s h =
      Ends-feed (udir-IsFree s.homejaimpath s h)
        (λ x t k. Ends-feed (resolved_dir-IsFree _ t k) (λ d u l. returned l))

  pub elevated-IsFree :
      (s : S) (r : Result ℕ Process) → IsFree s → Ends IsFree IsFree (elevated sys s r)
  elevated-IsFree s (err e) h = thrown h
  elevated-IsFree s (ok p) h =
      Ends-if (is_populated (sys.jaim_user s.world)) (returned h) (thrown h)

  pub check_strict-IsFree :
      (m : Mode) (s : S) → IsFree s → Ends IsFree IsFree (check_strict sys m s)
  unfolding check_strict
  check_strict-IsFree casual s h = returned h
  check_strict-IsFree bare s h = returned h
  check_strict-IsFree strict s h = elevated-IsFree s (sys.kernel.perform (seteuid 0) s.ids) h

  pub make_upper-IsFree :
      (root : Text) (s : S) → IsFree s → Ends IsFree IsFree (make_upper sys root s)
  unfolding make_upper
  make_upper-IsFree root s h = Ends-feed (resolved_dir-IsFree _ s h) (λ d t k. returned k)

  pub make_mount-IsFree :
      (root : Text) (s : S) → IsFree s → Ends IsFree IsFree (make_mount sys root s)
  unfolding make_mount
  make_mount-IsFree root s h = Ends-feed (resolved_dir-IsFree _ s h) (λ d t k. returned k)

  pub prepare_dirs-IsFree : (s : S) → IsFree s → Ends IsFree IsFree (prepare_dirs sys s)
  unfolding prepare_dirs
  prepare_dirs-IsFree s h =
      Ends-feed (ask-settled IsFree Fault.no_state_dir s (sys.state_dir s.world) h) (λ root t h.
        Ends-feed (udir-IsFree root t h)
          (λ x u h. Ends-feed (make_upper-IsFree root u h) (λ d v h. make_mount-IsFree root v h)))

  pub drop_stale-IsFree : (s : S) → IsFree s → IsFree (drop_stale sys s)
  unfolding drop_stale
  drop_stale-IsFree s h =
      if-either IsFree
        (differ sys (sys.device s.settings.overlay_mount s.world)
          (sys.parent_device s.settings.overlay_mount s.world))
        (h.0, sys.unmount-unreaped true s.settings.overlay_mount s.world ∙ h.1) h

  pub helper-IsFree :
      (s : S) (o : Option Text) → IsFree s → Ends IsFree IsFree (helper_settle sys s o)
  helper-IsFree s none h = thrown h
  helper-IsFree s (some p) h =
      ask-settled IsFree Fault.no_canonical s (sys.weakly_canonical p s.world) h

  pub device-IsFree : (s : S) (r : Option ℕ) → IsFree s → Ends IsFree IsFree (device_settle sys s r)
  device-IsFree s none h = thrown h
  device-IsFree s (some d) h = returned h

  pub fork-settled :
      (s : S) (r : Result ℕ (ℕ × sys.World))
      → ((pid : ℕ) (w : sys.World)
          → r ≡ ok (pid, w)
          → (0 < pid) × (sys.unreaped w ≡ pid ∷ sys.unreaped s.world))
      → IsFree s
      → Ends IsHeld IsFree (
          feed
            (make_settle sys Fault.no_fork s r)
            (λ pid. modify sys (λ t. record t { overlay_pid = pid })))
  fork-settled s (ok (pid, w)) law h = returned ((law pid w refl).0, rw (← h.1) (law pid w refl).1)
  fork-settled s (err e) law h = thrown h

  pub fork_overlay-IsHeld :
      (helper : Text) (s : S) → IsFree s → Ends IsHeld IsFree (fork_overlay sys helper s)
  unfolding fork_overlay
  fork_overlay-IsHeld helper s h =
      fork-settled s
        (sys.fork_helper helper s.settings.homepath s.overlay_upper s.settings.overlay_mount
          s.world)
        (sys.fork_helper-unreaped helper s.settings.homepath s.overlay_upper
          s.settings.overlay_mount s.world)
        h

  pub stop_helper-IsFree : (s : S) → IsHeld s → IsFree (stop_helper sys s)
  stop_helper-IsFree s h = (
    refl,
    sys.reap-unreaped s.overlay_pid (sys.terminate s.overlay_pid s.world) base
        (sys.terminate-unreaped s.overlay_pid s.world ∙ h.1),
  )

  pub exited-IsFree :
      (s : S)
      → (sys.has_exited s.overlay_pid s.world).0 ≡ true
      → IsHeld s
      → IsFree (forget_helper sys (after_wait sys s))
  exited-IsFree s gone h = (
    refl,
    sys.has_exited-unreaped s.overlay_pid s.world base h.1
        ∙ ap (λ (b : Bool). if b then base else s.overlay_pid ∷ base) gone,
  )

  pub waiting-IsHeld :
      (s : S)
      → (sys.has_exited s.overlay_pid s.world).0 ≡ false
      → IsHeld s
      → IsHeld (outside sys sys.usleep (after_wait sys s))
  waiting-IsHeld s alive h = (
    h.0,
    sys.usleep-unreaped (sys.has_exited s.overlay_pid s.world).1
        ∙ sys.has_exited-unreaped s.overlay_pid s.world base h.1
        ∙ ap (λ (b : Bool). if b then base else s.overlay_pid ∷ base) alive,
  )

  pub poll-IsHeld : (left pre : ℕ) (s : S) → IsHeld s → Ends IsHeld IsFree (poll sys left pre s)
  unfolding poll
  poll-IsHeld zero pre s h = thrown (stop_helper-IsFree s h)
  poll-IsHeld (suc left) pre s h =
      Ends-if (is_mounted sys pre s) (returned h)
        (elim (Bool-cases (sys.has_exited s.overlay_pid s.world).0) [
          | inl gone ↦ rw gone (thrown (exited-IsFree s gone h))
          | inr alive ↦ rw alive (
              poll-IsHeld left pre (outside sys sys.usleep (after_wait sys s))
                (waiting-IsHeld s alive h))
        ])

  pub start_overlay-IsHeld : (s : S) → IsFree s → Ends IsHeld IsFree (start_overlay sys s)
  unfolding start_overlay
  start_overlay-IsHeld s h = Ends-feed (prepare_dirs-IsFree s h) (λ x t h.
      Ends-feed
        (helper-IsFree (drop_stale sys t) (find_overlay_helper _ _ _ _) (drop_stale-IsFree t h))
        (λ helper u h. Ends-feed (device-IsFree u (sys.device _ u.world) h) (λ pre v h.
          Ends-feed (fork_overlay-IsHeld helper v h)
            (λ x w h. Ends-feed (poll-IsHeld 100 pre w h) (λ x z h. returned h)))))
