-- ===== src/Sandbox/Launch/Made.antt =====
-- What the modes of `Config::exec` of jaim.cc have set, the overlay's among them.
use jaim.Prelude.{
  Bool-cases, inl, inr, Result, ok, err, ◌≡◌, ◌≢◌, ==_iff, ℕ, zero, suc, true, Option, none, some,
  Text, codes, refl, subst, sym,
}
use jaim.Prelude.Stateful.{feed}
use jaim.Sandbox.Profile.{Mode, casual, bare, strict}
use jaim.Sandbox.Helper.{find_overlay_helper}
use jaim.Sandbox.Launch.System.{LaunchSystem}
use jaim.Sandbox.Launch.State.{Fault, Session, udir, outside, make_settle, modify}
use jaim.Sandbox.Launch.Overlay.{
  poll, drop_stale, prepare_dirs, fork_overlay, start_overlay, is_mounted, after_wait, differ,
  device_settle, helper_settle, make_upper, make_mount, set_mounted,
}
use jaim.Sandbox.Launch.Ends.{if-either}
use jaim.Sandbox.Launch.{make_mode}
use jaim.Sandbox.Launch.Gives.{
  Gives, given, refused, Gives-if, Gives-feed, ask-Gives, udir-Gives, dir-Gives,
}
use jaim.Sandbox.Launch.Placed.{
  IsHomed, IsElevated, HasTmp, IsMade, HasForked, IsMounted, set-IsPassed, is_put, stays, HasMode,
  HasMode-moved, make_home-IsMade,
}

module _ (sys : LaunchSystem) where
  abbrev pub S : Type 0
  S = Session sys.World

  abbrev Casual : S → Type 0
  Casual = HasMode sys casual

  udir-Casual : (d : Text) (s : S) → Casual s → Gives (λ a. Casual) (udir sys d s)
  udir-Casual d s h =
      udir-Gives sys Casual (HasMode-moved sys casual) s (sys.ensure_udir d s.world) h

  make_upper-Casual : (root : Text) (s : S) → Casual s → Gives (λ a. Casual) (make_upper sys root s)
  unfolding make_upper
  make_upper-Casual root s h =
      Gives-feed (dir-Gives sys Casual (HasMode-moved sys casual) _ s h) (λ d t h. given h)

  make_mount-Casual : (root : Text) (s : S) → Casual s → Gives (λ a. Casual) (make_mount sys root s)
  unfolding make_mount
  make_mount-Casual root s h =
      Gives-feed (dir-Gives sys Casual (HasMode-moved sys casual) _ s h) (λ d t h. given h)

  prepare_dirs-Casual : (s : S) → Casual s → Gives (λ a. Casual) (prepare_dirs sys s)
  unfolding prepare_dirs
  prepare_dirs-Casual s h =
      Gives-feed (ask-Gives sys Casual Fault.no_state_dir s (sys.state_dir s.world) h) (λ root t h.
        Gives-feed (udir-Casual root t h)
          (λ x u h. Gives-feed (make_upper-Casual root u h) (λ x v h. make_mount-Casual root v h)))

  drop_stale-Casual : (s : S) → Casual s → Casual (drop_stale sys s)
  unfolding drop_stale
  drop_stale-Casual s h =
      if-either Casual
        (differ sys (sys.device s.settings.overlay_mount s.world)
          (sys.parent_device s.settings.overlay_mount s.world))
        h h

  helper-Casual : (s : S) (o : Option Text) → Casual s → Gives (λ a. Casual) (helper_settle sys s o)
  helper-Casual s none h = refused
  helper-Casual s (some p) h =
      ask-Gives sys Casual Fault.no_canonical s (sys.weakly_canonical p s.world) h

  -- The helper of the session has been forked, and has mounted.
  abbrev Forked : ℕ → S → Type 0
  Forked pre t = Casual t × HasForked sys pre t

  abbrev Mounted : S → Type 0
  Mounted t = Casual t × IsMounted sys t

  device-Casual :
      (s : S) (r : Option ℕ)
      → sys.device s.settings.overlay_mount s.world ≡ r
      → Casual s
      → Gives
          (λ pre t. Casual t × (sys.device t.settings.overlay_mount t.world ≡ some pre))
          (device_settle sys s r)
  device-Casual s none e h = refused
  device-Casual s (some d) e h = given (h, e)

  fork-Forked :
      (helper : Text) (pre : ℕ) (s : S) (r : Result ℕ (ℕ × sys.World))
      → sys.fork_helper helper s.settings.homepath s.overlay_upper s.settings.overlay_mount s.world
        ≡ r
      → sys.device s.settings.overlay_mount s.world ≡ some pre
      → Casual s
      → Gives
          (λ a. Forked pre)
          (feed
            (make_settle sys Fault.no_fork s r)
            (λ pid. modify sys (λ t. record t { overlay_pid = pid })))
  fork-Forked helper pre s (ok (pid, w)) e k h = given (h, (helper, s.world, w, k, e))
  fork-Forked helper pre s (err n) e k h = refused

  fork_overlay-Forked :
      (helper : Text) (pre : ℕ) (s : S)
      → sys.device s.settings.overlay_mount s.world ≡ some pre
      → Casual s
      → Gives (λ a. Forked pre) (fork_overlay sys helper s)
  unfolding fork_overlay
  fork_overlay-Forked helper pre s k h =
      fork-Forked helper pre s
        (sys.fork_helper helper s.settings.homepath s.overlay_upper s.settings.overlay_mount
          s.world)
        refl k h

  differ-apart :
      (o : Option ℕ) (pre : ℕ)
      → differ sys o (some pre) ≡ true
      → (now : ℕ) × (o ≡ some now) × (now ≢ pre)
  differ-apart none pre e = cc
  differ-apart (some c) pre e = (c, refl, λ same. cc (e, (==_iff c pre).1 same))

  poll-Mounted : (left pre : ℕ) (s : S) → Forked pre s → Gives (λ a. Mounted) (poll sys left pre s)
  unfolding poll
  poll-Mounted zero pre s h = refused
  poll-Mounted (suc left) pre s h = elim (Bool-cases (is_mounted sys pre s)) [
    | inl seen ↦
        let (now, there, other) =
          differ-apart (sys.device s.settings.overlay_mount s.world) pre seen in
        rw seen (given (h.0, (pre, now, h.1, there, other)))
    | inr unseen ↦ rw unseen (
        Gives-if (sys.has_exited s.overlay_pid s.world).0 refused
          (poll-Mounted left pre (outside sys sys.usleep (after_wait sys s)) h))
  ]

  set_mounted-IsMade : (s : S) → Mounted s → IsMade sys casual (set_mounted sys s)
  unfolding IsHomed
  set_mounted-IsMade s (h, mounted) =
      let m = s.settings.overlay_mount in
      let t = record s { overlay_mounted = true } in
      (
        h.0,
        set-IsPassed sys (codes "TMPDIR") s.settings.private_tmp (set_mounted sys s)
            (stays sys m t h.1),
        (
          set-IsPassed sys (codes "HOME") m (set_mounted sys s) (is_put sys (codes "HOME") m t),
          refl,
          mounted,
        ),
      )

  start_overlay-IsMade : (s : S) → Casual s → Gives (λ a. IsMade sys casual) (start_overlay sys s)
  unfolding start_overlay
  start_overlay-IsMade s h = Gives-feed (prepare_dirs-Casual s h) (λ x t h.
      Gives-feed
        (helper-Casual (drop_stale sys t) (find_overlay_helper _ _ _ _) (drop_stale-Casual t h))
        (λ helper u h.
          Gives-feed (device-Casual u (sys.device u.settings.overlay_mount u.world) refl h)
            (λ pre v h. Gives-feed (fork_overlay-Forked helper pre v h.1 h.0) (λ x w h.
              Gives-feed (poll-Mounted 100 pre w h) (λ x z h. given (set_mounted-IsMade z h))))))

  make_mode-IsMade :
      (m : Mode) (s : S) → HasTmp sys m s → Gives (λ a. IsMade sys m) (make_mode sys m s)
  unfolding make_mode IsHomed IsElevated
  make_mode-IsMade casual s h = start_overlay-IsMade s (h.0.0, h.1)
  make_mode-IsMade bare s h = make_home-IsMade sys s (h.0.0, h.1)
  make_mode-IsMade strict s h =
      given (h.0.0, set-IsPassed sys (codes "TMPDIR") s.settings.private_tmp s h.1, h.0.1)

  pub make_mode-own :
      (m : Mode) (s : S)
      → HasTmp sys m s
      → Gives (λ a. IsMade sys m) (make_mode sys s.settings.mode s)
  make_mode-own m s h =
      subst (λ n. Gives (λ (a : Unit {0}). IsMade sys m) (make_mode sys n s)) (sym h.0.0)
        (make_mode-IsMade m s h)
