-- ===== src/Sandbox/Launch/Placed.antt =====
-- What `Config::exec` of jaim.cc has set when the private directories are made.
use jaim.Prelude.{
  ◌≢◌, ℕ, Bool-cases, inl, inr, true, List, ◌++◌, some, Result, ok, err, Text, codes, text_eq,
  text_eq_iff, ◌≡◌, refl, ◌∙◌,
}
use jaim.Credentials.{is_populated}
use jaim.Credentials.System.{Process, seteuid}
use jaim.Config.Environment.{find, make_env}
use jaim.Config.Environment.Lookup.{find-put, find-make_env}
use jaim.Sandbox.Rules.{Item}
use jaim.Sandbox.Profile.{Mode, casual, bare, strict, Settings, check_cwd, generate_sandbox_profile}
use jaim.Sandbox.Launch.System.{LaunchSystem}
use jaim.Sandbox.Launch.State.{Fault, Session, lift_profile, export}
use jaim.Sandbox.Launch.{
  check_strict, elevated, preflight_cwd, make_tmp, make_home, set_tmp, set_home,
}
use jaim.Sandbox.Launch.Gives.{
  Gives, given, refused, Gives-if, Gives-feed, ask-Gives, udir-Gives, make-Gives, dir-Gives,
}

module _ (sys : LaunchSystem) where
  abbrev pub S : Type 0
  S = Session sys.World

  -- The variable of that name has that value.
  abbrev pub IsPut : Text → Text → S → Type 0
  IsPut name value t = find name t.setenv ≡ some (name ++ (codes "=" ++ value))

  -- What `make_env` passes on, whatever is filtered and whatever the parent's environment holds.
  abbrev pub IsPassed : Text → Text → S → Type 0
  IsPassed name value t =
      (patterns environ : List Text)
      → find name (make_env (record { env_filter = patterns; setenv = t.setenv }) environ)
        ≡ some (name ++ (codes "=" ++ value))

  -- The helper that the session keeps has been forked where the mount point was on that device.
  abbrev pub HasForked : ℕ → S → Type 0
  HasForked pre t =
      (helper : Text) × (before : sys.World) × (after : sys.World) × (sys.device
          t.settings.overlay_mount before
        ≡ some pre)
      × (sys.fork_helper helper t.settings.homepath t.overlay_upper t.settings.overlay_mount before
          ≡ ok (t.overlay_pid, after))

  -- The mount point is on another device than before the helper was forked.
  abbrev pub IsMounted : S → Type 0
  IsMounted t =
      (pre : ℕ) × (now : ℕ) × HasForked pre t
      × (sys.device t.settings.overlay_mount t.world ≡ some now)
      × (now ≢ pre)

  -- What a mode needs.
  unfoldable pub IsHomed : Mode → S → Type 0
  IsHomed casual t =
      IsPassed (codes "HOME") t.settings.overlay_mount t × (t.overlay_mounted ≡ true) × IsMounted t
  IsHomed bare t = IsPassed (codes "HOME") t.settings.private_home t
  IsHomed strict t = is_populated t.user ≡ true

  abbrev pub IsReady : Mode → List Item → S → Type 0
  IsReady m items t =
      (t.settings.mode ≡ m)
      × IsPassed (codes "TMPDIR") t.settings.private_tmp t
      × IsHomed m t
      × (generate_sandbox_profile t.settings ≡ ok items)

  unfoldable pub IsElevated : Mode → S → Type 0
  IsElevated casual t = Unit
  IsElevated bare t = Unit
  IsElevated strict t = is_populated t.user ≡ true

  abbrev pub IsBegun : Mode → S → Type 0
  IsBegun m t = (t.settings.mode ≡ m) × IsElevated m t

  abbrev pub HasTmp : Mode → S → Type 0
  HasTmp m t = IsBegun m t × IsPut (codes "TMPDIR") t.settings.private_tmp t

  abbrev pub IsMade : Mode → S → Type 0
  IsMade m t =
      (t.settings.mode ≡ m) × IsPassed (codes "TMPDIR") t.settings.private_tmp t × IsHomed m t

  pub set-IsPassed : (name value : Text) (t : S) → IsPut name value t → IsPassed name value t
  set-IsPassed name value t h patterns environ =
      find-make_env (record { env_filter = patterns; setenv = t.setenv }) environ name ∙ rw h refl

  elevated-IsBegun :
      (s : S) (r : Result ℕ Process)
      → s.settings.mode ≡ strict
      → Gives (λ a. IsBegun strict) (elevated sys s r)
  unfolding IsElevated
  elevated-IsBegun s (err e) h = refused
  elevated-IsBegun s (ok p) h = elim (Bool-cases (is_populated (sys.jaim_user s.world))) [
    | inl full ↦ rw full (given (h, full))
    | inr none_of_it ↦ rw none_of_it refused
  ]

  pub check_strict-IsBegun :
      (m : Mode) (s : S) → s.settings.mode ≡ m → Gives (λ a. IsBegun m) (check_strict sys m s)
  unfolding check_strict IsElevated
  check_strict-IsBegun casual s h = given (h, tt)
  check_strict-IsBegun bare s h = given (h, tt)
  check_strict-IsBegun strict s h = elevated-IsBegun s (sys.kernel.perform (seteuid 0) s.ids) h

  profile-Gives :
      {A : Type 0} (m : Mode) (s : S) (r : Result jaim.Sandbox.Profile.Fault A)
      → IsBegun m s
      → Gives (λ a. IsBegun m) (lift_profile sys s r)
  profile-Gives m s (ok a) h = given h
  profile-Gives m s (err e) h = refused

  pub is_put : (name value : Text) (s : S) → IsPut name value (export sys name value s)
  unfolding text_eq
  is_put name value s =
      find-put name name (name ++ (codes "=" ++ value)) s.setenv
      ∙ rw ((text_eq_iff name name).1 refl) refl

  -- Setting HOME leaves TMPDIR.
  pub stays :
      (d : Text) (s : S)
      → IsPut (codes "TMPDIR") s.settings.private_tmp s
      → IsPut (codes "TMPDIR") s.settings.private_tmp (export sys (codes "HOME") d s)
  unfolding text_eq
  stays d s h =
      find-put (codes "HOME") (codes "TMPDIR") (codes "HOME" ++ (codes "=" ++ d)) s.setenv ∙ h

  IsBegun-moved :
      (m : Mode) (s : S) (w : sys.World) → IsBegun m s → IsBegun m (record s { world = w })
  unfolding IsElevated
  IsBegun-moved casual s w h = h
  IsBegun-moved bare s w h = h
  IsBegun-moved strict s w h = h

  pub preflight_cwd-IsBegun :
      (m : Mode) (s : S) → IsBegun m s → Gives (λ a. IsBegun m) (preflight_cwd sys s)
  unfolding preflight_cwd
  preflight_cwd-IsBegun m s h =
      Gives-if s.settings.grant_cwd (profile-Gives m s (check_cwd _ _) h) (given h)

  set_tmp-HasTmp : (m : Mode) (d : Text) (s : S) → IsBegun m s → HasTmp m (set_tmp sys d s)
  unfolding IsElevated
  set_tmp-HasTmp casual d s h = (h, is_put (codes "TMPDIR") d s)
  set_tmp-HasTmp bare d s h = (h, is_put (codes "TMPDIR") d s)
  set_tmp-HasTmp strict d s h = (h, is_put (codes "TMPDIR") d s)

  pub make_tmp-HasTmp : (m : Mode) (s : S) → IsBegun m s → Gives (λ a. HasTmp m) (make_tmp sys s)
  unfolding make_tmp
  make_tmp-HasTmp m s h =
      Gives-feed (ask-Gives sys (IsBegun m) Fault.no_temp s (sys.temp_directory s.world) h)
        (λ base t h.
          Gives-feed
            (make-Gives sys (IsBegun m) (IsBegun-moved m) Fault.no_mkdtemp t (sys.mkdtemp _ t.world)
              h)
            (λ made u h.
              Gives-feed
                (ask-Gives sys (IsBegun m) Fault.no_canonical u (sys.canonical made u.world) h)
                (λ d v h. given (set_tmp-HasTmp m d v h))))

  -- Below, what the modes with a home of their own need before they make it.
  abbrev pub HasMode : Mode → S → Type 0
  HasMode m t = (t.settings.mode ≡ m) × IsPut (codes "TMPDIR") t.settings.private_tmp t

  pub HasMode-moved :
      (m : Mode) (s : S) (w : sys.World) → HasMode m s → HasMode m (record s { world = w })
  HasMode-moved m s w h = h

  set_home-IsMade : (d : Text) (s : S) → HasMode bare s → IsMade bare (set_home sys d s)
  unfolding IsHomed
  set_home-IsMade d s h = (
    h.0,
    set-IsPassed (codes "TMPDIR") s.settings.private_tmp (set_home sys d s) (stays d s h.1),
    set-IsPassed (codes "HOME") d (set_home sys d s) (is_put (codes "HOME") d s),
  )

  pub make_home-IsMade : (s : S) → HasMode bare s → Gives (λ a. IsMade bare) (make_home sys s)
  unfolding make_home
  make_home-IsMade s h =
      Gives-feed
        (udir-Gives sys (HasMode bare) (HasMode-moved bare) s
          (sys.ensure_udir s.homejaimpath s.world) h)
        (λ x t h.
          Gives-feed (dir-Gives sys (HasMode bare) (HasMode-moved bare) _ t h)
            (λ d u h. given (set_home-IsMade d u h)))
