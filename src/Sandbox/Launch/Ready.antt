-- ===== src/Sandbox/Launch/Ready.antt =====
-- What a launch that returns has prepared, by `Config::exec` and `make_env` of jaim.cc: the
-- directories that the environment names are those of the profile.
use jaim.Prelude.{some, ◌∙◌, ℕ, List, [], ◌∷◌, is_empty, Result, ok, err, Text, ◌≡◌, refl, subst}
use jaim.Prelude.Stateful.{feed}
use jaim.Sandbox.Rules.{Item}
use jaim.Sandbox.Profile.{Mode, casual, bare, strict, Settings, check_cwd, generate_sandbox_profile}
use jaim.Sandbox.Launch.System.{LaunchSystem}
use jaim.Sandbox.Launch.State.{Fault, Session, lift_profile}
use jaim.Sandbox.Launch.Ends.{if-either}
use jaim.Sandbox.Launch.{
  scripted, or_undo, give, open_cwd, open_directories, open_files, open_up, prepare, launch,
}
use jaim.Sandbox.Launch.Gives.{Gives, given, refused, Gives-if, Gives-feed, Holds, Gives-Holds}
use jaim.Sandbox.Launch.Placed.{
  IsHomed, IsReady, IsMade, check_strict-IsBegun, preflight_cwd-IsBegun, make_tmp-HasTmp,
}
use jaim.Sandbox.Launch.Made.{make_mode-own}
use jaim.Sandbox.Launch.State.{invoke_settle}

module _ (sys : LaunchSystem) where
  abbrev pub S : Type 0
  S = Session sys.World

  -- What is there stays on its device.
  abbrev Stay : S → sys.World → Type 0
  Stay s w = (p : Text) (d : ℕ) → sys.device p s.world ≡ some d → sys.device p w ≡ some d

  -- Behind that, only the outside changes.
  IsMade-moved :
      (m : Mode) (s : S) (w : sys.World)
      → Stay s w
      → IsMade sys m s
      → IsMade sys m (record s { world = w })
  unfolding IsHomed
  IsMade-moved casual s w k (mode, tmp, (home, flag, (pre, now, forked, there, other))) =
      (mode, tmp, (home, flag, (pre, now, forked, k s.settings.overlay_mount now there, other)))
  IsMade-moved bare s w k h = h
  IsMade-moved strict s w k h = h

  with_files-Stay : (s : S) (fs : sys.acl.Files) → Stay s (sys.with_files fs s.world)
  with_files-Stay s fs p d e = sys.with_files-device fs s.world p ∙ e

  module _ (m : Mode) where
    open_directories-IsMade :
        (grants : List (Text × ℕ)) (s : S)
        → IsMade sys m s
        → IsMade sys m (open_directories sys grants s)
    unfolding open_directories
    open_directories-IsMade [] s h = h
    open_directories-IsMade ((d, flags) ∷ rest) s h =
        open_directories-IsMade rest (record s { world = _ })
          (IsMade-moved m s _ (with_files-Stay s _) h)

    open_files-IsMade :
        (grants : List (Text × ℕ)) (s : S) → IsMade sys m s → IsMade sys m (open_files sys grants s)
    unfolding open_files
    open_files-IsMade [] s h = h
    open_files-IsMade ((f, flags) ∷ rest) s h =
        open_files-IsMade rest (record s { world = _ }) (IsMade-moved m s _ (with_files-Stay s _) h)

    open_cwd-IsMade : (s : S) → IsMade sys m s → IsMade sys m (open_cwd sys s)
    open_cwd-IsMade s h =
        if-either (IsMade sys m) s.settings.grant_cwd (open_directories-IsMade _ s h) h

    chowned-IsMade :
        (p : Text) (s : S) (r : Result ℕ sys.World)
        → sys.chown p s.user.uid s.user.gid s.world ≡ r
        → IsMade sys m s
        → Gives (λ a. IsMade sys m) (invoke_settle sys Fault.no_chown s r)
    chowned-IsMade p s (ok w) e h =
        given (
          IsMade-moved m s w (λ q d k. sys.chown-device p s.user.uid s.user.gid s.world w q e ∙ k)
            h)
    chowned-IsMade p s (err n) e h = refused

    give-IsMade : (p : Text) (s : S) → IsMade sys m s → Gives (λ a. IsMade sys m) (give sys p s)
    give-IsMade p s h = chowned-IsMade p s (sys.chown p s.user.uid s.user.gid s.world) refl h

    open_up-IsMade :
        (script : Text) (n : Mode) (s : S)
        → IsMade sys m s
        → Gives (λ a. IsMade sys m) (open_up sys script n s)
    unfolding open_up
    open_up-IsMade script casual s h = given h
    open_up-IsMade script bare s h = given h
    open_up-IsMade script strict s h = Gives-feed (give-IsMade s.settings.private_tmp s h) (λ x t h.
        Gives-feed (Gives-if (is_empty script) (given h) (give-IsMade script t h)) (λ x u h.
          given (open_cwd-IsMade _ (open_files-IsMade _ _ (open_directories-IsMade _ u h)))))

    profile-IsReady :
        (script : Text) (s : S) (r : Result jaim.Sandbox.Profile.Fault (List Item))
        → generate_sandbox_profile s.settings ≡ r
        → IsMade sys m s
        → Gives
            (λ (a : List Item × Text). IsReady sys m a.0)
            (feed (lift_profile sys s r) (λ items t. (ok (items, script), t)))
    profile-IsReady script s (ok items) e h = given (h.0, h.1, h.2, e)
    profile-IsReady script s (err x) e h = refused

    script-IsMade :
        (s : S) (r : Result jaim.Sandbox.Script.Fault Text × sys.scripts.Files)
        → IsMade sys m s
        → Gives (λ a. IsMade sys m) (scripted sys s r)
    script-IsMade s (ok p, fs) h = given (
        IsMade-moved m s (sys.with_script_files fs s.world)
          (λ q d k. sys.with_script_files-device fs s.world q d k) h)
    script-IsMade s (err e, fs) h = refused

    prepare-IsReady :
        (s : S)
        → IsMade sys m s
        → Gives (λ (a : List Item × Text). IsReady sys m a.0) (prepare sys s)
    unfolding prepare
    prepare-IsReady s h = Gives-feed (script-IsMade s _ h) (λ script t h.
        Gives-feed (open_up-IsMade script t.settings.mode t h)
          (λ x u h. profile-IsReady script u (generate_sandbox_profile u.settings) refl h))

    or_undo-Gives :
        {A : Type 0} {P : A → S → Type 0} {r : Result Fault A × S}
        → Gives P r
        → Gives P (or_undo sys r)
    or_undo-Gives (given h) = given h
    or_undo-Gives refused = refused

  launch-Gives :
      (s : S) → Gives (λ (a : List Item × Text). IsReady sys s.settings.mode a.0) (launch sys s)
  unfolding launch
  launch-Gives s =
      let m = s.settings.mode in
      Gives-feed (check_strict-IsBegun sys m s refl) (λ x t h.
        Gives-feed (preflight_cwd-IsBegun sys m t h) (λ x u h.
          Gives-feed (make_tmp-HasTmp sys m u h) (λ x v h.
            Gives-feed (make_mode-own sys m v h)
              (λ x w h. or_undo-Gives m (prepare-IsReady m w h)))))

  -- Where a launch returns, the mode is as it was and the environment and the profile are ready:
  -- whatever was set, filtered or inherited, `make_env` passes TMPDIR on as the private directory of
  -- the profile that has been generated; in casual mode it passes HOME on as the overlay's mount
  -- point, which at the end is on another device than it was when the helper was forked whose number
  -- the session keeps; in bare mode HOME is the private home; in strict mode there is a sandbox user.
  pub launch-IsReady :
      (s t : S) (items : List Item) (script : Text)
      → launch sys s ≡ (ok (items, script), t)
      → IsReady sys s.settings.mode items t
  launch-IsReady s t items script e =
      subst (Holds (λ (a : List Item × Text). IsReady sys s.settings.mode a.0)) e
        (Gives-Holds (launch-Gives s))
