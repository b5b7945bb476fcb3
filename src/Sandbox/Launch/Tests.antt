-- ===== src/Sandbox/Launch/Tests.antt =====
-- Runs of the launch.
use jaim.Prelude.{
  Option, ℕ, ◌<◌, Bool, true, false, if◌then◌else◌, List, [], ◌∷◌, none, some, Result, ok, err,
  Text, codes, ◌≡◌, refl, ap, arith,
}
use jaim.Acl.Simple.{Files, simple, no_entries}
use jaim.Acl.System.{file}
use jaim.Credentials.Simple.{root_process, sandbox_user}
use jaim.Sandbox.Rules.{Item}
use jaim.Sandbox.Profile.{Settings, casual, generate_sandbox_profile}
use jaim.Fs.Ensure.Simple.{small_directory, empty}
use jaim.Sandbox.Launch.System.{LaunchSystem}
use jaim.Sandbox.Launch.State.{Session}
use jaim.Sandbox.Launch.Ends.{Ends}
use jaim.Sandbox.Launch.Held.{IsFree}
use jaim.Sandbox.Launch.Placed.{IsReady}
use jaim.Sandbox.Launch.Ready.{launch-IsReady}
use jaim.Sandbox.Launch.{launch}
use jaim.Sandbox.Launch.Sweep.Swept.{IsSwept, launch-IsSwept}

-- The lists of the files, the helpers, whether the overlay is mounted, and the scripts.
abbrev World : Type 0
World = Files × List ℕ × Bool × jaim.Fs.Ensure.Simple.Files

abbrev tail : List ℕ → List ℕ
tail [] = []
tail (x ∷ l) = l

abbrev helpers : World → List ℕ
helpers w = w.1

unchanged :
    (w after : World) → ◌≡◌ {A = Result ℕ World} (ok w) (ok after) → helpers after ≡ helpers w
unchanged w after e = cc

unchanged_beside :
    (d : Text) (w : World) (p : Text) (after : World)
    → ◌≡◌ {A = Result ℕ (Text × World)} (ok (d, w)) (ok (p, after))
    → helpers after ≡ helpers w
unchanged_beside d w p after e = cc

same_device :
    (w after : World)
    → ◌≡◌ {A = Result ℕ World} (ok w) (ok after)
    → ◌≡◌ {A = Option ℕ} (some (if after.2 then 2 else 1)) (some (if w.2 then 2 else 1))
same_device w after e = cc

started :
    (w : World) (pid : ℕ) (after : World)
    → ◌≡◌ {A = Result ℕ (ℕ × World)} (ok (7, (w.0, 7 ∷ w.1, true, w.3))) (ok (pid, after))
    → (0 < pid) × (helpers after ≡ pid ∷ helpers w)
started w pid after e = ground arith

abbrev system : LaunchSystem
system = record {
  World = World;
  kernel = jaim.Credentials.Simple.simple;
  acl = simple;
  files = λ w. w.0;
  with_files = λ fs w. (fs, w.1, w.2, w.3);
  tree_of = λ w p. file;
  jaim_user = λ w. sandbox_user;
  ensure_udir = λ p w. (ok tt, w);
  scripts = small_directory;
  script_files = λ w. w.3;
  with_script_files = λ fs w. (w.0, w.1, w.2, fs);
  read_file = λ i fs. err 2;
  rndbuf = λ w. 11 ∷ 255 ∷ [];
  temp_directory = λ w. ok (codes "/tmp");
  mkdtemp = λ d w. ok (d, w);
  canonical = λ d w. ok d;
  state_dir = λ w. ok (codes "/c/jaim");
  prog = codes "/b/jaim";
  path_env = none;
  runs = λ w p. true;
  parent_path = λ p. codes "/b";
  weakly_canonical = λ p w. ok p;
  device = λ d w. some (if w.2 then 2 else 1);
  parent_device = λ d w. some 1;
  unmount = λ force m w. (none, (w.0, w.1, false, w.3));
  fork_helper = λ helper lower upper mount w. ok (7, (w.0, 7 ∷ w.1, true, w.3));
  has_exited = λ pid w. (false, w);
  reap = λ pid w. (w.0, tail w.1, w.2, w.3);
  terminate = λ pid w. w;
  usleep = λ w. w;
  chown = λ p u g w. ok w;
  remove_all = λ p w. w;
  with_files-device = λ fs w p. refl;
  chown-device = λ q u g w after p. same_device w after;
  with_script_files-device = λ fs w p d e. e;
  unreaped = helpers;
  fork_helper-unreaped = λ helper lower upper mount. started;
  reap-unreaped = λ pid w l e. ap tail e;
  has_exited-unreaped = λ pid w l e. e;
  terminate-unreaped = λ pid w. refl;
  usleep-unreaped = λ w. refl;
  with_files-unreaped = λ fs w. refl;
  unmount-unreaped = λ force m w. refl;
  remove_all-unreaped = λ p w. refl;
  ensure_udir-unreaped = λ p w. refl;
  chown-unreaped = λ p u g. unchanged;
  with_script_files-unreaped = λ fs w. refl;
  mkdtemp-unreaped = unchanged_beside;
}

abbrev settings : Settings
settings = record {
  mode = casual;
  private_tmp = [];
  private_home = [];
  overlay_mount = [];
  homepath = codes "/h";
  mask_files = codes ".ssh" ∷ [];
  grant_cwd = true;
  cwd = codes "/h/w";
  grant_directories = (codes "/d", 1) ∷ [];
  grant_files = [];
}

abbrev session : Session World
session = record {
  world = (no_entries, [], false, empty);
  ids = root_process;
  user = sandbox_user;
  settings = settings;
  sandbox_name = codes "default";
  homejaimpath = codes "/h/.jaim";
  script_inputs = [];
  setenv = [];
  overlay_upper = [];
  overlay_pid = 0;
  overlay_mounted = false;
}

launch-IsSwept_example : Ends (IsSwept system []) (IsFree system []) (launch system session)
launch-IsSwept_example = launch-IsSwept system [] session (refl, refl)

abbrev items_of : {E A : Type 0} → Result E (List A) → List A
items_of (ok items) = items
items_of (err e) = []

-- The session behind the launch.
abbrev launched : Session World
launched = record session {
  world = (no_entries, 7 ∷ [], true, empty);
  settings = record settings {
    private_tmp = codes "/tmp/jaim.XXXXXXXX";
    overlay_mount = codes "/c/jaim/default.mount";
  };
  setenv =
      (codes "HOME", codes "HOME=/c/jaim/default.mount")
      ∷ (codes "TMPDIR", codes "TMPDIR=/tmp/jaim.XXXXXXXX")
      ∷ [];
  overlay_upper = codes "/c/jaim/default.changes";
  overlay_pid = 7;
  overlay_mounted = true;
}

abbrev items : List Item
items = items_of (generate_sandbox_profile launched.settings)

is_launched : launch system session ≡ (ok (items, []), launched)
unfolding launch jaim.Sandbox.Helper.find_overlay_helper jaim.Sandbox.Script.make_script
    jaim.Sandbox.Launch.check_strict jaim.Sandbox.Launch.preflight_cwd jaim.Sandbox.Launch.make_tmp
    jaim.Sandbox.Launch.make_mode jaim.Sandbox.Launch.prepare jaim.Sandbox.Launch.open_up
    jaim.Sandbox.Launch.Overlay.start_overlay jaim.Sandbox.Launch.Overlay.drop_stale
    jaim.Sandbox.Launch.Overlay.fork_overlay jaim.Sandbox.Launch.Overlay.make_mount
    jaim.Sandbox.Launch.Overlay.make_upper jaim.Sandbox.Launch.Overlay.poll
    jaim.Sandbox.Launch.Overlay.prepare_dirs jaim.Sandbox.Profile.check_cwd
    jaim.Sandbox.Profile.masked_in jaim.Sandbox.Profile.require jaim.Sandbox.Profile.casual_items
    jaim.Sandbox.Profile.cwd_items generate_sandbox_profile jaim.Fs.Paths.contains
    jaim.Fs.Paths.is_prefix jaim.Fs.Paths.elements jaim.Fs.Paths.join jaim.Fs.Paths.has_filename
    jaim.Fs.Paths.relative_elements jaim.Fs.Paths.names jaim.Fs.Paths.segments jaim.Fs.Paths.cat
    jaim.Config.Environment.put jaim.Options.Action.text_lt jaim.Prelude.text_eq
is_launched = refl

launch-IsReady_example : IsReady system casual items launched
launch-IsReady_example = launch-IsReady system session launched items [] is_launched
