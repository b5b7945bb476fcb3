-- ===== src/Sandbox/Launch/System.antt =====
-- What `Config::exec` of jaim.cc uses before it forks the child: the calls of the system, and the
-- parts of the program that it calls, over a state of the outside.
use jaim.Prelude.{ℕ, ◌<◌, Bool, if◌then◌else◌, List, ◌∷◌, ◌≡◌, Option, some, Result, ok, Text}
use jaim.Prelude.Stateful.{Act}
use jaim.Acl.System.{AclSystem, Tree}
use jaim.Credentials.{Credentials}
use jaim.Credentials.System.{Kernel}
use jaim.Fs.Ensure.{FileDirectory}

pub record LaunchSystem : Type 1 where
  pub World : Type 0
  pub kernel : Kernel
  pub acl : AclSystem
  pub files : World → acl.Files
  pub with_files : acl.Files → World → World
  pub tree_of : World → Text → Tree
  -- `Credentials::get_jaim_user`, and `ensure_udir`, which may have made a part of a path where it
  -- throws.
  pub jaim_user : World → Credentials
  pub ensure_udir : Text → Act World ℕ (Unit {0})
  -- What `make_script` reads and writes, and the bytes of `arc4random_buf`.
  pub scripts : FileDirectory
  pub script_files : World → scripts.Files
  pub with_script_files : scripts.Files → World → World
  pub read_file : Text → scripts.Files → Result ℕ Text
  pub rndbuf : World → List ℕ
  pub temp_directory : World → Result ℕ Text
  pub mkdtemp : Text → World → Result ℕ (Text × World)
  pub canonical : Text → World → Result ℕ Text
  -- `confstr(_CS_DARWIN_USER_CACHE_DIR)` and the directory below it.
  pub state_dir : World → Result ℕ Text
  -- For the search of the helper: the name of the running program, PATH, `access(X_OK)`, and the
  -- standard library's functions on paths.
  pub prog : Text
  pub path_env : Option Text
  pub runs : World → Text → Bool
  pub parent_path : Text → Text
  pub weakly_canonical : Text → World → Result ℕ Text
  -- `st_dev` of what `stat` finds.
  pub device : Text → World → Option ℕ
  pub parent_device : Text → World → Option ℕ
  -- `unmount`, by force or not; the value of errno where it fails.
  pub unmount : Bool → Text → World → Option ℕ × World
  -- `fork` and, in the new process, `execl` of the helper with the lower layer, the upper layer and
  -- the mount point.
  pub fork_helper : Text → Text → Text → Text → World → Result ℕ (ℕ × World)
  -- `waitpid` with WNOHANG, and `waitpid` that is called again as long as it is interrupted.
  pub has_exited : ℕ → World → Bool × World
  pub reap : ℕ → World → World
  pub terminate : ℕ → World → World
  pub usleep : World → World
  pub chown : Text → ℕ → ℕ → World → Result ℕ World
  -- `remove_all` with an error code that is ignored.
  pub remove_all : Text → World → World
  -- What changes entries of a list, an owner or the script leaves the devices of what is there.
  pub with_files-device :
      (fs : acl.Files) (w : World) (p : Text) → device p (with_files fs w) ≡ device p w
  pub chown-device :
      (q : Text) (u g : ℕ) (w after : World) (p : Text)
      → chown q u g w ≡ ok after
      → device p after ≡ device p w
  pub with_script_files-device :
      (fs : scripts.Files) (w : World) (p : Text) (d : ℕ)
      → device p w ≡ some d
      → device p (with_script_files fs w) ≡ some d
  -- The helpers that have been forked and not been waited for.
  pub unreaped : World → List ℕ
  pub fork_helper-unreaped :
      (helper lower upper mount : Text) (w : World) (pid : ℕ) (after : World)
      → fork_helper helper lower upper mount w ≡ ok (pid, after)
      → (0 < pid) × (unreaped after ≡ pid ∷ unreaped w)
  pub reap-unreaped :
      (pid : ℕ) (w : World) (l : List ℕ) → unreaped w ≡ pid ∷ l → unreaped (reap pid w) ≡ l
  pub has_exited-unreaped :
      (pid : ℕ) (w : World) (l : List ℕ)
      → unreaped w ≡ pid ∷ l
      → unreaped (has_exited pid w).1 ≡ (if (has_exited pid w).0 then l else pid ∷ l)
  pub terminate-unreaped : (pid : ℕ) (w : World) → unreaped (terminate pid w) ≡ unreaped w
  pub usleep-unreaped : (w : World) → unreaped (usleep w) ≡ unreaped w
  pub with_files-unreaped : (fs : acl.Files) (w : World) → unreaped (with_files fs w) ≡ unreaped w
  pub unmount-unreaped :
      (force : Bool) (m : Text) (w : World) → unreaped (unmount force m w).1 ≡ unreaped w
  pub remove_all-unreaped : (p : Text) (w : World) → unreaped (remove_all p w) ≡ unreaped w
  pub ensure_udir-unreaped : (p : Text) (w : World) → unreaped (ensure_udir p w).1 ≡ unreaped w
  pub chown-unreaped :
      (p : Text) (u g : ℕ) (w after : World)
      → chown p u g w ≡ ok after
      → unreaped after ≡ unreaped w
  pub with_script_files-unreaped :
      (fs : scripts.Files) (w : World) → unreaped (with_script_files fs w) ≡ unreaped w
  pub mkdtemp-unreaped :
      (d : Text) (w : World) (p : Text) (after : World)
      → mkdtemp d w ≡ ok (p, after)
      → unreaped after ≡ unreaped w
