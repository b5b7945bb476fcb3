-- ===== src/Sandbox/Teardown/System.antt =====
-- What `Config::teardown` of jaim.cc uses of the system, and what is documented of it, for paths
-- of which no part is a symbolic link.
use jaim.Prelude.{ℕ, Bool, false, List, All, contains_byte, ◌≡◌, Option, some, Result, Text}
use jaim.Fs.Paths.{contains}

-- `d_type`, as far as it matters.
pub data DirKind : Type 0 where
  dir_kind unknown other_kind : DirKind

-- A directory that is opened: there, with its owner, or absent, or another failure.
pub data OpenedDir : Type 0 where
  owned_by : ℕ → OpenedDir
  absent : OpenedDir
  failed : ℕ → OpenedDir

pub record TeardownSystem : Type 1 where
  pub World : Type 0
  pub state_dir : Result ℕ Text
  pub temp_directory : Option Text
  pub open_dir : Text → World → OpenedDir
  -- `try_opendir` and `readdir`.
  pub list_dir : Text → World → Option (List (Text × DirKind))
  -- A name in a directory holds no slash.
  pub list_dir-names :
      (p : Text) (w : World) (entries : List (Text × DirKind))
      → list_dir p w ≡ some entries
      → All (λ (e : Text × DirKind). contains_byte b'/' e.0 ≡ false) entries
  pub device : Text → World → Option ℕ
  pub parent_device : Text → World → Option ℕ
  pub unmount : Bool → Text → World → Bool × World
  pub remove_all : Text → World → World
  -- `lstat`: whether it is a directory, and its owner.
  pub lstat : Text → World → Option (Bool × ℕ)
  pub exists : World → Text → Bool
  pub remove_all-beside :
      (p q : Text) (w : World) → contains p q ≡ false → exists (remove_all p w) q ≡ exists w q
  pub unmount-beside :
      (force : Bool) (p q : Text) (w : World)
      → contains p q ≡ false
      → exists (unmount force p w).1 q ≡ exists w q
