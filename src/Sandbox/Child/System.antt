-- ===== src/Sandbox/Child/System.antt =====
-- What the child of `Config::exec` uses of macOS before it becomes another program: the state of a
-- process that the calls change, and what is documented of them.
use jaim.Prelude.{
  ℕ, ◌==◌, Bool, if◌then◌else◌, List, [], ◌∷◌, ◌≡◌, any, Option, some, Result, ok, Text,
}
use jaim.Credentials.System.{Kernel}
pub use jaim.Credentials.System.{Process}

-- A process: its ids, the sandbox profile that confines it, its open descriptors, its directory,
-- its mask of modes, and its environment.
pub record Child : Type 0 where
  pub ids : Process
  pub sandbox : Option Text
  pub fds : List ℕ
  pub cwd : Text
  pub umask : ℕ
  pub environ : List Text

-- The program that takes a process over; the flag tells that it has been looked for in PATH.
pub record Image : Type 0 where
  pub file : Text
  pub arguments : List Text
  pub environment : List Text
  pub searched : Bool

abbrev pub without : ℕ → List ℕ → List ℕ
without fd [] = []
without fd (x ∷ l) = let rest = without fd l in if x == fd then rest else x ∷ rest

abbrev pub has : ℕ → List ℕ → Bool
has fd l = any (λ x. x == fd) l

pub record ChildSystem : Type 1 where
  pub kernel : Kernel
  pub sandbox_init : Text → Child → Result Text Child
  -- `proc_pidinfo(PROC_PIDLISTFDS)` with no buffer, or 0 where it fails, and with a buffer of a size.
  pub fd_bytes : Child → ℕ
  pub list_fds : ℕ → Child → List ℕ
  pub close : ℕ → Child → Child
  pub chdir : Text → Child → Result ℕ Child
  pub set_umask : ℕ → Child → Child
  pub setenv : Text → Text → List Text → List Text
  -- Whether the program takes the process over.
  pub execve : Image → Child → Bool
  pub execvp : Image → Child → Bool
  pub sandbox_init_lem :
      (p : Text) (c d : Child) → sandbox_init p c ≡ ok d → d ≡ record c { sandbox = some p }
  pub close_lem : (fd : ℕ) (c : Child) → close fd c ≡ record c { fds = without fd c.fds }
  pub chdir_lem : (p : Text) (c d : Child) → chdir p c ≡ ok d → d ≡ record c { cwd = p }
  pub set_umask_lem : (m : ℕ) (c : Child) → set_umask m c ≡ record c { umask = m }
