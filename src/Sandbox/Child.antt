-- ===== src/Sandbox/Child.antt =====
-- The child that `Config::exec` of jaim.cc forks: what it does before the sandboxed program runs.
pub mod System
pub mod Confined
mod Tests
use jaim.Prelude.{
  ℕ, ltb, Bool, true, false, if◌then◌else◌, List, [], ◌∷◌, ◌++◌, map, is_empty, Option, none, some,
  Result, ok, err, Text, codes,
}
use jaim.Prelude.Stateful.{Act, ◌>>=◌, ◌>>◌, pure, throw}
use jaim.Credentials.{Credentials, enter_permanently}
use jaim.Config.Environment.{Environment, make_env}
use jaim.Sandbox.Profile.{Mode, casual, bare, strict}
use jaim.Sandbox.Child.System.{Process, Image, Child, ChildSystem}

-- What the parent has prepared. `command` is the argument vector, its first word apart.
pub record Plan : Type 0 where
  pub mode : Mode
  pub user : Credentials
  pub profile : Text
  pub script_path : Text
  pub cwd : Text
  pub old_umask : ℕ
  pub shellcmd : Text
  pub command : Text
  pub arguments : List Text
  pub environment : Environment

pub data Fault : Type 0 where
  not_entered : jaim.Credentials.Fault → Fault
  no_sandbox : Text → Fault
  no_directory : ℕ → Fault

-- How the child goes on: as another program, or not at all.
pub data Fate : Type 0 where
  runs : Image → Child → Fate
  exits : ℕ → Fate

abbrev pub path_bash : Text
path_bash = codes "/bin/bash"

unfoldable pub file_of : Plan → Text
file_of p = if is_empty p.shellcmd then p.command else path_bash

unfoldable pub argv_of : Plan → List Text
argv_of p =
    if is_empty p.shellcmd
    then p.command ∷ p.arguments
    else codes "init" ∷ codes "-c" ∷ p.shellcmd ∷ p.command ∷ p.arguments

unfoldable pub made_image : Plan → Child → Image
made_image p c = record {
  file = file_of p;
  arguments = argv_of p;
  environment = map (λ v. v.1) (make_env p.environment c.environ);
  searched = false;
}

unfoldable pub sought_image : Plan → Child → Image
sought_image p c = record {
  file = file_of p;
  arguments = argv_of p;
  environment = c.environ;
  searched = true;
}

module _ (sys : ChildSystem) where
  abbrev pub ChildAct : Type 0 → Type 0
  ChildAct A = Act Child Fault A

  abbrev pub settle_ids :
      Child → Result jaim.Credentials.Fault (Unit {0}) × Process → Result Fault (Unit {0}) × Child
  settle_ids c (ok u, ids) = (ok tt, record c { ids = ids })
  settle_ids c (err e, ids) = (err (not_entered e), record c { ids = ids })

  abbrev pub drop_in : Mode → Credentials → ChildAct (Unit {0})
  drop_in strict user c = settle_ids c (enter_permanently sys.kernel user c.ids)
  drop_in bare user c = (ok tt, c)
  drop_in casual user c = (ok tt, c)

  abbrev pub settle :
      {A : Type 0} → (A → Fault) → Child → Result A Child → Result Fault (Unit {0}) × Child
  settle fault c (ok d) = (ok tt, d)
  settle fault c (err e) = (err (fault e), c)

  unfoldable pub close_high : ℕ → Child → Child
  close_high fd c = if ltb fd 3 then c else sys.close fd c

  unfoldable pub close_loop : List ℕ → Child → Child
  close_loop [] c = c
  close_loop (fd ∷ fds) c = close_loop fds (close_high fd c)

  -- The descriptors above stderr; none is closed where their number cannot be had.
  unfoldable pub scrub : Child → Child
  scrub c =
      let need = sys.fd_bytes c in if ltb 0 need then close_loop (sys.list_fds need c) c else c

  unfoldable pub set_script : Text → Child → Child
  set_script path c =
      if is_empty path
      then c
      else record c { environ = sys.setenv (codes "JAIM_SCRIPT") path c.environ }

  abbrev pub modify : (Child → Child) → ChildAct (Unit {0})
  modify f c = (ok tt, f c)

  -- What is made ready before `execve`.
  unfoldable pub confine : Plan → ChildAct (Unit {0})
  confine p = do
    drop_in p.mode p.user
    λ c. settle no_sandbox c (sys.sandbox_init p.profile c)
    modify scrub
    modify (set_script p.script_path)
    λ c. settle no_directory c (sys.chdir p.cwd c)
    modify (sys.set_umask p.old_umask)

  -- `execve` with the environment of `make_env`, and `execvp`, which searches PATH and passes on the
  -- environment that jaim has.
  unfoldable pub replace : Plan → Child → Fate
  replace p c =
      let made = made_image p c in
      let sought = sought_image p c in
      if sys.execve made c
      then runs made c
      else if sys.execvp sought c
      then runs sought c
      else exits 1

  abbrev pub or_exit : Plan → Result Fault (Unit {0}) × Child → Fate
  or_exit p (ok u, c) = replace p c
  or_exit p (err e, c) = exits 1

  unfoldable pub child : Plan → Child → Fate
  child p c = or_exit p (confine p c)
