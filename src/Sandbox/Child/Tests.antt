-- ===== src/Sandbox/Child/Tests.antt =====
-- Runs of the child.
use jaim.Prelude.{
  ℕ, ◌==◌, Bool, true, false, List, [], ◌∷◌, ◌++◌, length, none, some, Result, ok, err, Text, codes,
  text_eq, ◌≡◌, refl,
}
use jaim.Credentials.{Credentials}
use jaim.Credentials.Simple.{simple, root_process, sandbox_user}
use jaim.Sandbox.Profile.{strict}
use jaim.Sandbox.Child.System.{Child, ChildSystem, without}
use jaim.Sandbox.Child.{Plan, Fate, runs, exits, child}
use jaim.Sandbox.Child.Confined.{IsSafe, child-IsSafe}

init_lem :
    (p : Text) (c d : Child)
    → ◌≡◌ {A = Result Text Child} (ok (record c { sandbox = some p })) (ok d)
    → d ≡ record c { sandbox = some p }
init_lem p c d e = cc

chdir_lem :
    (p : Text) (c d : Child)
    → ◌≡◌ {A = Result ℕ Child} (ok (record c { cwd = p })) (ok d)
    → d ≡ record c { cwd = p }
chdir_lem p c d e = cc

abbrev system : ChildSystem
system = record {
  kernel = simple;
  sandbox_init = λ p c. ok (record c { sandbox = some p });
  fd_bytes = λ c. 8;
  list_fds = λ n c. c.fds;
  close = λ fd c. record c { fds = without fd c.fds };
  chdir = λ p c. ok (record c { cwd = p });
  set_umask = λ m c. record c { umask = m };
  setenv = λ k v env. (k ++ (codes "=" ++ v)) ∷ env;
  execve = λ i c. text_eq i.file (codes "/bin/bash");
  execvp = λ i c. true;
  sandbox_init_lem = init_lem;
  close_lem = λ fd c. refl;
  chdir_lem = chdir_lem;
  set_umask_lem = λ m c. refl;
}

abbrev plan : Plan
plan = record {
  mode = strict;
  user = sandbox_user;
  profile = codes "(version 1)";
  script_path = [];
  cwd = codes "/h/w";
  old_umask = 18;
  shellcmd = codes "exec $0";
  command = codes "ls";
  arguments = [];
  environment = record { env_filter = codes "*_TOKEN" ∷ []; setenv = [] };
}

abbrev forked : Child
forked = record {
  ids = root_process;
  sandbox = none;
  fds = 0 ∷ 1 ∷ 2 ∷ 3 ∷ 7 ∷ [];
  cwd = codes "/h/w";
  umask = 0;
  environ = codes "HOME=/o" ∷ codes "A_TOKEN=x" ∷ [];
}

child-IsSafe_example : IsSafe plan (child system plan forked)
child-IsSafe_example = child-IsSafe system (λ c. (refl, λ fd h. h)) plan forked

-- The program runs, and the token is not passed on.
environment_of : Fate → List Text
environment_of (runs i c) = i.environment
environment_of (exits code) = []

token_kept_back : environment_of (child system plan forked) ≡ codes "HOME=/o" ∷ []
unfolding environment_of child jaim.Sandbox.Child.confine jaim.Credentials.enter_permanently
    jaim.Credentials.is_populated jaim.Credentials.sys jaim.Sandbox.Child.replace text_eq
    jaim.Sandbox.Child.made_image jaim.Sandbox.Child.file_of jaim.Config.Environment.make_env
    jaim.Sandbox.Child.set_script jaim.Sandbox.Child.scrub jaim.Sandbox.Child.close_loop
    jaim.Sandbox.Child.close_high jaim.Prelude.split_at jaim.Prelude.contains_byte jaim.Fs.Glob.glob
token_kept_back = refl
