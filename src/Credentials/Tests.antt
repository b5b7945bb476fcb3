-- ===== src/Credentials/Tests.antt =====
-- Runs of the changes of credentials by a kernel that never refuses root.
use jaim.Prelude.{text_eq, ℕ, [], ◌∷◌, ◌≡◌, ◌≢◌, ◌≤◌, refl, arith, ok, if◌then◌else◌, ltb}
use jaim.Credentials.Simple.{simple, root_process, sandbox_user}
use jaim.Credentials.System.{Process}
use jaim.Credentials.{
  sys, make_effective, enter_permanently, get_effective, getgroups, groups_loop, try_groups,
  is_populated,
}
use jaim.Credentials.Door.{
  IsEntered, IsUser, here, enter_permanently-IsEntered, enter_permanently-Reach, dropped,
}
use jaim.Credentials.Effective.{make_effective-get_effective}
use jaim.Credentials.Database.{Answer, entry, too_small, find_entry}
use jaim.Credentials.Database.Grow.{IsFit, find_entry-IsFit}

entered : enter_permanently simple sandbox_user root_process ≡ (ok tt, dropped sandbox_user)
unfolding enter_permanently is_populated sys
entered = refl

enter_permanently-Reach_example : IsUser simple 300 (dropped sandbox_user)
enter_permanently-Reach_example =
    enter_permanently-Reach simple sandbox_user root_process (dropped sandbox_user)
      (dropped sandbox_user) (λ e. omega (arith, e)) entered here

enter_permanently-IsEntered_example :
    IsEntered simple sandbox_user root_process (enter_permanently simple sandbox_user root_process)
enter_permanently-IsEntered_example = enter_permanently-IsEntered simple sandbox_user root_process

abbrev user_for_now : Process
user_for_now = record root_process { euid = 300; egid = 301; groups = 301 ∷ [] }

made_effective : make_effective simple sandbox_user root_process ≡ (ok tt, user_for_now)
unfolding make_effective getgroups groups_loop try_groups text_eq sys
made_effective = refl

read_effective : get_effective simple user_for_now ≡ ok sandbox_user
unfolding get_effective getgroups groups_loop try_groups
read_effective = refl

make_effective-get_effective_example :
    (sandbox_user ≡ sandbox_user)
    × (501 ≡ root_process.ruid)
    × (0 ≡ root_process.suid)
    × (20 ≡ root_process.rgid)
    × (20 ≡ root_process.sgid)
make_effective-get_effective_example =
    make_effective-get_effective simple sandbox_user sandbox_user root_process user_for_now refl
      made_effective read_effective

-- An entry that needs 300 bytes.
long_entry : ℕ → Answer ℕ
long_entry size = if ltb size 300 then too_small else entry 7

long_entry_lem : (n : ℕ) → 300 ≤ n → long_entry n ≢ too_small
unfolding long_entry
long_entry_lem n h e = ground arith

find_entry-IsFit_example : IsFit long_entry 300 (find_entry long_entry 3)
find_entry-IsFit_example = find_entry-IsFit long_entry 300 long_entry_lem 2 (omega arith)
