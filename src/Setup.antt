-- ===== src/Setup.antt =====
-- The creation and the removal of the sandbox user, and the installation as setuid root, of
-- setup_user.cc.
pub mod System
pub mod Ids
pub mod Waits
pub mod Atomic
pub mod Removal
pub mod Uids
pub mod Live
mod Tests
use jaim.Prelude.{
  ℕ, zero, suc, ◌+◌, ◌-◌, ◌==◌, Bool, true, false, not, if◌then◌else◌, List, [], ◌∷◌, Option, none,
  some, Result, ok, err, Text, codes, to_string,
}
use jaim.Prelude.Stateful.{Act, ◌>>=◌, ◌>>◌, pure, throw}
use jaim.Setup.System.{
  DirectoryRecord, user_record, group_record, Command, create, delete, put, Wait, interrupted,
  wait_failed, exited, signaled, unexpected, Launch, no_fork, forked, Directory,
}

pub data Fault : Type 0 where
  requires_root : Text → Fault
  no_free_id not_created fork_failed : DirectoryRecord → Fault
  waitpid_failed killed_by bad_status exit_code : ℕ → Fault

abbrev pub scan_start : ℕ
scan_start = 300

abbrev pub scan_end : ℕ
scan_end = 500

-- The loops of `find_unused_uid` and `find_unused_gid`, with the number of ids that are left.
unfoldable pub scan : (ℕ → Bool) → ℕ → ℕ → Option ℕ
scan used u zero = none
scan used u (suc left) = let rest = scan used (u + 1) left in if used u then rest else some u

unfoldable pub find_unused : (ℕ → Bool) → Option ℕ
find_unused used = scan used scan_start (scan_end - scan_start)

-- The loop around `waitpid` in `run_cmd`, and what it makes of the status.
unfoldable pub wait_loop : Wait → Result Fault ℕ
wait_loop (interrupted later) = wait_loop later
wait_loop (wait_failed e) = err (waitpid_failed e)
wait_loop (exited n) = ok n
wait_loop (signaled n) = err (killed_by n)
wait_loop (unexpected n) = err (bad_status n)

abbrev pub await : DirectoryRecord → Launch → Result Fault ℕ
await r no_fork = err (fork_failed r)
await r (forked w) = wait_loop w

abbrev pub exit_zero : Result Fault ℕ → Result Fault (Unit {0})
exit_zero (err e) = err e
exit_zero (ok n) = if n == 0 then ok tt else err (exit_code n)

module _ (d : Directory) where
  abbrev pub Dscl : Type 0 → Type 0
  Dscl A = Act d.Db Fault A

  -- `dscl_set`, `dscl_create_record` and `dscl_delete_record`, by their commands.
  unfoldable pub dscl : Command → DirectoryRecord → Dscl (Unit {0})
  dscl c r db = (exit_zero (await r (d.run c db).0), (d.run c db).1)

  abbrev pub dscl_set : DirectoryRecord → Text → Text → Dscl (Unit {0})
  dscl_set r key value = dscl (put r key value) r

  abbrev pub dscl_create_record : DirectoryRecord → Dscl (Unit {0})
  dscl_create_record r = dscl (create r) r

  abbrev pub dscl_delete_record : DirectoryRecord → Dscl (Unit {0})
  dscl_delete_record r = dscl (delete r) r

  abbrev pub recover :
      Dscl (Unit {0}) → Result Fault (Unit {0}) × d.Db → Result Fault (Unit {0}) × d.Db
  recover cleanup (ok u, db) = (ok u, db)
  recover cleanup (err e, db) = (err e, (cleanup db).1)

  -- `try { m } catch (...) { try { cleanup } catch (...) {} throw; }`.
  unfoldable pub or_else : Dscl (Unit {0}) → Dscl (Unit {0}) → Dscl (Unit {0})
  or_else m cleanup db = recover cleanup (m db)

  -- `try { m } catch (...) {}`.
  unfoldable pub quietly : Dscl (Unit {0}) → Dscl (Unit {0})
  quietly m db = (ok tt, (m db).1)

  abbrev pub unused : DirectoryRecord → (d.Db → ℕ → Bool) → Dscl ℕ
  unused r used db =
      (elim (find_unused (used db)) [ none ↦ err (no_free_id r) | some u ↦ ok u ], db)

  abbrev pub check : Bool → Fault → Dscl (Unit {0})
  check b fault db = if b then (ok tt, db) else (err fault, db)

module _ (d : Directory) where
  -- The attributes of the group and of the user, in the order in which they are set.
  unfoldable pub set_group : ℕ → Dscl d (Unit {0})
  set_group gid = do
    dscl_set d group_record (codes "PrimaryGroupID") (to_string gid)
    dscl_set d group_record (codes "RealName") (codes "jaim Sandbox Group")
    dscl_set d group_record (codes "Password") (codes "*")

  unfoldable pub set_user : ℕ → ℕ → Dscl d (Unit {0})
  set_user uid gid = do
    dscl_set d user_record (codes "UniqueID") (to_string uid)
    dscl_set d user_record (codes "PrimaryGroupID") (to_string gid)
    dscl_set d user_record (codes "NFSHomeDirectory") (codes "/var/empty")
    dscl_set d user_record (codes "UserShell") (codes "/usr/bin/false")
    dscl_set d user_record (codes "RealName") (codes "jaim Sandbox User")
    dscl_set d user_record (codes "Password") (codes "*")
    dscl_set d user_record (codes "IsHidden") (codes "1")

  unfoldable pub make_group : ℕ → Dscl d (Unit {0})
  make_group gid = do
    dscl_create_record d group_record
    or_else d (set_group gid) (quietly d (dscl_delete_record d group_record))

  unfoldable pub make_user : ℕ → ℕ → Dscl d (Unit {0})
  make_user uid gid = do
    dscl_create_record d user_record
    or_else d (set_user uid gid) (do
      quietly d (dscl_delete_record d user_record)
      quietly d (dscl_delete_record d group_record))

  -- What is done where the account does not exist.
  unfoldable pub create_account : Dscl d (Unit {0})
  create_account = do
    gid ← unused d group_record d.gid_used
    make_group gid
    λ db. check d (d.has_group db) (not_created group_record) db
    uid ← unused d user_record d.uid_used
    make_user uid gid
    λ db. check d (d.has_user db) (not_created user_record) db

  -- `setup_jaim_user`, without what it prints.
  unfoldable pub setup_jaim_user : ℕ → Dscl d (Unit {0})
  setup_jaim_user euid db =
      if not (euid == 0)
      then (err (requires_root (codes "--setup-user")), db)
      else if d.has_user db
      then (ok tt, db)
      else create_account db

  abbrev pub remove_record : DirectoryRecord → Bool → Dscl d (Unit {0})
  remove_record r present db = if present then dscl_delete_record d r db else (ok tt, db)

  -- `remove_jaim_user`.
  unfoldable pub remove_jaim_user : ℕ → Dscl d (Unit {0})
  remove_jaim_user euid db =
      if not (euid == 0)
      then (err (requires_root (codes "--remove-user")), db)
      else ((λ db. remove_record user_record (d.has_user db) db)
            >> (λ db. remove_record group_record (d.has_group db) db))
          db
