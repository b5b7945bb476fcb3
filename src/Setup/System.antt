-- ===== src/Setup/System.antt =====
-- What setup_user.cc uses of macOS: the directory of users and groups, read by `getpwnam_r` and its
-- like and changed by the program dscl, and the file of the running program.
use jaim.Prelude.{ℕ, Bool, false, ◌≡◌, ◌≢◌, Text}

-- `/Users/_jaim` and `/Groups/_jaim`.
pub data DirectoryRecord : Type 0 where
  user_record group_record : DirectoryRecord

-- `dscl . -create <record>`, `dscl . -create <record> <key> <value>` and `dscl . -delete <record>`.
pub data Command : Type 0 where
  create delete : DirectoryRecord → Command
  put : DirectoryRecord → Text → Text → Command

abbrev pub record_of : Command → DirectoryRecord
record_of (create r) = r
record_of (delete r) = r
record_of (put r key value) = r

-- What `waitpid` returns, as often as it is called.
pub data Wait : Type 0 where
  interrupted : Wait → Wait
  wait_failed exited signaled unexpected : ℕ → Wait

-- `fork` fails, or the child runs the command.
pub data Launch : Type 0 where
  no_fork : Launch
  forked : Wait → Launch

-- The value that `waitpid` gives after its interruptions.
abbrev pub last_wait : Wait → Wait
last_wait (interrupted w) = last_wait w
last_wait w = w

abbrev pub last_launch : Launch → Launch
last_launch no_fork = no_fork
last_launch (forked w) = forked (last_wait w)

pub record Directory : Type 1 where
  pub Db : Type 0
  pub run : Command → Db → Launch × Db
  -- `PwEnt::get_nam(kJaimSystemUser)` and `GrEnt::get_nam(kJaimSystemUser)` are not empty.
  pub has_user : Db → Bool
  pub has_group : Db → Bool
  -- `PwEnt::get_id` and `GrEnt::get_id` are not empty.
  pub uid_used : Db → ℕ → Bool
  pub gid_used : Db → ℕ → Bool

abbrev pub has : (d : Directory) → d.Db → DirectoryRecord → Bool
has d db user_record = d.has_user db
has d db group_record = d.has_group db

-- A command on one record leaves the other one there or not there.
abbrev pub KeepsOther : Directory → Type 0
KeepsOther d =
    (c : Command) (r : DirectoryRecord) (db : d.Db)
    → r ≢ record_of c
    → has d (d.run c db).1 r ≡ has d db r

-- A deletion that exits with 0 has removed the record.
abbrev pub Deletes : Directory → Type 0
Deletes d =
    (r : DirectoryRecord) (db : d.Db)
    → last_launch (d.run (delete r) db).0 ≡ forked (exited 0)
    → has d (d.run (delete r) db).1 r ≡ false

-- A creation that does not exit with 0 has made no record.
abbrev pub FailsClean : Directory → Type 0
FailsClean d =
    (r : DirectoryRecord) (db : d.Db)
    → last_launch (d.run (create r) db).0 ≢ forked (exited 0)
    → has d (d.run (create r) db).1 r ≡ has d db r
