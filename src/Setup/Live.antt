-- ===== src/Setup/Live.antt =====
-- `setup_jaim_user` of setup_user.cc succeeds where its commands do.
use jaim.Prelude.{[], Text, ℕ, ◌≡◌, refl, Bool, true, Bool-cases, inl, inr, some, Result, ok, err}
use jaim.Prelude.Stateful.{◌>>=◌, ◌>>◌, feed}
use jaim.Setup.System.{
  DirectoryRecord, user_record, group_record, create, put, exited, last_launch, forked, Directory,
  has,
}
use jaim.Setup.Uids.{KeepsUids, IsFree, find_unused-IsFree, make_group-IsFree}
use jaim.Setup.Waits.{await-zero}
use jaim.Setup.{
  Dscl, Fault, not_created, dscl, or_else, recover, quietly, check, unused, find_unused,
  dscl_delete_record, set_group, set_user, make_group, make_user, create_account, setup_jaim_user,
}

-- A command that makes something exits with 0, and makes what it should.
abbrev pub Works : Directory → Type 0
Works d =
    (r : DirectoryRecord) (db : d.Db)
    → (last_launch (d.run (create r) db).0 ≡ forked (exited 0))
      × (has d (d.run (create r) db).1 r ≡ true)
      × ((key value : _) → last_launch (d.run (put r key value) db).0 ≡ forked (exited 0))

-- What is there stays.
abbrev pub Stays : Directory → Type 0
Stays d =
    (r s : DirectoryRecord) (key value : _) (db : d.Db)
    → has d db r ≡ true
    → (has d (d.run (create s) db).1 r ≡ true) × (has d (d.run (put s key value) db).1 r ≡ true)

module _ (d : Directory) (works : Works d) (stays : Stays d) where
  -- The code returns, and what was there stays.
  Runs : Dscl d (Unit {0}) → Type 0
  Runs m =
      (db : d.Db)
      → ((m db).0 ≡ ok tt) × ((r : DirectoryRecord) → has d db r ≡ true → has d (m db).1 r ≡ true)

  Runs-dscl-create : (s : DirectoryRecord) → Runs (dscl d (create s) s)
  unfolding Runs dscl
  Runs-dscl-create s db = (await-zero s _ (works s db).0, λ r there. (stays r s [] [] db there).0)

  Runs-dscl-put : (s : DirectoryRecord) (key value : Text) → Runs (dscl d (put s key value) s)
  unfolding Runs dscl
  Runs-dscl-put s key value db =
      (await-zero s _ ((works s db).2 key value), λ r there. (stays r s key value db there).1)

  feed_lem :
      {A : Type 0} (r : Result Fault (Unit {0}) × d.Db) (n : Dscl d A)
      → r.0 ≡ ok tt
      → feed r (λ u. n) ≡ n r.1
  feed_lem (ok u, db) n e = refl
  feed_lem (err f, db) n e = cc

  Runs-then : (m n : Dscl d (Unit {0})) → Runs m → Runs n → Runs (m >> n)
  unfolding Runs
  Runs-then m n h k db =
      rw (feed_lem (m db) n (h db).0)
        ((k (m db).1).0, λ r there. (k (m db).1).1 r ((h db).1 r there))

  Runs-or_else : (m cleanup : Dscl d (Unit {0})) → Runs m → Runs (or_else d m cleanup)
  unfolding Runs or_else
  Runs-or_else m cleanup h db = after (m db) (h db)
    where
      after :
          (r : Result Fault (Unit {0}) × d.Db)
          → (r.0 ≡ ok tt) × ((s : DirectoryRecord) → has d db s ≡ true → has d r.1 s ≡ true)
          → ((recover d cleanup r).0 ≡ ok tt)
            × ((s : DirectoryRecord) → has d db s ≡ true → has d (recover d cleanup r).1 s ≡ true)
      after (ok u, s) h = h
      after (err f, s) h = cc (h.0)

  ruleset running = (Runs-dscl-create, Runs-dscl-put, Runs-then, Runs-or_else)

  -- The part behind the creation of a record.
  Runs-set_group :
      (gid : ℕ) → Runs (or_else d (set_group d gid) (quietly d (dscl_delete_record d group_record)))
  unfolding set_group
  Runs-set_group gid = search running depth 12

  Runs-set_user :
      (uid gid : ℕ) (cleanup : Dscl d (Unit {0})) → Runs (or_else d (set_user d uid gid) cleanup)
  unfolding set_user
  Runs-set_user uid gid cleanup = search running depth 12

  Runs-make_group : (gid : ℕ) → Runs (make_group d gid)
  unfolding make_group
  Runs-make_group gid = Runs-then _ _ (Runs-dscl-create group_record) (Runs-set_group gid)

  Runs-make_user : (uid gid : ℕ) → Runs (make_user d uid gid)
  unfolding make_user
  Runs-make_user uid gid = Runs-then _ _ (Runs-dscl-create user_record) (Runs-set_user uid gid _)

  -- A record that is created is there when the next part has run.
  created :
      (s : DirectoryRecord) (n : Dscl d (Unit {0}))
      → Runs n
      → (db : d.Db) → has d ((dscl d (create s) s >> n) db).1 s ≡ true
  unfolding Runs dscl
  created s n h db =
      rw (feed_lem (dscl d (create s) s db) n (Runs-dscl-create s db).0)
        ((h (dscl d (create s) s db).1).1 s (works s db).1)

  has_group-make_group : (gid : ℕ) (db : d.Db) → d.has_group (make_group d gid db).1 ≡ true
  unfolding make_group
  has_group-make_group gid db = created group_record _ (Runs-set_group gid) db

  has_user-make_user : (uid gid : ℕ) (db : d.Db) → d.has_user (make_user d uid gid db).1 ≡ true
  unfolding make_user
  has_user-make_user uid gid db = created user_record _ (Runs-set_user uid gid _) db

  -- The code returns and the user exists.
  abbrev pub IsDone : Result Fault (Unit {0}) × d.Db → Type 0
  IsDone r = (r.0 ≡ ok tt) × (d.has_user r.1 ≡ true)

  unused-IsDone :
      (r : DirectoryRecord) (used : d.Db → ℕ → Bool) (u : ℕ) (f : ℕ → Dscl d (Unit {0})) (db : d.Db)
      → find_unused (used db) ≡ some u
      → IsDone (f u db)
      → IsDone ((unused d r used >>= f) db)
  unused-IsDone r used u f db e h = rw e h

  then-IsDone :
      (m n : Dscl d (Unit {0})) (db : d.Db)
      → (m db).0 ≡ ok tt
      → IsDone (n (m db).1)
      → IsDone ((m >> n) db)
  then-IsDone m n db e h = rw (feed_lem (m db) n e) h

  check-IsDone :
      (fault : Fault) (db : d.Db) → d.has_user db ≡ true → IsDone (check d (d.has_user db) fault db)
  check-IsDone fault db h = rw h (refl, h)

  group_found :
      (n : Dscl d (Unit {0})) (fault : Fault) (db : d.Db)
      → d.has_group db ≡ true
      → IsDone (n db)
      → IsDone (((λ s. check d (d.has_group s) fault s) >> n) db)
  group_found n fault db h k = rw h k

  module _ (keeps : KeepsUids d) where
    create_account-IsDone :
        (db : d.Db) → IsFree (d.uid_used db) → IsFree (d.gid_used db) → IsDone (create_account d db)
    unfolding create_account Runs
    create_account-IsDone db free_uid free_gid =
        let (gid, found_gid) = find_unused-IsFree (d.gid_used db) free_gid in
        let grouped = (make_group d gid db).1 in
        let (uid, found_uid) =
          find_unused-IsFree (d.uid_used grouped) (make_group-IsFree d keeps gid db free_uid) in
        let made = (make_user d uid gid grouped).1 in
        unused-IsDone group_record d.gid_used gid _ db found_gid (
          then-IsDone (make_group d gid) _ db (Runs-make_group gid db).0 (
            group_found _ (not_created group_record) grouped (has_group-make_group gid db) (
              unused-IsDone user_record d.uid_used uid _ grouped found_uid (
                then-IsDone (make_user d uid gid) _ grouped (Runs-make_user uid gid grouped).0 (
                  check-IsDone (not_created user_record) made
                    (has_user-make_user uid gid grouped))))))

    -- Where one of the ids 300 to 499 is used by no user and one by no group, and commands do what
    -- they are asked for (those that create and set exit with 0, what is created is found and stays,
    -- and those on the group change no user's id), root's `setup_jaim_user` returns, and the user
    -- exists.
    pub setup_jaim_user-IsDone :
        (db : d.Db)
        → IsFree (d.uid_used db)
        → IsFree (d.gid_used db)
        → IsDone (setup_jaim_user d 0 db)
    unfolding setup_jaim_user
    setup_jaim_user-IsDone db free_uid free_gid = elim (Bool-cases (d.has_user db)) [
      | inl there ↦ rw there (refl, there)
      | inr gone ↦ rw gone (create_account-IsDone db free_uid free_gid)
    ]
