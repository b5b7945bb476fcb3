-- ===== src/Setup/Atomic.antt =====
-- How `setup_jaim_user` of setup_user.cc ends, wherever it fails.
use jaim.Prelude.{
  ℕ, ◌≡◌, ◌≢◌, refl, sym, ◌∙◌, Bool, true, false, Bool-cases, inl, inr, Result, ok, err,
}
use jaim.Prelude.Stateful.{◌>>=◌, ◌>>◌, feed}
use jaim.Setup.System.{
  DirectoryRecord, user_record, group_record, Command, create, delete, record_of, exited,
  last_launch, forked, Directory, KeepsOther, Deletes, FailsClean,
}
use jaim.Setup.Waits.{await-zero}
use jaim.Setup.{
  Fault, not_created, await, exit_zero, dscl, dscl_delete_record, Dscl, recover, or_else, quietly,
  unused, check, set_group, set_user, make_group, make_user, create_account, setup_jaim_user,
}

err_differs : (f : Fault) → ◌≢◌ {A = Result Fault (Unit {0})} (err f) (ok tt)
err_differs f e = cc

module _ (d : Directory) (keeps_other : KeepsOther d) where
  -- The code leaves the user there or not there.
  abbrev pub KeepsUser : {A : Type 0} → Dscl d A → Type 0
  KeepsUser m = (db : d.Db) → d.has_user (m db).1 ≡ d.has_user db

  dscl-KeepsUser : (c : Command) → record_of c ≡ group_record → KeepsUser (dscl d c group_record)
  unfolding dscl
  dscl-KeepsUser c e db = keeps_other c user_record db (λ same. cc)

  feed-KeepsUser :
      {A B : Type 0} (m : Dscl d A) (f : A → Dscl d B)
      → KeepsUser m
      → ((a : A) → KeepsUser (f a))
      → KeepsUser (m >>= f)
  feed-KeepsUser m f h k db = after (m db) f k ∙ h db
    where
      after :
          {A B : Type 0} (r : Result Fault A × d.Db) (f : A → Dscl d B)
          → ((a : A) → KeepsUser (f a))
          → d.has_user (feed r f).1 ≡ d.has_user r.1
      after (ok a, db) f k = k a db
      after (err e, db) f k = refl

  or_else-KeepsUser :
      (m cleanup : Dscl d (Unit {0}))
      → KeepsUser m
      → KeepsUser cleanup
      → KeepsUser (or_else d m cleanup)
  unfolding or_else
  or_else-KeepsUser m cleanup h k db = after (m db) ∙ h db
    where
      after :
          (r : Result Fault (Unit {0}) × d.Db) → d.has_user (recover d cleanup r).1 ≡ d.has_user r.1
      after (ok u, db) = refl
      after (err e, db) = k db

  quietly-KeepsUser : (m : Dscl d (Unit {0})) → KeepsUser m → KeepsUser (quietly d m)
  unfolding quietly
  quietly-KeepsUser m h db = h db

  ruleset keeping = (feed-KeepsUser, or_else-KeepsUser, quietly-KeepsUser, dscl-KeepsUser)

  make_group-KeepsUser : (gid : ℕ) → KeepsUser (make_group d gid)
  unfolding make_group set_group
  make_group-KeepsUser gid = search keeping depth 12

  -- The user exists where the code returns, and does not where it throws.
  abbrev pub IsSettled : {A : Type 0} → Result Fault A × d.Db → Type 0
  IsSettled (ok a, db) = d.has_user db ≡ true
  IsSettled (err e, db) = d.has_user db ≡ false

  -- Where the code throws, the user does not exist.
  abbrev IsClean : {A : Type 0} → Result Fault A × d.Db → Type 0
  IsClean (ok a, db) = Unit {0}
  IsClean (err e, db) = d.has_user db ≡ false

  Settles : {A : Type 0} → Dscl d A → Type 0
  Settles m = (db : d.Db) → d.has_user db ≡ false → IsSettled (m db)

  Settles-keep :
      {A B : Type 0} (m : Dscl d A) (f : A → Dscl d B)
      → KeepsUser m
      → ((a : A) (db : d.Db) → d.has_user db ≡ false → IsSettled (f a db))
      → (db : d.Db) → d.has_user db ≡ false
      → IsSettled ((m >>= f) db)
  Settles-keep m f h k db no_user = after (m db) (h db ∙ no_user)
    where
      after : (r : Result Fault _ × d.Db) → d.has_user r.1 ≡ false → IsSettled (feed r f)
      after (ok a, db) absent = k a db absent
      after (err e, db) absent = absent

  check-KeepsUser : (b : d.Db → Bool) (fault : Fault) → KeepsUser (λ db. check d (b db) fault db)
  check-KeepsUser b fault db = after (b db)
    where
      after : (found : Bool) → d.has_user (check d found fault db).1 ≡ d.has_user db
      after true = refl
      after false = refl

  check-IsSettled : (fault : Fault) (db : d.Db) → IsSettled (check d (d.has_user db) fault db)
  check-IsSettled fault db = elim (Bool-cases (d.has_user db)) [
    | inl there ↦ rw there there
    | inr gone ↦ rw gone gone
  ]

  feed-IsSettled :
      {A B : Type 0} (r : Result Fault A × d.Db) (f : A → Dscl d B)
      → IsClean r
      → ((a : A) (db : d.Db) → IsSettled (f a db))
      → IsSettled (feed r f)
  feed-IsSettled (ok a, db) f clean k = k a db
  feed-IsSettled (err e, db) f clean k = clean

  module _ (deletes : Deletes d) (fails_clean : FailsClean d)
      (can_delete : (r : DirectoryRecord) (db : d.Db)
        → last_launch (d.run (delete r) db).0 ≡ forked (exited 0)) where
    delete_user :
        (db : d.Db) → d.has_user (quietly d (dscl_delete_record d user_record) db).1 ≡ false
    unfolding quietly dscl
    delete_user db = deletes user_record db (can_delete user_record db)

    undone :
        (db : d.Db)
        → d.has_user
            ((quietly d (dscl_delete_record d user_record)
                >> quietly d (dscl_delete_record d group_record))
              db).1
          ≡ false
    unfolding quietly
    undone db =
        quietly-KeepsUser (dscl_delete_record d group_record)
          (dscl-KeepsUser (delete group_record) refl)
          (quietly d (dscl_delete_record d user_record) db).1
        ∙ delete_user db

    or_else-IsClean :
        (m cleanup : Dscl d (Unit {0}))
        → ((db : d.Db) → d.has_user (cleanup db).1 ≡ false)
        → (db : d.Db) → IsClean (or_else d m cleanup db)
    unfolding or_else
    or_else-IsClean m cleanup h db = after (m db)
      where
        after : (r : Result Fault (Unit {0}) × d.Db) → IsClean (recover d cleanup r)
        after (ok u, db) = tt
        after (err e, db) = h db

    created-IsClean :
        (next : Dscl d (Unit {0})) (r : Result Fault (Unit {0})) (db : d.Db)
        → exit_zero (await user_record (d.run (create user_record) db).0) ≡ r
        → d.has_user db ≡ false
        → ((after : d.Db) → IsClean (next after))
        → IsClean (feed (r, (d.run (create user_record) db).1) (λ u. next))
    created-IsClean next (ok u) db e no_user h = h _
    created-IsClean next (err f) db e no_user h =
        fails_clean user_record db (λ zero. err_differs f (sym e ∙ await-zero user_record _ zero))
        ∙ no_user

    make_user-IsClean :
        (uid gid : ℕ) (db : d.Db) → d.has_user db ≡ false → IsClean (make_user d uid gid db)
    unfolding make_user dscl
    make_user-IsClean uid gid db no_user =
        created-IsClean _ _ db refl no_user (or_else-IsClean (set_user d uid gid) _ undone)

    create_account-IsSettled : Settles (create_account d)
    unfolding Settles create_account
    create_account-IsSettled =
        Settles-keep (unused d group_record d.gid_used) _ (λ db. refl)
          (λ gid. Settles-keep (make_group d gid) _ (make_group-KeepsUser gid) (λ u.
            Settles-keep (λ db. check d (d.has_group db) (not_created group_record) db) _
              (check-KeepsUser d.has_group (not_created group_record))
              (λ v.
                Settles-keep (unused d user_record d.uid_used) _ (λ db. refl)
                  (λ uid db no_user.
                    feed-IsSettled (make_user d uid gid db) _ (make_user-IsClean uid gid db no_user)
                      (λ w. check-IsSettled (not_created user_record))))))

    -- `setup_jaim_user`, run as root, creates the user or leaves none: where it returns, the user
    -- exists, and where it throws, at whatever command, it does not. Commands on the group's record
    -- leave the user's there or not there, and the other way round; a creation that fails makes no
    -- record, and deletions exit with 0 and remove theirs.
    pub setup_jaim_user-IsSettled : (db : d.Db) → IsSettled (setup_jaim_user d 0 db)
    unfolding setup_jaim_user Settles
    setup_jaim_user-IsSettled db = elim (Bool-cases (d.has_user db)) [
      | inl there ↦ rw there there
      | inr gone ↦ rw gone (create_account-IsSettled db gone)
    ]
