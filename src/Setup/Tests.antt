-- ===== src/Setup/Tests.antt =====
-- Runs of the set-up on a directory that holds whether the user and the group exist.
use jaim.Prelude.{ℕ, ◌≡◌, refl, arith, Bool, true, false, ok, ltb}
use jaim.Setup.System.{
  user_record, group_record, Command, create, delete, put, exited, forked, Directory, KeepsOther,
  Deletes, FailsClean,
}
use jaim.Setup.{find_unused, setup_jaim_user, remove_jaim_user, scan}
use jaim.Setup.Atomic.{IsSettled, setup_jaim_user-IsSettled}
use jaim.Setup.Uids.{KeepsUids}
use jaim.Setup.Live.{Works, Stays, IsDone, setup_jaim_user-IsDone}

record Accounts : Type 0 where
  user : Bool
  group : Bool

run : Command → Accounts → Accounts
run (create user_record) a = record a { user = true }
run (create group_record) a = record a { group = true }
run (delete user_record) a = record a { user = false }
run (delete group_record) a = record a { group = false }
run (put r key value) a = a

abbrev below : ℕ → ℕ → Bool
below n u = ltb u n

abbrev accounts : Directory
accounts = record {
  Db = Accounts;
  run = λ c a. (forked (exited 0), run c a);
  has_user = λ a. a.user;
  has_group = λ a. a.group;
  uid_used = λ a. below 450;
  gid_used = λ a. below 301;
}

keeps_other : KeepsOther accounts
unfolding run
keeps_other (create user_record) user_record a other = absurd (other refl)
keeps_other (create user_record) group_record a other = refl
keeps_other (create group_record) user_record a other = refl
keeps_other (create group_record) group_record a other = absurd (other refl)
keeps_other (delete user_record) user_record a other = absurd (other refl)
keeps_other (delete user_record) group_record a other = refl
keeps_other (delete group_record) user_record a other = refl
keeps_other (delete group_record) group_record a other = absurd (other refl)
keeps_other (put r key value) user_record a other = refl
keeps_other (put r key value) group_record a other = refl

deletes : Deletes accounts
unfolding run
deletes user_record a e = refl
deletes group_record a e = refl

fails_clean : FailsClean accounts
fails_clean r a e = absurd (e refl)

works : Works accounts
unfolding run
works user_record a = (refl, refl, λ key value. refl)
works group_record a = (refl, refl, λ key value. refl)

stays : Stays accounts
unfolding run
stays user_record user_record key value a there = (refl, there)
stays user_record group_record key value a there = (there, there)
stays group_record user_record key value a there = (there, there)
stays group_record group_record key value a there = (refl, there)

abbrev no_accounts : Accounts
no_accounts = record { user = false; group = false }

abbrev both_accounts : Accounts
both_accounts = record { user = true; group = true }

setup_jaim_user-IsSettled_example :
    IsSettled accounts keeps_other (setup_jaim_user accounts 0 no_accounts)
setup_jaim_user-IsSettled_example =
    setup_jaim_user-IsSettled accounts keeps_other deletes fails_clean (λ r a. refl) no_accounts

keeps_uids : KeepsUids accounts
keeps_uids c a u e = refl

setup_jaim_user-IsDone_example :
    IsDone accounts works stays (setup_jaim_user accounts 0 no_accounts)
setup_jaim_user-IsDone_example =
    setup_jaim_user-IsDone accounts works stays keeps_uids no_accounts
      (450, omega arith, omega arith, refl) (499, omega arith, omega arith, refl)

removed : remove_jaim_user accounts 0 both_accounts ≡ (ok tt, no_accounts)
unfolding remove_jaim_user jaim.Setup.dscl jaim.Setup.wait_loop run
removed = refl
