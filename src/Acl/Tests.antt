-- ===== src/Acl/Tests.antt =====
-- Runs of the access control lists on files that are told apart by their paths.
use jaim.Prelude.{
  suc, Bool, true, false, ◌||◌, List, [], ◌∷◌, length, Result, ok, err, ◌≡◌, refl, arith, Text,
  codes, text_eq,
}
use jaim.Prelude.Stateful.{feed}
use jaim.Acl.System.{
  Entry, list, entries_of, Tree, link, file, directory, nothing, entry, lnk, other_type,
}
use jaim.Acl.{
  write_back, is_symlink, is_dots, write_acl, AclAct, Fault, new_entry, add_allow_user,
  remove_user_entries, remove_recursive, apply_recursive, walk_tree, do_remove_user_entries,
}
use jaim.Acl.Simple.{Files, store, simple, no_entries}
use jaim.Acl.Removing.{IsSwept, sweep-IsSwept, others, IsRemoved, remove_user_entries-IsRemoved}
use jaim.Acl.Pair.{remove_user_entries-add_allow_user}
use jaim.Acl.Walk.{at_file, below, first, IsClean, remove_recursive-IsClean}

-- A file `a`, and a link beside it, in a directory.
abbrev tree : Tree
tree = directory (entry (codes "a") other_type file (entry (codes "b") lnk link nothing))

abbrev granted : Files
granted = store (codes "/d/a") (new_entry 1300 3 false ∷ []) no_entries

is_granted : add_allow_user simple (codes "/d/a") file 300 3 no_entries ≡ (ok tt, granted)
unfolding add_allow_user jaim.Acl.do_add_allow_user jaim.Acl.read_or_init jaim.Acl.to_uuid
    jaim.Acl.write_acl
is_granted = refl

is_removed :
    remove_user_entries simple (codes "/d/a") 300 granted ≡ (ok tt, store (codes "/d/a") [] granted)
unfolding remove_user_entries jaim.Acl.to_uuid do_remove_user_entries jaim.Acl.sweep
    jaim.Acl.delete_first text_eq jaim.Acl.is_of jaim.Acl.write_acl
is_removed = refl

remove_user_entries-IsRemoved_example :
    IsRemoved simple
      (codes "/d/a")
      1300
      granted
      (remove_user_entries simple (codes "/d/a") 300 granted)
remove_user_entries-IsRemoved_example =
    remove_user_entries-IsRemoved simple (codes "/d/a") 300 1300 granted refl

remove_user_entries-add_allow_user_example :
    entries_of (list (store (codes "/d/a") [] granted (codes "/d/a")))
    ≡ others 1300 (entries_of (list (no_entries (codes "/d/a"))))
remove_user_entries-add_allow_user_example =
    remove_user_entries-add_allow_user simple (codes "/d/a") file 300 1300 3 no_entries granted
      (store (codes "/d/a") [] granted) refl is_granted is_removed

sweep_works :
    (q : Text) (l : List Entry) (fs : Files) (o : Result Fault (List Entry × Bool))
    → IsSwept simple 1300 l false o
    → (feed (o, fs) (write_back simple q)).0 ≡ ok tt
unfolding write_acl
sweep_works q l fs (ok (r, true)) h = refl
sweep_works q l fs (ok (r, false)) h = refl
sweep_works q l fs (err e) (m, failed, broken) = cc (broken)

works : (q : Text) (fs : Files) → (do_remove_user_entries simple q 1300 fs).0 ≡ ok tt
unfolding do_remove_user_entries
works q fs =
    sweep_works q (fs q) fs _
      (sweep-IsSwept simple (suc (length (fs q))) 1300 (fs q) false (omega arith))

not_skipped : (is_dots (codes "a") || is_symlink other_type file) ≡ false
unfolding text_eq is_symlink
not_skipped = refl

remove_recursive-IsClean_example :
    IsClean simple 1300 works
      (codes "/d/a")
      (remove_recursive simple (codes "/d") tree 300 granted).1
unfolding jaim.Fs.Paths.join jaim.Fs.Paths.has_filename
remove_recursive-IsClean_example =
    remove_recursive-IsClean simple 1300 works (codes "/d") tree 300 (codes "/d/a") false granted
      refl (below (first not_skipped (at_file (codes "/d/a"))))

abbrev removing : Text → Bool → AclAct simple (Unit {0})
removing q d = do_remove_user_entries simple q 1300

unlisted : IsClean simple 1300 works (codes "/x") no_entries
unfolding others
unlisted = refl
