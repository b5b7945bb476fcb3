-- ===== src/Acl/Pair.antt =====
-- `add_allow_user` and `remove_user_entries` of acl.cc undo each other.
use jaim.Prelude.{
  ℕ, ◌==◌, Bool, true, false, not, ◌&&◌, if◌then◌else◌, List, [], ◌∷◌, ◌++◌, Result, ok, err, ◌≡◌,
  inl, inr, refl, ap, subst, ◌∙◌, Bool-cases, Text, append-nil,
}
use jaim.Prelude.Stateful.{pure, feed, ◌>>=◌, ◌>>◌, feed-cases}
use jaim.Acl.System.{
  gone, link, file, closed_directory, directory, list, null, Entry, AclSystem, Memory, init,
  set_tag_type, set_qualifier, get_permset, set_permset, get_flagset, set_flagset, create_entry,
  Answer, entries_of, Tree,
}
use jaim.Acl.Removing.{others-new, others-append, others, IsRemoved, remove_user_entries-IsRemoved}
use jaim.Acl.{
  AclAct, memory, enoent, get_failed, read_or_init, set_flags, new_entry, to_uuid, write_acl,
  do_add_allow_user, add_allow_user, path_is_dir, remove_user_entries, lift_set,
}

module _ (sys : AclSystem) where
  -- A call that works on a list in memory changes no file.
  memory_then :
      (m : Memory) (next : AclAct sys (Unit {0})) (fs after : sys.Files)
      → (memory sys m >> next) fs ≡ (ok tt, after)
      → next fs ≡ (ok tt, after)
  memory_then m next fs after e = elim (Bool-cases (sys.fails m)) [
    | inl failed ↦ cc (rw failed at e)
    | inr done ↦ rw done at e
  ]

  flags_then :
      (is_dir : Bool) (next : AclAct sys (Unit {0})) (fs after : sys.Files)
      → (set_flags sys is_dir >> next) fs ≡ (ok tt, after)
      → next fs ≡ (ok tt, after)
  flags_then false next fs after e = e
  flags_then true next fs after e = elim (Bool-cases (sys.fails get_flagset)) [
    | inl failed ↦ cc (rw failed at e)
    | inr done ↦ memory_then set_flagset next fs after (rw done at e)
  ]

  read_answer :
      (p : Text) (f : List Entry → AclAct sys (Unit {0})) (fs after : sys.Files) (a : Answer)
      → feed
          (elim a [
            | list l ↦ (ok l, fs)
            | null e ↦
                if not (e == enoent) && not (e == 0)
                then (err (get_failed p e), fs)
                else (memory sys init >> pure []) fs
          ])
          f
        ≡ (ok tt, after)
      → f (entries_of a) fs ≡ (ok tt, after)
  read_answer p f fs after (list l) e = e
  read_answer p f fs after (null n) e = elim (Bool-cases (not (n == enoent) && not (n == 0))) [
    | inl broken ↦ cc (rw broken at e)
    | inr empty ↦ elim (Bool-cases (sys.fails init)) [
      | inl failed ↦ cc (rw (empty, failed) at e)
      | inr done ↦ rw (empty, done) at e
    ]
  ]

  read_then :
      (p : Text) (f : List Entry → AclAct sys (Unit {0})) (fs after : sys.Files)
      → (read_or_init sys p >>= f) fs ≡ (ok tt, after)
      → f (entries_of (sys.get_file fs p)) fs ≡ (ok tt, after)
  unfolding read_or_init
  read_then p f fs after e = read_answer p f fs after (sys.get_file fs p) e

  written :
      (p : Text) (l : List Entry) (fs after : sys.Files)
      → write_acl sys p l fs ≡ (ok tt, after)
      → entries_of (sys.get_file after p) ≡ l
  unfolding write_acl
  written p l fs after e = by_result (sys.set_file p l fs) refl e
    where
      by_result :
          (r : Result ℕ sys.Files)
          → sys.set_file p l fs ≡ r
          → lift_set sys p fs r ≡ (ok tt, after)
          → entries_of (sys.get_file after p) ≡ l
      by_result (ok now) same e =
          subst (λ s. entries_of (sys.get_file s p) ≡ l) (ap (λ r. r.1) e)
            (sys.get_file-set_file p l fs now same)
      by_result (err n) same e = cc

  -- What the file's list is after an entry has been added.
  do_add_allow_user_lem :
      (p : Text) (uid target perms : ℕ) (is_dir : Bool) (fs after : sys.Files)
      → sys.uid_to_uuid uid ≡ ok target
      → do_add_allow_user sys p uid perms is_dir fs ≡ (ok tt, after)
      → entries_of (sys.get_file after p)
        ≡ entries_of (sys.get_file fs p) ++ (new_entry target perms is_dir ∷ [])
  unfolding do_add_allow_user to_uuid
  do_add_allow_user_lem p uid target perms is_dir fs after user e =
      let l = entries_of (sys.get_file fs p) in
      let created = memory_then (create_entry l) _ fs after (read_then p _ fs after e) in
      let tagged = memory_then set_tag_type _ fs after created in
      let qualified = memory_then set_qualifier _ fs after (rw user at tagged) in
      let got = memory_then get_permset _ fs after qualified in
      let set = memory_then set_permset _ fs after got in
      written p _ fs after (flags_then is_dir _ fs after set)

  looking :
      (p : Text) (tree : Tree) (fs s : sys.Files) (is_dir : Bool)
      → path_is_dir sys p tree fs ≡ (ok is_dir, s)
      → s ≡ fs
  looking p gone fs s is_dir e = cc
  looking p link fs s is_dir e = cc
  looking p file fs s is_dir e = cc
  looking p closed_directory fs s is_dir e = cc
  looking p (directory es) fs s is_dir e = cc

  add_allow_user_lem :
      (p : Text) (tree : Tree) (uid target perms : ℕ) (fs after : sys.Files)
      → sys.uid_to_uuid uid ≡ ok target
      → add_allow_user sys p tree uid perms fs ≡ (ok tt, after)
      → (is_dir : Bool) × (entries_of (sys.get_file after p)
          ≡ entries_of (sys.get_file fs p) ++ (new_entry target perms is_dir ∷ []))
  unfolding add_allow_user
  add_allow_user_lem p tree uid target perms fs after user e =
      let (is_dir, s, looked, added) = feed-cases (path_is_dir sys p tree fs) _ tt after e in
      (
        is_dir,
        subst
            (λ t.
              entries_of (sys.get_file after p)
              ≡ entries_of (sys.get_file t p) ++ (new_entry target perms is_dir ∷ []))
            (looking p tree fs s is_dir looked)
            (do_add_allow_user_lem p uid target perms is_dir s after user added),
      )

  -- Where both return, `add_allow_user` and then `remove_user_entries` for the same user leave the
  -- file's entries for others, in their order, and none for the user: the list from before, if it
  -- had none.
  pub remove_user_entries-add_allow_user :
      (p : Text) (tree : Tree) (uid target perms : ℕ) (fs mid after : sys.Files)
      → sys.uid_to_uuid uid ≡ ok target
      → add_allow_user sys p tree uid perms fs ≡ (ok tt, mid)
      → remove_user_entries sys p uid mid ≡ (ok tt, after)
      → entries_of (sys.get_file after p) ≡ others target (entries_of (sys.get_file fs p))
  remove_user_entries-add_allow_user p tree uid target perms fs mid after user add remove =
      let (is_dir, added) = add_allow_user_lem p tree uid target perms fs mid user add in
      let l = entries_of (sys.get_file fs p) in
      subst (IsRemoved sys p target mid) remove
        (remove_user_entries-IsRemoved sys p uid target mid user)
      ∙ ap (others target) added
      ∙ others-append target l _
      ∙ ap (λ m. others target l ++ m) (others-new target perms is_dir)
      ∙ append-nil _
