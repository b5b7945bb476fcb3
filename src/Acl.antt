-- ===== src/Acl.antt =====
-- acl.cc: the access control entries that a grant adds to files and takes away from them.
pub mod System
pub mod Removing
pub mod Pair
pub mod Walk
pub mod Simple
mod Tests
use jaim.Prelude.{
  ℕ, zero, suc, ◌==◌, ◌%◌, ◌/◌, Bool, true, false, not, ◌&&◌, ◌||◌, if◌then◌else◌, List, [], ◌∷◌,
  ◌++◌, length, Option, none, some, Result, ok, err, Text, text_eq, codes,
}
use jaim.Prelude.Stateful.{Act, ◌>>=◌, ◌>>◌, pure, throw}
use jaim.Fs.Paths.{join}
use jaim.Acl.System.*

pub data Fault : Type 0 where
  lstat_failed : Text → Fault
  get_failed set_failed : Text → ℕ → Fault
  memory_failed : Memory → Fault
  no_uuid : ℕ → ℕ → Fault
  -- Not an outcome of the code, whose loop has no fuel.
  out_of_fuel : Fault

-- `mask & bit`, for the bits 1, 2 and 4 of a `PermMask`.
abbrev pub has_bit : ℕ → ℕ → Bool
has_bit mask bit = mask / bit % 2 == 1

abbrev when : Bool → List Permission → List Permission
when b l = if b then l else []

-- `add_perms`, to a set of permissions that is empty.
unfoldable pub add_perms : ℕ → Bool → List Permission
add_perms mask is_dir =
    when (has_bit mask 1) (read_data ∷ read_attributes ∷ read_extattributes ∷ read_security ∷ [])
    ++ (when (has_bit mask 2) (
          (write_data ∷ append_data ∷ write_attributes ∷ write_extattributes ∷ delete ∷ [])
          ++ when is_dir (delete_child ∷ []))
        ++ when (has_bit mask 4) (execute ∷ []))

-- `ENOENT`.
abbrev pub enoent : ℕ
enoent = 2

-- Whether the qualifier of an entry can be read and is the one that is looked for.
unfoldable pub is_of : ℕ → Entry → Bool
is_of target e = elim e.qualifier [ none ↦ false | some q ↦ q == target ]

-- The walk of `do_remove_user_entries` up to the first entry that it deletes.
unfoldable pub delete_first : ℕ → List Entry → Option (List Entry)
delete_first target [] = none
delete_first target (e ∷ l) =
    let later = delete_first target l in
    if is_of target e then some l else elim later [ none ↦ none | some r ↦ some (e ∷ r) ]

abbrev pub new_entry : ℕ → ℕ → Bool → Entry
new_entry uuid perms is_dir = record {
  allow = true;
  qualifier = some uuid;
  permissions = add_perms perms is_dir;
  inherit = if is_dir then file_inherit ∷ directory_inherit ∷ [] else [];
}

module _ (sys : AclSystem) where
  abbrev pub AclAct : Type 0 → Type 0
  AclAct A = Act sys.Files Fault A

  abbrev pub memory : Memory → AclAct (Unit {0})
  memory m fs = if sys.fails m then (err (memory_failed m), fs) else (ok tt, fs)

  abbrev pub lift_set : Text → sys.Files → Result ℕ sys.Files → Result Fault (Unit {0}) × sys.Files
  lift_set p fs (ok after) = (ok tt, after)
  lift_set p fs (err e) = (err (set_failed p e), fs)

  unfoldable pub write_acl : Text → List Entry → AclAct (Unit {0})
  write_acl p l fs = lift_set p fs (sys.set_file p l fs)

  abbrev pub lift_uuid : ℕ → Result ℕ ℕ → Result Fault ℕ
  lift_uuid uid (ok u) = ok u
  lift_uuid uid (err e) = err (no_uuid uid e)

  -- `uid_to_uuid`.
  unfoldable pub to_uuid : ℕ → AclAct ℕ
  to_uuid uid fs = (lift_uuid uid (sys.uid_to_uuid uid), fs)

  -- The list of a file, or an empty one that is made where the file has none.
  unfoldable pub read_or_init : Text → AclAct (List Entry)
  read_or_init p fs = elim (sys.get_file fs p) [
    | list l ↦ (ok l, fs)
    | null e ↦
        if not (e == enoent) && not (e == 0)
        then (err (get_failed p e), fs)
        else (memory init >> pure []) fs
  ]

  abbrev pub set_flags : Bool → AclAct (Unit {0})
  set_flags is_dir fs =
      if is_dir then (memory get_flagset >> memory set_flagset) fs else (ok tt, fs)

  unfoldable pub do_add_allow_user : Text → ℕ → ℕ → Bool → AclAct (Unit {0})
  do_add_allow_user p uid perms is_dir = do
    acl ← read_or_init p
    memory (create_entry acl)
    memory set_tag_type
    uuid ← to_uuid uid
    memory set_qualifier
    memory get_permset
    memory set_permset
    set_flags is_dir
    write_acl p (acl ++ (new_entry uuid perms is_dir ∷ []))

  abbrev pub delete_call : List Entry → Result Fault (Unit {0})
  delete_call l = if sys.fails (delete_entry l) then err (memory_failed (delete_entry l)) else ok tt

  abbrev pub proceed : {A B : Type 0} → Result Fault A → Result Fault B → Result Fault B
  proceed (ok a) r = r
  proceed (err e) r = err e

  -- The loop of `do_remove_user_entries`, which begins again behind each deletion: the list that it
  -- leaves, and whether it has changed.
  unfoldable pub sweep : ℕ → ℕ → List Entry → Bool → Result Fault (List Entry × Bool)
  sweep zero target l changed = err out_of_fuel
  sweep (suc fuel) target l changed = elim (delete_first target l) [
    | none ↦ ok (l, changed)
    | some r ↦ proceed (delete_call l) (sweep fuel target r true)
  ]

  abbrev pub write_back : Text → List Entry × Bool → AclAct (Unit {0})
  write_back p (l, changed) fs = if not changed then (ok tt, fs) else write_acl p l fs

  unfoldable pub do_remove_user_entries : Text → ℕ → AclAct (Unit {0})
  do_remove_user_entries p target fs = elim (sys.get_file fs p) [
    | null e ↦ if e == enoent || e == 0 then (ok tt, fs) else (err (get_failed p e), fs)
    | list l ↦ ((λ s. (sweep (suc (length l)) target l false, s)) >>= write_back p) fs
  ]

  -- `lstat`, which fails where there is nothing.
  abbrev pub path_is_dir : Text → Tree → AclAct Bool
  path_is_dir p gone fs = (err (lstat_failed p), fs)
  path_is_dir p (directory es) fs = (ok true, fs)
  path_is_dir p closed_directory fs = (ok true, fs)
  path_is_dir p link fs = (ok false, fs)
  path_is_dir p file fs = (ok false, fs)

  unfoldable pub add_allow_user : Text → Tree → ℕ → ℕ → AclAct (Unit {0})
  add_allow_user p tree uid perms = do
    is_dir ← path_is_dir p tree
    do_add_allow_user p uid perms is_dir

  unfoldable pub remove_user_entries : Text → ℕ → AclAct (Unit {0})
  remove_user_entries p uid = to_uuid uid >>= do_remove_user_entries p

  -- What is left after a call whose exception is caught and reported.
  unfoldable pub warn_only : AclAct (Unit {0}) → sys.Files → sys.Files
  warn_only m fs = (m fs).1

-- `is_symlink`, where `lstat` is needed only if the directory does not tell the type.
unfoldable pub is_symlink : EntryType → Tree → Bool
is_symlink lnk tree = true
is_symlink other_type tree = false
is_symlink unknown gone = true
is_symlink unknown link = true
is_symlink unknown tree = false

abbrev pub is_dots : Text → Bool
is_dots name = text_eq name (codes ".") || text_eq name (codes "..")

module _ (sys : AclSystem) (fn : Text → Bool → AclAct sys (Unit {0})) where
  unfoldable mutual
    pub walk_tree : Text → Tree → sys.Files → sys.Files
    walk_tree p gone fs = fs
    walk_tree p link fs = fs
    walk_tree p file fs = warn_only sys (fn p false) fs
    walk_tree p closed_directory fs = warn_only sys (fn p true) fs
    walk_tree p (directory es) fs = walk_entries p es (warn_only sys (fn p true) fs)

    pub walk_entries : Text → Entries → sys.Files → sys.Files
    walk_entries p nothing fs = fs
    walk_entries p (entry name type tree rest) fs =
        walk_entries p rest
          (if is_dots name || is_symlink type tree then fs else walk_tree (join p name) tree fs)

module _ (sys : AclSystem) where
  unfoldable pub apply_recursive : Text → Tree → ℕ → ℕ → sys.Files → sys.Files
  apply_recursive p tree uid perms =
      walk_tree sys (λ q is_dir. do_add_allow_user sys q uid perms is_dir) p tree

  abbrev pub with_uuid : Text → Tree → Result Fault ℕ → AclAct sys (Unit {0})
  with_uuid p tree (err e) fs = (err e, fs)
  with_uuid p tree (ok target) fs =
      (ok tt, walk_tree sys (λ q is_dir. do_remove_user_entries sys q target) p tree fs)

  unfoldable pub remove_recursive : Text → Tree → ℕ → AclAct sys (Unit {0})
  remove_recursive p tree uid fs = with_uuid p tree (lift_uuid sys uid (sys.uid_to_uuid uid)) fs
