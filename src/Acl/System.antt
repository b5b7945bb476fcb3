-- ===== src/Acl/System.antt =====
-- What acl.cc uses of macOS: the extended access control list of a file, the calls that read and
-- write it, and the tree of files below a directory.
use jaim.Prelude.{ℕ, Bool, List, [], ◌≡◌, ◌⊎◌, Option, Result, ok, Text}

pub data Permission : Type 0 where
  read_data read_attributes read_extattributes read_security : Permission
  write_data append_data write_attributes write_extattributes delete delete_child : Permission
  execute : Permission

pub data Inherit : Type 0 where
  file_inherit directory_inherit : Inherit

-- An entry of a list; none stands for a qualifier that cannot be read. A `uuid_t` is a number.
pub record Entry : Type 0 where
  pub allow : Bool
  pub qualifier : Option ℕ
  pub permissions : List Permission
  pub inherit : List Inherit

-- `acl_get_file`: the entries, or a null pointer and the value of errno.
pub data Answer : Type 0 where
  list : List Entry → Answer
  null : ℕ → Answer

-- A call that works on a list in memory.
pub data Memory : Type 0 where
  init set_tag_type set_qualifier get_permset set_permset get_flagset set_flagset : Memory
  create_entry : List Entry → Memory
  delete_entry : List Entry → Memory

abbrev pub entries_of : Answer → List Entry
entries_of (list l) = l
entries_of (null e) = []

pub record AclSystem : Type 1 where
  pub Files : Type 0
  pub get_file : Files → Text → Answer
  pub set_file : Text → List Entry → Files → Result ℕ Files
  pub fails : Memory → Bool
  pub uid_to_uuid : ℕ → Result ℕ ℕ
  -- The list that is written is read back; another path names another file, whose list stays, or
  -- the same one.
  pub get_file-set_file :
      (p : Text) (l : List Entry) (fs after : Files)
      → set_file p l fs ≡ ok after
      → entries_of (get_file after p) ≡ l
  pub get_file-other :
      (p q : Text) (l : List Entry) (fs after : Files)
      → set_file p l fs ≡ ok after
      → (get_file after q ≡ get_file fs q) ⊎ (entries_of (get_file after q) ≡ l)

-- `d_type` of a directory's entry.
pub data EntryType : Type 0 where
  lnk unknown other_type : EntryType

-- A file as `lstat` and `opendir` see it: neither, a symbolic link, a file, a directory that cannot
-- be opened, or a directory with its entries, of which each has a name and a type.
mutual
  pub data Tree : Type 0 where
    gone link file closed_directory : Tree
    directory : Entries → Tree

  pub data Entries : Type 0 where
    nothing : Entries
    entry : Text → EntryType → Tree → Entries → Entries
