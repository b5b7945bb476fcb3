-- ===== src/Overlay/Posix.antt =====
-- What overlay.cc uses of the operating system, as an interface: the state of a file system, what
-- `lstat` and `readdir` read of it, the calls that change it, and what POSIX documents of them.
-- An absolute path is the list of its components. The overlay is handed paths that the kernel has
-- resolved, so no component but the last is a symbolic link.
use jaim.Prelude.{Bool, ℕ, List, ◌++◌, ◌≡◌, ◌⊎◌, Option, none, some, Result, ok, Text}

abbrev pub FilePath : Type 0
FilePath = List Text

pub data FileKind : Type 0 where
  regular directory symbolic_link char_device other_kind : FileKind

-- `struct stat` without its times, size and link count: the type and the permission bits of
-- `st_mode`, the owner, and the parts of `st_rdev`.
pub record Stat : Type 0 where
  pub kind : FileKind
  pub mode : ℕ
  pub uid : ℕ
  pub gid : ℕ
  pub major : ℕ
  pub minor : ℕ

pub data Errno : Type 0 where
  eperm enoent eacces eexist enotdir eisdir enotempty ebadf : Errno
  other_error : ℕ → Errno

-- The flags of `open` that change what it does.
pub record OpenFlags : Type 0 where
  pub wronly : Bool
  pub rdwr : Bool
  pub trunc : Bool
  pub append : Bool
  pub creat : Bool
  pub excl : Bool
  pub nofollow : Bool

-- The calls that change the file system. `creat` is `open(O_WRONLY | O_CREAT | O_TRUNC)` and
-- `close`; `create_excl` is `open(O_WRONLY | O_CREAT | O_EXCL | O_NOFOLLOW)`; `write_all` is a
-- loop of `write` that stops when all is written; `futimes` and `fchown` are given the path that
-- their descriptor was opened at; `open_file` is `open` for the kernel's client. Times are in
-- microseconds.
pub data Syscall : Type 0 where
  mkdir : FilePath → ℕ → Syscall
  unlink : FilePath → Syscall
  rmdir : FilePath → Syscall
  mknod_whiteout : FilePath → Syscall
  creat : FilePath → ℕ → Syscall
  create_excl : FilePath → ℕ → Syscall
  write_all : FilePath → Text → Syscall
  open_file : FilePath → OpenFlags → ℕ → Syscall
  chmod : FilePath → ℕ → Syscall
  lchown : FilePath → ℕ → ℕ → Syscall
  utimes : FilePath → ℕ → ℕ → Syscall
  futimes : FilePath → ℕ → ℕ → Syscall
  fchown : FilePath → ℕ → ℕ → Syscall
  truncate : FilePath → ℕ → Syscall
  setxattr : FilePath → Text → Text → ℕ → Syscall
  removexattr : FilePath → Text → Syscall
  symlink : Text → FilePath → Syscall
  link : FilePath → FilePath → Syscall
  rename : FilePath → FilePath → Syscall

-- `q` is `p` or lies below it.
abbrev pub Under : FilePath → FilePath → Type 0
Under p q = (r : FilePath) × (q ≡ p ++ r)

-- The paths whose file or entry a call may change.
abbrev pub Touches : Syscall → FilePath → Type 0
Touches (mkdir p m) q = q ≡ p
Touches (unlink p) q = q ≡ p
Touches (rmdir p) q = q ≡ p
Touches (mknod_whiteout p) q = q ≡ p
Touches (creat p m) q = q ≡ p
Touches (create_excl p m) q = q ≡ p
Touches (write_all p s) q = q ≡ p
Touches (open_file p f m) q = q ≡ p
Touches (chmod p m) q = q ≡ p
Touches (lchown p u g) q = q ≡ p
Touches (utimes p a m) q = q ≡ p
Touches (futimes p a m) q = q ≡ p
Touches (fchown p u g) q = q ≡ p
Touches (truncate p n) q = q ≡ p
Touches (setxattr p k v f) q = q ≡ p
Touches (removexattr p k) q = q ≡ p
Touches (symlink t p) q = q ≡ p
Touches (link a b) q = q ≡ b
Touches (rename a b) q = Under a q ⊎ Under b q

-- The paths at which a call follows a symbolic link.
abbrev pub Follows : Syscall → FilePath → Type 0
Follows (creat p m) q = q ≡ p
Follows (open_file p f m) q = q ≡ p
Follows (chmod p m) q = q ≡ p
Follows (utimes p a m) q = q ≡ p
Follows (truncate p n) q = q ≡ p
Follows _ q = ⊥

-- A kind that no call gives to an entry but those that make it.
abbrev pub IsOdd : FileKind → Type 0
IsOdd regular = ⊥
IsOdd directory = ⊥
IsOdd symbolic_link = Unit
IsOdd char_device = Unit
IsOdd other_kind = Unit

-- The path at which a call makes a symbolic link or a device.
abbrev pub MakesKind : Syscall → FileKind → FilePath → Type 0
MakesKind (symlink t p) symbolic_link q = q ≡ p
MakesKind (mknod_whiteout p) char_device q = q ≡ p
MakesKind _ _ q = ⊥

abbrev pub MakesLink : Syscall → FilePath → Type 0
MakesLink c q = MakesKind c symbolic_link q

-- A call puts what is at `p` to `q`.
abbrev pub Brings : Syscall → FilePath → FilePath → Type 0
Brings (link a b) p q = (p ≡ a) × (q ≡ b)
Brings (rename a b) p q = (r : FilePath) × (p ≡ a ++ r) × (q ≡ b ++ r)
Brings _ p q = ⊥

-- The paths whose files get a further or another name.
abbrev pub Names : Syscall → FilePath → Type 0
Names (link a b) p = p ≡ a
Names (rename a b) p = Under a p
Names _ p = ⊥

abbrev pub HasKind : FileKind → Option Stat → Type 0
HasKind k o = (sb : Stat) × (o ≡ some sb) × (sb.kind ≡ k)

pub record Posix : Type 1 where
  pub Fs : Type 0
  -- `none` is any failure.
  pub lstat : Fs → FilePath → Option Stat
  -- The names in a directory but "." and ".."; `none` if it cannot be opened.
  pub readdir : Fs → FilePath → Option (List Text)
  pub contents : Fs → FilePath → Result Errno Text
  pub readlink : Fs → FilePath → Result Errno Text
  -- `open` for reading, and whether `access` grants a mask.
  pub open_read : Fs → FilePath → Result Errno (Unit {0})
  pub access : Fs → FilePath → ℕ → Result Errno (Unit {0})
  -- `st_atime` and `st_mtime`, in seconds.
  pub times : Fs → FilePath → ℕ × ℕ
  pub getxattr : Fs → FilePath → Text → Result Errno Text
  pub listxattr : Fs → FilePath → Result Errno (List Text)
  -- Two paths that are hard links to one file.
  pub Alias : Fs → FilePath → FilePath → Type 0
  -- A call that fails changes nothing.
  pub perform : Syscall → Fs → Result Errno Fs
  -- A symbolic link, a device or another special file was one before, is made by the call, or is
  -- brought by it from where it was.
  pub kind-frame :
      (c : Syscall) (k : FileKind)
      → IsOdd k
      → (fs fs' : Fs) (q : FilePath) → perform c fs ≡ ok fs'
      → HasKind k (lstat fs' q)
      → HasKind k (lstat fs q)
        ⊎ (MakesKind c k q ⊎ ((p : FilePath) × HasKind k (lstat fs p) × Brings c p q))
  -- A call that follows no symbolic link changes nothing but the paths that it names and their hard links.
  pub lstat-frame :
      (c : Syscall) (fs fs' : Fs) (q : FilePath)
      → perform c fs ≡ ok fs'
      → ((p : FilePath) → Follows c p → ¬ (HasKind symbolic_link (lstat fs p)))
      → ¬ (Touches c q)
      → ((p : FilePath) → Touches c p → ¬ (Alias fs p q))
      → lstat fs' q ≡ lstat fs q
  pub contents-frame :
      (c : Syscall) (fs fs' : Fs) (q : FilePath)
      → perform c fs ≡ ok fs'
      → ((p : FilePath) → Follows c p → ¬ (HasKind symbolic_link (lstat fs p)))
      → ¬ (Touches c q)
      → ((p : FilePath) → Touches c p → ¬ (Alias fs p q))
      → contents fs' q ≡ contents fs q
  -- A path that is a hard link of an untouched path was one before, or has the file of one.
  pub alias-frame :
      (c : Syscall) (fs fs' : Fs) (p q : FilePath)
      → perform c fs ≡ ok fs'
      → ¬ (Touches c q)
      → Alias fs' p q
      → (p' : FilePath) × Alias fs p' q × ((p' ≡ p) ⊎ Names c p')
  -- What a call that succeeds has done.
  pub unlink-lstat :
      (p : FilePath) (fs fs' : Fs) → perform (unlink p) fs ≡ ok fs' → lstat fs' p ≡ none
  pub rmdir-lstat :
      (p : FilePath) (fs fs' : Fs) → perform (rmdir p) fs ≡ ok fs' → lstat fs' p ≡ none
  pub mkdir-lstat :
      (p : FilePath) (m : ℕ) (fs fs' : Fs)
      → perform (mkdir p m) fs ≡ ok fs'
      → HasKind directory (lstat fs' p)
  pub mknod-lstat :
      (p : FilePath) (fs fs' : Fs)
      → perform (mknod_whiteout p) fs ≡ ok fs'
      → (sb : Stat) × (lstat fs' p ≡ some sb)
        × (sb.kind ≡ char_device)
        × (sb.major ≡ 0)
        × (sb.minor ≡ 0)
  -- Where `open` would follow a link or open a device, there is none.
  pub creat-lstat :
      (p : FilePath) (m : ℕ) (fs fs' : Fs)
      → ((k : FileKind) → IsOdd k → ¬ (HasKind k (lstat fs p)))
      → perform (creat p m) fs ≡ ok fs'
      → HasKind regular (lstat fs' p)
