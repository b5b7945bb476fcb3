-- ===== src/Overlay/Change.antt =====
-- The operations of overlay.cc that change the upper layer. Those that open a file return no
-- descriptor here: the kernel's client reads and writes by it.
use jaim.Prelude.{
  ◌%◌, ◌*◌, ◌+◌, ◌/◌, ℕ, Bool, true, false, not, ◌||◌, List, [], ◌∷◌, ◌++◌, Result, ok, err,
  if◌then◌else◌, Text, any, codes, text_eq,
}
use jaim.Overlay.Posix.{
  FilePath, Stat, Errno, enoent, enotdir, eisdir, enotempty, OpenFlags, mkdir, unlink, rmdir, creat,
  open_file, chmod, lchown, utimes, truncate, setxattr, removexattr, symlink, link, rename,
}
use jaim.Overlay.Resolve.{
  Overlay, Resolved, nowhere, whiteout, in_upper, in_lower, resolve, at, opaque_marker, is_dir,
  holds, is_some, found,
}
use jaim.Overlay.Monad.{M, ◌>>=◌, ◌>>◌, pure, fail, look, stat, attempt, sys, read}
use jaim.Overlay.Whiteout.{ensure_upper_parents, clear_whiteout, place_whiteout}
use jaim.Overlay.CopyUp.{copy_up}
use jaim.Overlay.Read.{listing, op_readdir}

-- `mode & 07777`.
abbrev permissions : ℕ → ℕ
permissions mode = mode % 0o10000

-- A call whose failure is ignored.
abbrev ignore : {o : Overlay} → Result Errno (Unit {0}) → M o (Unit {0})
ignore r = pure tt

module _ (o : Overlay) where
  open o use {os, upper, lower}

  unfoldable pub resolved : FilePath → M o (FilePath × Stat)
  unfolding found
  resolved path = read (λ fs. found (resolve o fs path))

  -- What the creating operations begin with.
  unfoldable pub make_room : FilePath → M o (Unit {0})
  make_room path = ensure_upper_parents o path >> clear_whiteout o path

  -- The whiteout that hides the entry in lower, if there is one.
  unfoldable pub hide_lower : FilePath → M o (Unit {0})
  hide_lower path = do
    sb ← stat (lower ++ path)
    if is_some sb then (ensure_upper_parents o path >> place_whiteout o path) else pure tt

  unfoldable pub mark_opaque : FilePath → M o (Unit {0})
  mark_opaque path = do
    sb ← stat (lower ++ path)
    if holds is_dir sb
        then (attempt (creat (at (upper ++ path) opaque_marker) 0o600) >>= ignore)
        else pure tt

  unfoldable pub op_mkdir : FilePath → ℕ → M o (Unit {0})
  unfolding make_room mark_opaque
  op_mkdir path mode = do
    make_room path
    sys (mkdir (upper ++ path) (permissions mode))
    mark_opaque path

  unfoldable pub remove_upper : FilePath → M o (Unit {0})
  remove_upper path = do
    sb ← stat (upper ++ path)
    if is_some sb then sys (unlink (upper ++ path)) else pure tt

  unfoldable pub op_unlink : FilePath → M o (Unit {0})
  unfolding resolved remove_upper hide_lower
  op_unlink path = do
    r ← resolved path
    if is_dir r.1 then fail eisdir else (remove_upper path >> hide_lower path)

  -- `check_filler`, over all names that are given to it.
  unfoldable pub nonempty : Result Errno (List Text) → Bool
  nonempty (ok names) = any (λ nm. not (text_eq nm (codes ".") || text_eq nm (codes ".."))) names
  nonempty (err e) = false

  -- The loop that removes what the upper directory still holds.
  unfoldable pub purge : FilePath → List Text → M o (Unit {0})
  purge up [] = pure tt
  purge up (nm ∷ names) = (attempt (unlink (at up nm)) >>= ignore) >> purge up names

  unfoldable pub remove_upper_dir : FilePath → M o (Unit {0})
  unfolding purge
  remove_upper_dir up = do
    sb ← stat up
    names ← look (λ st. os.readdir st.fs up)
    if is_some sb then (purge up (listing o names) >> sys (rmdir up)) else pure tt

  unfoldable pub op_rmdir : FilePath → M o (Unit {0})
  unfolding resolved nonempty remove_upper_dir hide_lower
  op_rmdir path = do
    r ← resolved path
    names ← look (λ st. op_readdir o st.fs path)
    if not (is_dir r.1)
        then fail enotdir
        else if nonempty names
        then fail enotempty
        else (remove_upper_dir (upper ++ path) >> hide_lower path)

  unfoldable pub op_symlink : Text → FilePath → M o (Unit {0})
  unfolding make_room
  op_symlink target path = make_room path >> sys (symlink target (upper ++ path))

module _ (o : Overlay) (pid : ℕ) where
  open o use {os, upper, lower}

  unfoldable pub replace_dir : FilePath → M o (Unit {0})
  replace_dir up_to = do
    sb ← stat up_to
    if holds is_dir sb then (attempt (rmdir up_to) >>= ignore) else pure tt

  unfoldable pub to_upper : FilePath → Resolved → M o (Unit {0})
  to_upper from nowhere = fail enoent
  to_upper from whiteout = fail enoent
  to_upper from (in_upper p sb) = pure tt
  to_upper from (in_lower p sb) = copy_up o pid from

  unfoldable pub op_rename : FilePath → FilePath → M o (Unit {0})
  unfolding to_upper make_room replace_dir hide_lower
  op_rename from to = do
    rf ← look (λ st. resolve o st.fs from)
    to_upper from rf
    make_room o to
    replace_dir (upper ++ to)
    sys (rename (upper ++ from) (upper ++ to))
    hide_lower o from

  unfoldable pub op_link : FilePath → FilePath → M o (Unit {0})
  unfolding make_room
  op_link from to = do copy_up o pid from; make_room o to; sys (link (upper ++ from) (upper ++ to))

  unfoldable pub op_chmod : FilePath → ℕ → M o (Unit {0})
  op_chmod path mode = copy_up o pid path >> sys (chmod (upper ++ path) (permissions mode))

  unfoldable pub op_chown : FilePath → ℕ → ℕ → M o (Unit {0})
  op_chown path uid gid = copy_up o pid path >> sys (lchown (upper ++ path) uid gid)

  unfoldable pub op_truncate : FilePath → ℕ → M o (Unit {0})
  op_truncate path size = copy_up o pid path >> sys (truncate (upper ++ path) size)

  -- `struct timespec` as the `struct timeval` that it becomes, in microseconds.
  abbrev microseconds : ℕ × ℕ → ℕ
  microseconds (sec, nsec) = sec * 1000000 + nsec / 1000

  unfoldable pub op_utimens : FilePath → ℕ × ℕ → ℕ × ℕ → M o (Unit {0})
  op_utimens path atime mtime =
      copy_up o pid path >> sys (utimes (upper ++ path) (microseconds atime) (microseconds mtime))

  unfoldable pub op_setxattr : FilePath → Text → Text → ℕ → M o (Unit {0})
  op_setxattr path name value flags =
      copy_up o pid path >> sys (setxattr (upper ++ path) name value flags)

  unfoldable pub op_removexattr : FilePath → Text → M o (Unit {0})
  op_removexattr path name = copy_up o pid path >> sys (removexattr (upper ++ path) name)

  abbrev pub wants_write : OpenFlags → Bool
  wants_write flags = flags.wronly || flags.rdwr || flags.trunc || flags.append

  -- `flags & ~O_NOFOLLOW`.
  abbrev following : OpenFlags → OpenFlags
  following flags = record {
    wronly = flags.wronly;
    rdwr = flags.rdwr;
    trunc = flags.trunc;
    append = flags.append;
    creat = flags.creat;
    excl = flags.excl;
    nofollow = false;
  }

  unfoldable pub op_open : FilePath → OpenFlags → M o (Unit {0})
  unfolding resolved
  op_open path flags =
      if wants_write flags
      then (copy_up o pid path >> sys (open_file (upper ++ path) (following flags) 0))
      else (resolved o path >>= λ r. read (λ fs. os.open_read fs r.0))

  -- `flags | O_CREAT`.
  abbrev creating : OpenFlags → OpenFlags
  creating flags = record {
    wronly = flags.wronly;
    rdwr = flags.rdwr;
    trunc = flags.trunc;
    append = flags.append;
    creat = true;
    excl = flags.excl;
    nofollow = flags.nofollow;
  }

  unfoldable pub op_create : FilePath → ℕ → OpenFlags → M o (Unit {0})
  unfolding make_room
  op_create path mode flags =
      make_room o path >> sys (open_file (upper ++ path) (creating flags) (permissions mode))
