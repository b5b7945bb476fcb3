-- ===== src/Overlay/CopyUp.antt =====
-- `copy_regular`, `copy_symlink` and `copy_up` of overlay.cc. The loop that streams a file's
-- contents through a buffer is one read and one write of all of it.
pub mod Lower
use jaim.Prelude.{
  ◌*◌, ℕ, zero, suc, ◌+◌, ◌/◌, ◌%◌, ltb, [], ◌∷◌, ◌++◌, Result, ok, err, if◌then◌else◌, Text, codes,
  to_string,
}
use jaim.Overlay.Posix.{
  FilePath, FileKind, regular, symbolic_link, directory, Stat, Errno, eperm, enoent, eexist, mkdir,
  unlink, create_excl, write_all, futimes, fchown, symlink, rename,
}
use jaim.Overlay.Resolve.{Overlay, Resolved, nowhere, whiteout, in_upper, in_lower, resolve}
use jaim.Overlay.Monad.{M, ◌>>=◌, ◌>>◌, pure, fail, look, attempt, sys, read}
use jaim.Overlay.Whiteout.{ensure_upper_parents}

-- `dst + suffix`, on the last component.
unfoldable pub extend : FilePath → Text → FilePath
extend [] s = []
extend (c ∷ []) s = (c ++ s) ∷ []
extend (c ∷ d ∷ p) s = c ∷ extend (d ∷ p) s

module _ (o : Overlay) (pid : ℕ) where
  open o use {os, upper, lower}

  suffix : ℕ → Text
  suffix n = codes ".jaim-cu." ++ to_string pid ++ codes "." ++ to_string n

  unfoldable pub temp_path : FilePath → ℕ → FilePath
  unfolding suffix extend
  temp_path dst n = extend dst (suffix n)

  retry : FilePath → M o FilePath → Result Errno (Unit {0}) → M o FilePath
  retry tmp next (ok u) = pure tmp
  retry tmp next (err eexist) = next
  retry tmp next (err e) = fail e

  -- The attempts that are left, after `n`.
  unfoldable pub temp_loop : FilePath → ℕ → ℕ → ℕ → M o FilePath
  unfolding temp_path retry
  temp_loop dst mode n zero = fail eexist
  temp_loop dst mode n (suc left) =
      attempt (create_excl (temp_path dst n) mode)
      >>= retry (temp_path dst n) (temp_loop dst mode (suc n) left)

  -- A failure behind the temporary file's creation: it is removed.
  unfoldable pub or_unlink : FilePath → Result Errno (Unit {0}) → M o (Unit {0})
  or_unlink tmp (ok u) = pure tt
  or_unlink tmp (err e) = attempt (unlink tmp) >>= λ r. fail e

  -- The loop's outcome, where `got` is what there is to read.
  write_out : FilePath → Result Errno Text → M o (Unit {0})
  unfolding or_unlink
  write_out tmp (ok text) = attempt (write_all tmp text) >>= or_unlink tmp
  write_out tmp (err e) = or_unlink tmp (err e)

  unfoldable pub stream : FilePath → FilePath → M o (Unit {0})
  unfolding write_out
  stream src tmp = look (λ st. os.contents st.fs src) >>= write_out tmp

  -- What follows once the temporary file is there.
  fill : FilePath → FilePath → Stat → FilePath → M o (Unit {0})
  unfolding stream or_unlink
  fill src dst src_sb tmp = do
    stream src tmp
    tv ← look (λ st. os.times st.fs src)
    attempt (futimes tmp (tv.0 * 1000000) (tv.1 * 1000000)) >>= λ r. pure tt
    attempt (fchown tmp src_sb.uid src_sb.gid) >>= λ r. pure tt
    attempt (rename tmp dst) >>= or_unlink tmp

  unfoldable pub copy_regular : FilePath → FilePath → Stat → M o (Unit {0})
  unfolding temp_loop fill
  copy_regular src dst src_sb = do
    read (λ fs. os.open_read fs src)
    tmp ← temp_loop dst src_sb.mode 0 100
    fill src dst src_sb tmp

  unfoldable pub copy_symlink : FilePath → FilePath → M o (Unit {0})
  copy_symlink src dst = do target ← read (λ fs. os.readlink fs src); sys (symlink target dst)

  unless_eexist : Result Errno (Unit {0}) → M o (Unit {0})
  unless_eexist (ok u) = pure tt
  unless_eexist (err eexist) = pure tt
  unless_eexist (err e) = fail e

  -- By the kind of the entry in lower.
  unfoldable pub copy_leaf : FilePath → FilePath → FileKind → Stat → M o (Unit {0})
  unfolding copy_regular copy_symlink unless_eexist
  copy_leaf src dst regular sb = copy_regular src dst sb
  copy_leaf src dst symbolic_link sb = copy_symlink src dst
  copy_leaf src dst directory sb = attempt (mkdir dst sb.mode) >>= unless_eexist
  copy_leaf src dst _ sb = fail eperm

  copy_resolved : FilePath → Resolved → M o (Unit {0})
  unfolding copy_leaf
  copy_resolved path nowhere = fail enoent
  copy_resolved path whiteout = fail enoent
  copy_resolved path (in_upper p sb) = pure tt
  copy_resolved path (in_lower p sb) =
      ensure_upper_parents o path >> copy_leaf (lower ++ path) (upper ++ path) sb.kind sb

  unfoldable pub copy_up : FilePath → M o (Unit {0})
  unfolding copy_resolved
  copy_up path = look (λ st. resolve o st.fs path) >>= copy_resolved path
