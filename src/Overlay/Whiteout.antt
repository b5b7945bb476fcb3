-- ===== src/Overlay/Whiteout.antt =====
-- The write side of whiteouts in overlay.cc: `split`, `ensure_upper_parents`, `clear_whiteout` and
-- `place_whiteout`.
pub mod Lower
pub mod Steady
use jaim.Prelude.{
  ℕ, Bool, true, false, not, ◌&&◌, ◌||◌, List, [], ◌∷◌, ◌++◌, Option, none, some, Result, ok, err,
  if◌then◌else◌, Text,
}
use jaim.Overlay.Posix.{
  FilePath, Stat, Errno, eperm, enoent, eacces, enotdir, Syscall, mkdir, unlink, rmdir,
  mknod_whiteout, creat,
}
use jaim.Overlay.Resolve.{Overlay, wh_prefix, at, is_dir, is_whiteout_dev, holds, is_some}
use jaim.Overlay.Monad.{State, M, ◌>>=◌, ◌>>◌, pure, fail, look, stat, attempt, sys}

-- `split`: the path of the parent, and the name.
unfoldable pub split : FilePath → FilePath × Text
split [] = ([], [])
split (c ∷ []) = ([], c)
split (c ∷ d ∷ p) = let (parent, name) = split (d ∷ p) in (c ∷ parent, name)

module _ (o : Overlay) where
  open o use {os, upper, lower}

  -- `lsb.st_mode & 07777` of the directory in lower, or 0755.
  parent_mode : Option Stat → ℕ
  parent_mode none = 0o755
  parent_mode (some sb) = if is_dir sb then sb.mode else 0o755

  -- One directory of the walk, where `sb` is its status in upper.
  make_parent : FilePath → FilePath → Option Stat → M o (Unit {0})
  unfolding parent_mode
  make_parent up lo (some d) = if is_dir d then pure tt else fail enotdir
  make_parent up lo none = stat lo >>= λ lsb. sys (mkdir up (parent_mode lsb))

  ensure_parent : FilePath → FilePath → M o (Unit {0})
  unfolding make_parent
  ensure_parent up lo = stat up >>= make_parent up lo

  -- The loop of `ensure_upper_parents`, at the components that are left; the last is the leaf.
  parents_loop : FilePath → FilePath → List Text → M o (Unit {0})
  unfolding ensure_parent
  parents_loop up lo [] = pure tt
  parents_loop up lo (leaf ∷ []) = pure tt
  parents_loop up lo (comp ∷ next ∷ rest) = do
    ensure_parent (at up comp) (at lo comp)
    parents_loop (at up comp) (at lo comp) (next ∷ rest)

  unfoldable pub ensure_upper_parents : FilePath → M o (Unit {0})
  unfolding parents_loop
  ensure_upper_parents path = parents_loop upper lower path

  abbrev pub unless_enoent : Result Errno (Unit {0}) → M o (Unit {0})
  unless_enoent (ok u) = pure tt
  unless_enoent (err enoent) = pure tt
  unless_enoent (err e) = fail e

  -- `if (::unlink(p) != 0 && errno != ENOENT) return -errno;`
  unlink_quietly : FilePath → M o (Unit {0})
  unlink_quietly p = attempt (unlink p) >>= unless_enoent

  unfoldable pub clear_whiteout : FilePath → M o (Unit {0})
  unfolding unlink_quietly split is_whiteout_dev
  clear_whiteout path =
      let (parent, name) = split path in
      let up_full = at (upper ++ parent) name in
      let sidecar = at (upper ++ parent) (wh_prefix ++ name) in
      do
        sb ← stat up_full
        if holds is_whiteout_dev sb then unlink_quietly up_full else pure tt
        sc ← stat sidecar
        if is_some sc then unlink_quietly sidecar else pure tt

  -- What stands at the leaf is removed first.
  unfoldable pub remove_old : FilePath → Option Stat → M o (Unit {0})
  remove_old p none = pure tt
  remove_old p (some sb) = if is_dir sb then sys (rmdir p) else sys (unlink p)

  abbrev pub is_denied : Errno → Bool
  is_denied eperm = true
  is_denied eacces = true
  is_denied _ = false

  unfoldable pub give_up_mknod : M o (Unit {0})
  give_up_mknod st = (ok tt, record { fs = st.fs; can_mknod_whiteout = false })

  unfoldable pub place_sidecar : FilePath → M o (Unit {0})
  place_sidecar sidecar = sys (creat sidecar 0o600)

  unfoldable pub after_mknod : FilePath → Result Errno (Unit {0}) → M o (Unit {0})
  unfolding give_up_mknod place_sidecar
  after_mknod sidecar (ok u) = pure tt
  after_mknod sidecar (err e) =
      if is_denied e then (give_up_mknod >> place_sidecar sidecar) else fail e

  unfoldable pub place_marker : FilePath → FilePath → Bool → M o (Unit {0})
  unfolding after_mknod
  place_marker up_full sidecar true = attempt (mknod_whiteout up_full) >>= after_mknod sidecar
  place_marker up_full sidecar false = place_sidecar sidecar

  unfoldable pub place_whiteout : FilePath → M o (Unit {0})
  unfolding remove_old place_marker split
  place_whiteout path =
      let (parent, name) = split path in
      let up_full = at (upper ++ parent) name in
      let sidecar = at (upper ++ parent) (wh_prefix ++ name) in
      do
        sb ← stat up_full
        remove_old up_full sb
        can_mknod ← look (λ st. st.can_mknod_whiteout)
        place_marker up_full sidecar can_mknod
