-- ===== src/Overlay/Read.antt =====
-- The operations of overlay.cc that change nothing: `op_getattr`, `op_access`, `op_readlink`,
-- `op_readdir`, `op_getxattr` and `op_listxattr`.
use jaim.Prelude.{
  ℕ, ◌-◌, Bool, ◌&&◌, ltb, List, [], ◌∷◌, ◌++◌, length, take, drop, any, Option, none, some, Result,
  ok, err, ◌>>=◌, if◌then◌else◌, Text, codes, text_eq, starts_with,
}
use jaim.Overlay.Posix.{FilePath, Stat, Errno, enotdir}
use jaim.Overlay.Resolve.{
  Overlay, resolve, at, wh_prefix, opaque_marker, is_dir, is_whiteout_dev, is_opaque_dir, holds,
  found,
}

-- A sidecar's name: the prefix and more.
unfoldable pub is_marker : Text → Bool
is_marker nm = ltb (length wh_prefix) (length nm) && starts_with wh_prefix nm

unfoldable pub member : Text → List Text → Bool
member nm names = any (text_eq nm) names

module _ (o : Overlay) where
  open o use {os, upper, lower}
  open os use {Fs, lstat, readdir}

  unfoldable pub op_getattr : Fs → FilePath → Result Errno Stat
  unfolding found
  op_getattr fs path = found (resolve o fs path) >>= λ r. ok r.1

  unfoldable pub op_access : Fs → FilePath → ℕ → Result Errno (Unit {0})
  unfolding found
  op_access fs path mask = found (resolve o fs path) >>= λ r. os.access fs r.0 mask

  -- The buffer has room for `size` bytes, at least one: the terminator.
  unfoldable pub op_readlink : Fs → FilePath → ℕ → Result Errno Text
  unfolding found
  op_readlink fs path size = do
    r ← found (resolve o fs path)
    target ← os.readlink fs r.0
    ok (take (size - 1) target)

  unfoldable pub op_getxattr : Fs → FilePath → Text → Result Errno Text
  unfolding found
  op_getxattr fs path name = found (resolve o fs path) >>= λ r. os.getxattr fs r.0 name

  unfoldable pub op_listxattr : Fs → FilePath → Result Errno (List Text)
  unfolding found
  op_listxattr fs path = found (resolve o fs path) >>= λ r. os.listxattr fs r.0

  -- The loop over the upper directory: the names that it emits, `seen`, and those that it hides,
  -- `whited`.
  unfoldable pub upper_loop : Fs → FilePath → List Text → List Text × List Text
  unfolding is_marker
  upper_loop fs up_dir [] = ([], [])
  upper_loop fs up_dir (nm ∷ names) =
      let (seen, whited) = upper_loop fs up_dir names in
      if text_eq nm opaque_marker
      then (seen, whited)
      else if is_marker nm
      then (seen, drop (length wh_prefix) nm ∷ whited)
      else if holds is_whiteout_dev (lstat fs (at up_dir nm))
      then (seen, nm ∷ whited)
      else (nm ∷ seen, whited)

  -- The loop over the lower directory.
  unfoldable pub lower_loop : List Text → List Text → List Text → List Text
  unfolding member
  lower_loop seen whited [] = []
  lower_loop seen whited (nm ∷ names) =
      let rest = lower_loop seen whited names in
      if member nm whited then rest else if member nm seen then rest else nm ∷ rest

  abbrev pub listing : Option (List Text) → List Text
  listing none = []
  listing (some names) = names

  unfoldable pub have_upper : Fs → FilePath → Bool
  have_upper fs up_dir = holds is_dir (lstat fs up_dir)

  unfoldable pub upper_part : Fs → FilePath → List Text × List Text
  unfolding have_upper upper_loop
  upper_part fs up_dir =
      if have_upper fs up_dir then upper_loop fs up_dir (listing (readdir fs up_dir)) else ([], [])

  unfoldable pub lower_part : Fs → FilePath → FilePath → List Text × List Text → List Text
  unfolding have_upper lower_loop is_opaque_dir
  lower_part fs up_dir lo_dir (seen, whited) =
      if have_upper fs up_dir && is_opaque_dir os fs up_dir
      then []
      else lower_loop seen whited (listing (readdir fs lo_dir))

  -- The names that are given to `filler` after "." and "..".
  unfoldable pub merged : Fs → FilePath → List Text
  unfolding upper_part lower_part
  merged fs path =
      let up = upper_part fs (upper ++ path) in
      up.0 ++ lower_part fs (upper ++ path) (lower ++ path) up

  unfoldable pub op_readdir : Fs → FilePath → Result Errno (List Text)
  unfolding found merged
  op_readdir fs path = do
    r ← found (resolve o fs path)
    if is_dir r.1 then ok (codes "." ∷ codes ".." ∷ merged fs path) else err enotdir
