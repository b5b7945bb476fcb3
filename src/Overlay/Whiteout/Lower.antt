-- ===== src/Overlay/Whiteout/Lower.antt =====
-- The helpers of overlay.cc that write to the upper layer change nothing in the lower one.
use jaim.Prelude.{
  Bool, true, false, Option, none, some, Result, ok, err, sym, append-nil, List, [], ◌∷◌, Text,
}
use jaim.Overlay.Posix.{
  FilePath, Stat, Errno, eperm, enoent, eacces, eexist, enotdir, eisdir, enotempty, ebadf,
  other_error,
}
use jaim.Overlay.Resolve.{Overlay, at}
use jaim.Overlay.Monad.Keeps.{Apart, Keeps-flag}
use jaim.Overlay.Monad.Harmless.{Harmless, harmless}
use jaim.Overlay.Monad.Spares.{
  IsUpper, IsMarker, IsUpper-path, IsUpper-at, IsMarker-sidecar, Spares-mkdir, Spares-unlink,
  Spares-rmdir, Spares-mknod_whiteout, Spares-creat,
}
use jaim.Overlay.Whiteout.{
  make_parent, ensure_parent, parents_loop, ensure_upper_parents, unless_enoent, unlink_quietly,
  clear_whiteout, remove_old, give_up_mknod, place_sidecar, after_mknod, place_marker,
  place_whiteout,
}

module _ (o : Overlay) where
  open o use {os, upper, lower}

  IsUpper-self : IsUpper o upper
  IsUpper-self = ([], sym (append-nil upper))

  unless_enoent-Harmless : (r : Result Errno (Unit {0})) → Harmless {o = o} (unless_enoent o r)
  unless_enoent-Harmless (ok u) = search harmless
  unless_enoent-Harmless (err enoent) = search harmless
  unless_enoent-Harmless (err e) = elim e [
    | enoent ↦ search harmless
    | eperm ↦ search harmless
    | eacces ↦ search harmless
    | eexist ↦ search harmless
    | enotdir ↦ search harmless
    | eisdir ↦ search harmless
    | enotempty ↦ search harmless
    | ebadf ↦ search harmless
    | other_error n ↦ search harmless
  ]

module _ (o : Overlay) (apart : Apart o) where
  open o use {os, upper, lower}

  make_parent-Harmless :
      (up lo : FilePath) (sb : Option Stat)
      → IsUpper o up
      → Harmless {o = o} (make_parent o up lo sb)
  unfolding make_parent
  make_parent-Harmless up lo (some d) h = search harmless
  make_parent-Harmless up lo none h = search (harmless, Spares-mkdir, apart)

  parents_loop-Harmless :
      (up lo : FilePath) (path : List Text)
      → IsUpper o up
      → Harmless {o = o} (parents_loop o up lo path)
  unfolding parents_loop ensure_parent
  parents_loop-Harmless up lo [] h = search harmless
  parents_loop-Harmless up lo (c ∷ []) h = search harmless
  parents_loop-Harmless up lo (c ∷ d ∷ path) h = search (
    harmless,
    make_parent-Harmless,
    IsUpper-at,
    parents_loop-Harmless (at up c) (at lo c) (d ∷ path),
  )

  pub ensure_upper_parents-Harmless :
      (path : FilePath) → Harmless {o = o} (ensure_upper_parents o path)
  unfolding ensure_upper_parents
  ensure_upper_parents-Harmless path = parents_loop-Harmless upper lower path (IsUpper-self o)

  unlink_quietly-Harmless : (p : FilePath) → IsUpper o p → Harmless {o = o} (unlink_quietly o p)
  unfolding unlink_quietly
  unlink_quietly-Harmless p h = search (harmless, Spares-unlink, unless_enoent-Harmless, apart)

  pub clear_whiteout-Harmless : (path : FilePath) → Harmless {o = o} (clear_whiteout o path)
  unfolding clear_whiteout
  clear_whiteout-Harmless path =
      search (harmless, unlink_quietly-Harmless, IsUpper-at, IsUpper-path) depth 12

  remove_old-Harmless :
      (p : FilePath) (sb : Option Stat) → IsUpper o p → Harmless {o = o} (remove_old o p sb)
  unfolding remove_old
  remove_old-Harmless p none h = search harmless
  remove_old-Harmless p (some sb) h = search (harmless, Spares-rmdir, Spares-unlink, apart)

  place_sidecar-Harmless : (p : FilePath) → IsMarker o p → Harmless {o = o} (place_sidecar o p)
  unfolding place_sidecar
  place_sidecar-Harmless p h = search (harmless, Spares-creat, apart)

  give_up_mknod-Harmless : Harmless {o = o} (give_up_mknod o)
  unfolding give_up_mknod
  give_up_mknod-Harmless = record { kept = Keeps-flag o (IsMarker o) false }

  after_mknod-Harmless :
      (p : FilePath) (r : Result Errno (Unit {0}))
      → IsMarker o p
      → Harmless {o = o} (after_mknod o p r)
  unfolding after_mknod
  after_mknod-Harmless p (ok u) h = search harmless
  after_mknod-Harmless p (err e) h =
      search (harmless, give_up_mknod-Harmless, place_sidecar-Harmless)

  place_marker-Harmless :
      (p q : FilePath) (b : Bool)
      → IsUpper o p
      → IsMarker o q
      → Harmless {o = o} (place_marker o p q b)
  unfolding place_marker
  place_marker-Harmless p q true h k =
      search (harmless, after_mknod-Harmless, Spares-mknod_whiteout, apart)
  place_marker-Harmless p q false h k = search place_sidecar-Harmless

  pub place_whiteout-Harmless : (path : FilePath) → Harmless {o = o} (place_whiteout o path)
  unfolding place_whiteout
  place_whiteout-Harmless path =
      search
        (
          harmless, remove_old-Harmless, place_marker-Harmless, IsUpper-at, IsUpper-path,
          IsMarker-sidecar,
        )
        depth 12
