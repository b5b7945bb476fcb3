-- ===== src/Overlay/Session/Lower.antt =====
-- No sequence of requests changes the lower layer.
use jaim.Prelude.{ℕ, List, [], ◌∷◌, Text, All}
use jaim.Overlay.Posix.{FilePath}
use jaim.Overlay.Resolve.{Overlay, Resolved, nowhere, whiteout, in_upper, in_lower}
use jaim.Overlay.Monad.{State}
use jaim.Overlay.Monad.Keeps.{
  Apart, NoSharing, NoLinks, SameLower, Intact, Intact-refl, Intact-trans,
}
use jaim.Overlay.Monad.Harmless.{Harmless, harmless}
use jaim.Overlay.Monad.Spares.{
  IsUpper, IsMarker, IsUpper-path, IsUpper-at, IsMarker-opaque, Spares-mkdir, Spares-unlink,
  Spares-rmdir, Spares-creat, Spares-symlink, Spares-link, Spares-rename, Spares-lchown,
  Spares-setxattr, Spares-removexattr,
}
use jaim.Overlay.Whiteout.Lower.{
  ensure_upper_parents-Harmless, clear_whiteout-Harmless, place_whiteout-Harmless,
}
use jaim.Overlay.CopyUp.Lower.{IsPlain, copy_up-Harmless}
use jaim.Overlay.Change.{
  resolved, make_room, hide_lower, mark_opaque, op_mkdir, remove_upper, op_unlink, purge,
  remove_upper_dir, op_rmdir, op_symlink, to_upper, replace_dir, op_rename, op_link, op_chown,
  op_setxattr, op_removexattr,
}
use jaim.Overlay.Session.{
  Request, make_dir, remove_file, remove_dir, make_symlink, move, make_link, set_owner,
  set_attribute, remove_attribute, serve, serve_all,
}

-- The paths of a request are below the root and have no marker's name, where that matters.
abbrev pub IsPlainRequest : Overlay → Request → Type 0
IsPlainRequest o (make_symlink target path) = IsPlain o path
IsPlainRequest o (move from to) = IsPlain o from × IsPlain o to
IsPlainRequest o (make_link from to) = IsPlain o from × IsPlain o to
IsPlainRequest o (set_owner path uid gid) = IsPlain o path
IsPlainRequest o (set_attribute path name value flags) = IsPlain o path
IsPlainRequest o (remove_attribute path name) = IsPlain o path
IsPlainRequest o _ = Unit {0}

module _ (o : Overlay) (apart : Apart o) where
  make_room-Harmless : (path : FilePath) → Harmless (make_room o path)
  unfolding make_room
  make_room-Harmless path =
      search (harmless, ensure_upper_parents-Harmless, clear_whiteout-Harmless, apart)

  hide_lower-Harmless : (path : FilePath) → Harmless (hide_lower o path)
  unfolding hide_lower
  hide_lower-Harmless path =
      search (harmless, ensure_upper_parents-Harmless, place_whiteout-Harmless, apart) depth 8

  mark_opaque-Harmless : (path : FilePath) → Harmless (mark_opaque o path)
  unfolding mark_opaque
  mark_opaque-Harmless path =
      search (harmless, Spares-creat, IsMarker-opaque, IsUpper-path, apart) depth 10

  op_mkdir-Harmless : (path : FilePath) (mode : ℕ) → Harmless (op_mkdir o path mode)
  unfolding op_mkdir
  op_mkdir-Harmless path mode =
      search (harmless, make_room-Harmless, mark_opaque-Harmless, Spares-mkdir, IsUpper-path, apart)
        depth 10

  remove_upper-Harmless : (path : FilePath) → Harmless (remove_upper o path)
  unfolding remove_upper
  remove_upper-Harmless path = search (harmless, Spares-unlink, IsUpper-path, apart) depth 10

  op_unlink-Harmless : (path : FilePath) → Harmless (op_unlink o path)
  unfolding op_unlink resolved
  op_unlink-Harmless path = search (harmless, remove_upper-Harmless, hide_lower-Harmless) depth 10

  purge-Harmless : (up : FilePath) (names : List Text) → IsUpper o up → Harmless (purge o up names)
  unfolding purge
  purge-Harmless up [] h = search harmless
  purge-Harmless up (nm ∷ names) h =
      search (harmless, purge-Harmless up names, Spares-unlink, IsUpper-at, apart) depth 10

  remove_upper_dir-Harmless : (up : FilePath) → IsUpper o up → Harmless (remove_upper_dir o up)
  unfolding remove_upper_dir
  remove_upper_dir-Harmless up h = search (harmless, purge-Harmless, Spares-rmdir, apart) depth 10

  op_rmdir-Harmless : (path : FilePath) → Harmless (op_rmdir o path)
  unfolding op_rmdir resolved
  op_rmdir-Harmless path =
      search (harmless, remove_upper_dir-Harmless, hide_lower-Harmless, IsUpper-path) depth 12

  op_symlink-Harmless :
      (target : Text) (path : FilePath) → IsPlain o path → Harmless (op_symlink o target path)
  unfolding op_symlink
  op_symlink-Harmless target path plain =
      search (harmless, make_room-Harmless, Spares-symlink, IsUpper-path, plain.unmarked, apart)
        depth 10

module _ (o : Overlay) (pid : ℕ) (apart : Apart o) where
  to_upper-Harmless :
      (path : FilePath) (r : Resolved) → IsPlain o path → Harmless (to_upper o pid path r)
  unfolding to_upper
  to_upper-Harmless path nowhere plain = search harmless
  to_upper-Harmless path whiteout plain = search harmless
  to_upper-Harmless path (in_upper p sb) plain = search harmless
  to_upper-Harmless path (in_lower p sb) plain = copy_up-Harmless o pid apart path plain

  replace_dir-Harmless : (p : FilePath) → IsUpper o p → Harmless (replace_dir o pid p)
  unfolding replace_dir
  replace_dir-Harmless p h = search (harmless, Spares-rmdir, apart) depth 10

  op_rename-Harmless :
      (from to : FilePath) → IsPlain o from → IsPlain o to → Harmless (op_rename o pid from to)
  unfolding op_rename
  op_rename-Harmless from to f t =
      search
        (
          harmless, to_upper-Harmless, make_room-Harmless, replace_dir-Harmless,
          hide_lower-Harmless, Spares-rename, IsUpper-path, t.unmarked, apart,
        )
        depth 14

  op_link-Harmless :
      (from to : FilePath) → IsPlain o from → IsPlain o to → Harmless (op_link o pid from to)
  unfolding op_link
  op_link-Harmless from to f t =
      search
        (
          harmless, copy_up-Harmless, make_room-Harmless, Spares-link, IsUpper-path, t.unmarked,
          apart,
        )
        depth 12

  serve-Harmless : (r : Request) → IsPlainRequest o r → Harmless (serve o pid r)
  unfolding serve op_chown op_setxattr op_removexattr
  serve-Harmless (make_dir path mode) h = op_mkdir-Harmless o apart path mode
  serve-Harmless (remove_file path) h = op_unlink-Harmless o apart path
  serve-Harmless (remove_dir path) h = op_rmdir-Harmless o apart path
  serve-Harmless (make_symlink target path) h = op_symlink-Harmless o apart target path h
  serve-Harmless (move from to) h = op_rename-Harmless from to h.0 h.1
  serve-Harmless (make_link from to) h = op_link-Harmless from to h.0 h.1
  serve-Harmless (set_owner path uid gid) h =
      search (harmless, copy_up-Harmless, Spares-lchown, IsUpper-path, apart) depth 10
  serve-Harmless (set_attribute path name value flags) h =
      search (harmless, copy_up-Harmless, Spares-setxattr, IsUpper-path, apart) depth 10
  serve-Harmless (remove_attribute path name) h =
      search (harmless, copy_up-Harmless, Spares-removexattr, IsUpper-path, apart) depth 10

  serve_all-Intact :
      (rs : List Request) (st : State o)
      → All (IsPlainRequest o) rs
      → NoSharing o st.fs
      → NoLinks o (IsMarker o) st.fs
      → Intact o (IsMarker o) st.fs (serve_all o pid rs st).fs
  unfolding serve_all
  serve_all-Intact [] st h n l = Intact-refl o (IsMarker o) st.fs n l
  serve_all-Intact (r ∷ rs) st (h, hs) n l =
      let first = (serve-Harmless r h).kept.keeps st n l in
      Intact-trans o (IsMarker o) first
        (serve_all-Intact rs (serve o pid r st).1 hs first.no_sharing first.no_links)

-- Whatever the requests and whichever of them fail, all that can be read of the lower layer stays
-- as it is, if neither layer lies within the other, no file of lower has a hard link in upper, no
-- marker in upper is a symbolic link, and the requests' paths are below the root and have no
-- marker's name.
pub serve_all-SameLower :
    (o : Overlay) (pid : ℕ) (rs : List Request) (st : State o)
    → Apart o
    → NoSharing o st.fs
    → NoLinks o (IsMarker o) st.fs
    → All (IsPlainRequest o) rs
    → SameLower o st.fs (serve_all o pid rs st).fs
serve_all-SameLower o pid rs st apart n l h = (serve_all-Intact o pid apart rs st h n l).same
