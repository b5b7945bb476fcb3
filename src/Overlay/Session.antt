-- ===== src/Overlay/Session.antt =====
-- The requests of the kernel's client by which a sandboxed program changes the mount, and a whole
-- sequence of them. The requests that open, truncate or stamp a file or change its mode are not
-- among them: the calls that serve them follow a symbolic link in the upper layer.
pub mod Lower
use jaim.Prelude.{ℕ, List, [], ◌∷◌, Text}
use jaim.Overlay.Posix.{FilePath}
use jaim.Overlay.Resolve.{Overlay}
use jaim.Overlay.Monad.{State, M}
use jaim.Overlay.Change.{
  op_mkdir, op_unlink, op_rmdir, op_symlink, op_rename, op_link, op_chown, op_setxattr,
  op_removexattr,
}

pub data Request : Type 0 where
  make_dir : FilePath → ℕ → Request
  remove_file : FilePath → Request
  remove_dir : FilePath → Request
  make_symlink : Text → FilePath → Request
  move : FilePath → FilePath → Request
  make_link : FilePath → FilePath → Request
  set_owner : FilePath → ℕ → ℕ → Request
  set_attribute : FilePath → Text → Text → ℕ → Request
  remove_attribute : FilePath → Text → Request

module _ (o : Overlay) (pid : ℕ) where
  -- The table of operations.
  unfoldable pub serve : Request → M o (Unit {0})
  serve (make_dir path mode) = op_mkdir o path mode
  serve (remove_file path) = op_unlink o path
  serve (remove_dir path) = op_rmdir o path
  serve (make_symlink target path) = op_symlink o target path
  serve (move from to) = op_rename o pid from to
  serve (make_link from to) = op_link o pid from to
  serve (set_owner path uid gid) = op_chown o pid path uid gid
  serve (set_attribute path name value flags) = op_setxattr o pid path name value flags
  serve (remove_attribute path name) = op_removexattr o pid path name

  -- What is left after a sequence of requests, of which any may fail.
  unfoldable pub serve_all : List Request → State o → State o
  unfolding serve
  serve_all [] st = st
  serve_all (r ∷ rs) st = serve_all rs (serve r st).1
