-- ===== src/Overlay/Whiteout/Steady.antt =====
-- What overlay.cc does before it places a whiteout makes no symbolic link and no special file.
use jaim.Prelude.{Option, none, some, List, [], ◌∷◌, ◌++◌, Text}
use jaim.Overlay.Posix.{FilePath, Stat, mkdir, unlink, rmdir}
use jaim.Overlay.Resolve.{Overlay, at, is_dir, is_some}
use jaim.Overlay.Monad.{sys}
use jaim.Overlay.Monad.Steady.{
  Steady, Steady-pure, Steady-fail, Steady-stat, Steady-look, Steady-bind, Steady-then, Steady-if,
  Steady-attempt, Steady-sys,
}
use jaim.Overlay.Whiteout.{
  parent_mode, make_parent, ensure_parent, parents_loop, ensure_upper_parents, remove_old,
}
use jaim.Overlay.Read.{listing}
use jaim.Overlay.Change.{remove_upper, purge, remove_upper_dir}

module _ {o : Overlay} where
  open o use {os, upper, lower}

  Steady-unlink : (p : FilePath) → Steady {o = o} (sys (unlink p))
  Steady-unlink p = Steady-sys (unlink p) ((λ k q h. h), (λ q r h. h))

  Steady-rmdir : (p : FilePath) → Steady {o = o} (sys (rmdir p))
  Steady-rmdir p = Steady-sys (rmdir p) ((λ k q h. h), (λ q r h. h))

  make_parent-Steady : (up lo : FilePath) (sb : Option Stat) → Steady (make_parent o up lo sb)
  unfolding make_parent
  make_parent-Steady up lo (some d) = Steady-if (is_dir d) Steady-pure Steady-fail
  make_parent-Steady up lo none =
      Steady-bind (Steady-stat lo)
        (λ lsb. Steady-sys (mkdir up (parent_mode o lsb)) ((λ k q h. h), (λ q r h. h)))

  parents_loop-Steady : (up lo : FilePath) (path : List Text) → Steady (parents_loop o up lo path)
  unfolding parents_loop ensure_parent
  parents_loop-Steady up lo [] = Steady-pure
  parents_loop-Steady up lo (c ∷ []) = Steady-pure
  parents_loop-Steady up lo (c ∷ d ∷ path) =
      Steady-then
        (Steady-bind (Steady-stat (at up c)) (λ sb. make_parent-Steady (at up c) (at lo c) sb))
        (parents_loop-Steady (at up c) (at lo c) (d ∷ path))

  pub ensure_upper_parents-Steady : (path : FilePath) → Steady (ensure_upper_parents o path)
  unfolding ensure_upper_parents
  ensure_upper_parents-Steady path = parents_loop-Steady upper lower path

  pub remove_old-Steady : (p : FilePath) (sb : Option Stat) → Steady (remove_old o p sb)
  unfolding remove_old
  remove_old-Steady p none = Steady-pure
  remove_old-Steady p (some sb) = Steady-if (is_dir sb) (Steady-rmdir p) (Steady-unlink p)

  pub remove_upper-Steady : (path : FilePath) → Steady (remove_upper o path)
  unfolding remove_upper
  remove_upper-Steady path =
      Steady-bind (Steady-stat (upper ++ path))
        (λ sb. Steady-if (is_some sb) (Steady-unlink (upper ++ path)) Steady-pure)

  purge-Steady : (up : FilePath) (names : List Text) → Steady (purge o up names)
  unfolding purge
  purge-Steady up [] = Steady-pure
  purge-Steady up (nm ∷ names) =
      Steady-then
        (Steady-bind (Steady-attempt (unlink (at up nm)) ((λ k q h. h), (λ q r h. h)))
          (λ r. Steady-pure))
        (purge-Steady up names)

  pub remove_upper_dir-Steady : (up : FilePath) → Steady (remove_upper_dir o up)
  unfolding remove_upper_dir
  remove_upper_dir-Steady up = Steady-bind (Steady-stat up) (λ sb.
      Steady-bind (Steady-look (λ st. os.readdir st.fs up)) (λ names.
        Steady-if (is_some sb) (Steady-then (purge-Steady up (listing o names)) (Steady-rmdir up))
          Steady-pure))
