-- ===== src/Overlay/Disk.antt =====
-- A small file system that obeys the laws of Posix: a map from paths to files, without hard links.
-- It shows that the laws can hold, and the tests run on it.
pub mod Laws
pub mod System
use jaim.Prelude.{
  ℕ, Bool, true, false, not, ◌&&◌, Bool-cases, List, [], ◌∷◌, ◌++◌, append-nil, Option, none, some,
  Result, ok, err, ◌≡◌, ◌↔◌, ◌⊎◌, inl, inr, refl, sym, ap, subst, ◌∙◌, if◌then◌else◌, Text, text_eq,
  text_eq_iff, arith,
}
use jaim.Overlay.Posix.{
  FilePath, FileKind, regular, directory, symbolic_link, char_device, Stat, Errno, eperm, enoent,
  Syscall, mkdir, unlink, rmdir, mknod_whiteout, creat, create_excl, write_all, open_file, chmod,
  lchown, utimes, futimes, fchown, truncate, setxattr, removexattr, symlink, link, rename, Touches,
  MakesLink, Brings, HasKind, Posix,
}
use jaim.Overlay.Resolve.{at}

pub record Node : Type 0 where
  pub status : Stat
  pub text : Text

abbrev pub Disk : Type 0
Disk = FilePath → Option Node

unfoldable pub path_eq : FilePath → FilePath → Bool
path_eq [] [] = true
path_eq (x ∷ xs) (y ∷ ys) = text_eq x y && path_eq xs ys
path_eq _ _ = false

pub path_eq_iff : (a b : FilePath) → (path_eq a b ≡ true) ↔ (a ≡ b)
unfolding path_eq
path_eq_iff (x ∷ a) (y ∷ b) = ground (arith, path_eq_iff a b, text_eq_iff x y)
path_eq_iff [] [] = ground arith
path_eq_iff [] (y ∷ b) = ground arith
path_eq_iff (x ∷ a) [] = ground arith

unfoldable pub put_at : FilePath → Option Node → Disk → Disk
unfolding path_eq
put_at p v fs q = if path_eq p q then v else fs q

pub put_at-same : (p : FilePath) (v : Option Node) (fs : Disk) → put_at p v fs p ≡ v
unfolding put_at
put_at-same p v fs = ground (arith, path_eq_iff p p)

pub put_at-other :
    (p q : FilePath) (v : Option Node) (fs : Disk) → ¬ (q ≡ p) → put_at p v fs q ≡ fs q
unfolding put_at
put_at-other p q v fs h = ground (arith, path_eq_iff p q)

abbrev pub node : FileKind → ℕ → Text → Node
node k m s = record {
  status = record { kind = k; mode = m; uid = 0; gid = 0; major = 0; minor = 0 };
  text = s;
}

unfoldable pub refilled : Text → Option Node → Option Node
refilled s none = none
refilled s (some n) = some (record { status = n.status; text = s })

unfoldable pub apply : Syscall → Disk → Disk
unfolding put_at refilled
apply (mkdir p m) fs = put_at p (some (node directory m [])) fs
apply (unlink p) fs = put_at p none fs
apply (rmdir p) fs = put_at p none fs
apply (mknod_whiteout p) fs = put_at p (some (node char_device 0 [])) fs
apply (creat p m) fs = put_at p (some (node regular m [])) fs
apply (create_excl p m) fs = put_at p (some (node regular m [])) fs
apply (write_all p s) fs = put_at p (refilled s (fs p)) fs
apply (symlink t p) fs = put_at p (some (node symbolic_link 0o777 t)) fs
apply (rename a b) fs = put_at a none (put_at b (fs a) fs)
apply _ fs = fs

unfoldable pub present : Option Node → Bool
present none = false
present (some n) = true

-- The calls that succeed. The device of a whiteout is refused, as it is to most users.
unfoldable pub allowed : Syscall → Disk → Bool
unfolding present path_eq
allowed (mkdir p m) fs = not (present (fs p))
allowed (unlink p) fs = present (fs p)
allowed (rmdir p) fs = present (fs p)
allowed (mknod_whiteout p) fs = false
allowed (create_excl p m) fs = not (present (fs p))
allowed (symlink t p) fs = not (present (fs p))
allowed (link a b) fs = false
allowed (rename a b) fs = present (fs a) && not (path_eq a b)
allowed _ fs = true

unfoldable pub perform_on : Syscall → Disk → Result Errno Disk
unfolding apply allowed
perform_on c fs = if allowed c fs then ok (apply c fs) else err eperm

unfoldable pub status_of : Option Node → Option Stat
status_of none = none
status_of (some n) = some n.status

unfoldable pub text_of : Option Node → Result Errno Text
text_of none = err enoent
text_of (some n) = ok n.text
