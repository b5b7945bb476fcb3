-- ===== src/Overlay/CopyUp/Lower.antt =====
-- Copying an entry up changes nothing in the lower layer.
use jaim.Prelude.{
  ℕ, zero, suc, Result, ok, err, ◌≡◌, refl, ap, subst, sym, List, [], ◌∷◌, ◌++◌, Text,
}
use jaim.Overlay.Posix.{
  create_excl, FilePath, FileKind, regular, directory, symbolic_link, char_device, other_kind, Stat,
  Errno, eperm, enoent, eacces, eexist, enotdir, eisdir, enotempty, ebadf, other_error,
}
use jaim.Overlay.Resolve.{Overlay, Resolved, nowhere, whiteout, in_upper, in_lower}
use jaim.Overlay.Monad.{M, State, feed, attempt}
use jaim.Overlay.Monad.Keeps.{Apart}
use jaim.Overlay.Monad.Harmless.{
  Harmless, harmless, Harmless-bind, Harmless-bind-from, Harmless-attempt, Harmless-read,
}
use jaim.Overlay.Monad.Spares.{
  IsUpper, IsMarker, IsUpper-path, Spares-mkdir, Spares-unlink, Spares-create_excl,
  Spares-write_all, Spares-futimes, Spares-fchown, Spares-symlink, Spares-rename,
}
use jaim.Overlay.Whiteout.Lower.{ensure_upper_parents-Harmless}
use jaim.Overlay.CopyUp.{
  extend, suffix, temp_path, retry, temp_loop, or_unlink, write_out, stream, fill, copy_regular,
  copy_symlink, unless_eexist, copy_leaf, copy_resolved, copy_up,
}

extend-append :
    (u : FilePath) (c : Text) (p : FilePath) (s : Text)
    → extend (u ++ (c ∷ p)) s ≡ u ++ extend (c ∷ p) s
unfolding extend
extend-append [] c p s = refl
extend-append (d ∷ []) c p s = refl
extend-append (d ∷ e ∷ u) c p s = ap (λ x. d ∷ x) (extend-append (e ∷ u) c p s)

-- A path below the root whose name is not that of a marker.
pub record IsPlain (o : Overlay) (path : FilePath) : Type 0 where
  pub unmarked : ¬ (IsMarker o (o.upper ++ path))
  pub first : Text
  pub others : List Text
  pub below_root : path ≡ first ∷ others

module _ (o : Overlay) (pid : ℕ) where
  open o use {os, upper, lower}

  IsUpper-temp_path :
      (path : FilePath) (n : ℕ) → IsPlain o path → IsUpper o (temp_path o pid (upper ++ path) n)
  unfolding temp_path
  IsUpper-temp_path path n h =
      subst (λ p. IsUpper o (temp_path o pid (upper ++ p) n)) (sym h.below_root)
        (
          extend (h.first ∷ h.others) (suffix o pid n),
          extend-append upper h.first h.others (suffix o pid n),
        )

module _ (o : Overlay) (pid : ℕ) where
  retry-Harmless :
      (tmp : FilePath) (next : M o FilePath) (r : Result Errno (Unit {0}))
      → Harmless next
      → Harmless (retry o pid tmp next r)
  unfolding retry
  retry-Harmless tmp next (ok u) h = search harmless
  retry-Harmless tmp next (err eexist) h = h
  retry-Harmless tmp next (err eperm) h = search harmless
  retry-Harmless tmp next (err enoent) h = search harmless
  retry-Harmless tmp next (err eacces) h = search harmless
  retry-Harmless tmp next (err enotdir) h = search harmless
  retry-Harmless tmp next (err eisdir) h = search harmless
  retry-Harmless tmp next (err enotempty) h = search harmless
  retry-Harmless tmp next (err ebadf) h = search harmless
  retry-Harmless tmp next (err (other_error n)) h = search harmless

  unless_eexist-Harmless : (r : Result Errno (Unit {0})) → Harmless {o = o} (unless_eexist o pid r)
  unfolding unless_eexist
  unless_eexist-Harmless (ok u) = search harmless
  unless_eexist-Harmless (err eexist) = search harmless
  unless_eexist-Harmless (err eperm) = search harmless
  unless_eexist-Harmless (err enoent) = search harmless
  unless_eexist-Harmless (err eacces) = search harmless
  unless_eexist-Harmless (err enotdir) = search harmless
  unless_eexist-Harmless (err eisdir) = search harmless
  unless_eexist-Harmless (err enotempty) = search harmless
  unless_eexist-Harmless (err ebadf) = search harmless
  unless_eexist-Harmless (err (other_error n)) = search harmless

module _ (o : Overlay) (pid : ℕ) (apart : Apart o) where
  or_unlink-Harmless :
      (p : FilePath) (r : Result Errno (Unit {0})) → IsUpper o p → Harmless (or_unlink o pid p r)
  unfolding or_unlink
  or_unlink-Harmless p (ok u) h = search harmless
  or_unlink-Harmless p (err e) h = search (harmless, Spares-unlink, apart)

  write_out-Harmless :
      (p : FilePath) (r : Result Errno Text) → IsUpper o p → Harmless (write_out o pid p r)
  unfolding write_out
  write_out-Harmless p (ok s) h = search (harmless, or_unlink-Harmless, Spares-write_all, apart)
  write_out-Harmless p (err e) h = search (or_unlink-Harmless)

  stream-Harmless : (src p : FilePath) → IsUpper o p → Harmless (stream o pid src p)
  unfolding stream
  stream-Harmless src p h = search (harmless, write_out-Harmless)

  copy_symlink-Harmless :
      (src : FilePath) (path : FilePath)
      → IsPlain o path
      → Harmless (copy_symlink o pid src (o.upper ++ path))
  unfolding copy_symlink
  copy_symlink-Harmless src path h =
      search (harmless, Spares-symlink, IsUpper-path, h.unmarked, apart)

module _ (o : Overlay) (pid : ℕ) (apart : Apart o) (path : FilePath) (plain : IsPlain o path) where
  open o use {os, upper, lower}

  temp_loop-Harmless : (mode n left : ℕ) → Harmless (temp_loop o pid (upper ++ path) mode n left)
  unfolding temp_loop
  temp_loop-Harmless mode n zero = search harmless
  temp_loop-Harmless mode n (suc left) =
      Harmless-bind
        (Harmless-attempt apart (
          Spares-create_excl o (temp_path o pid (upper ++ path) n) mode
            (IsUpper-temp_path o pid path n plain)))
        (λ r.
          retry-Harmless o pid (temp_path o pid (upper ++ path) n)
            (temp_loop o pid (upper ++ path) mode (suc n) left) r
            (temp_loop-Harmless mode (suc n) left))

  abbrev Makes : M o FilePath → Type 0
  Makes m = (st : State o) (p : FilePath) → (m st).0 ≡ ok p → IsUpper o p

  Makes-retry :
      (tmp : FilePath) (next : M o FilePath)
      → IsUpper o tmp
      → Makes next
      → (r : Result Errno (Unit {0})) (st : State o) (p : FilePath)
      → (retry o pid tmp next r st).0 ≡ ok p
      → IsUpper o p
  unfolding retry
  Makes-retry tmp next h k (ok u) st p e = subst (IsUpper o) (cc) h
  Makes-retry tmp next h k (err eexist) st p e = k st p e
  Makes-retry tmp next h k (err eperm) st p e = cc
  Makes-retry tmp next h k (err enoent) st p e = cc
  Makes-retry tmp next h k (err eacces) st p e = cc
  Makes-retry tmp next h k (err enotdir) st p e = cc
  Makes-retry tmp next h k (err eisdir) st p e = cc
  Makes-retry tmp next h k (err enotempty) st p e = cc
  Makes-retry tmp next h k (err ebadf) st p e = cc
  Makes-retry tmp next h k (err (other_error n)) st p e = cc

  Makes-feed :
      {A : Type 0} (r : Result Errno A × State o) (f : A → M o FilePath) (p : FilePath)
      → (feed r f).0 ≡ ok p
      → ((a : A) → Makes (f a))
      → IsUpper o p
  Makes-feed (ok a, st) f p e h = h a st p e
  Makes-feed (err x, st) f p e h = cc

  Makes-temp_loop : (mode n left : ℕ) → Makes (temp_loop o pid (upper ++ path) mode n left)
  unfolding temp_loop
  Makes-temp_loop mode n zero st p e = cc
  Makes-temp_loop mode n (suc left) st p e =
      Makes-feed (attempt (create_excl (temp_path o pid (upper ++ path) n) mode) st)
        (retry o pid (temp_path o pid (upper ++ path) n)
          (temp_loop o pid (upper ++ path) mode (suc n) left))
        p e
        (λ r.
          Makes-retry (temp_path o pid (upper ++ path) n)
            (temp_loop o pid (upper ++ path) mode (suc n) left)
            (IsUpper-temp_path o pid path n plain) (Makes-temp_loop mode (suc n) left) r)

  fill-Harmless :
      (src : FilePath) (sb : Stat) (tmp : FilePath)
      → IsUpper o tmp
      → Harmless (fill o pid src (upper ++ path) sb tmp)
  unfolding fill
  fill-Harmless src sb tmp h =
      search
        (
          harmless, stream-Harmless, or_unlink-Harmless, Spares-futimes, Spares-fchown,
          Spares-rename, IsUpper-path, plain.unmarked, apart,
        )
        depth 12

  copy_regular-Harmless :
      (src : FilePath) (sb : Stat) → Harmless (copy_regular o pid src (upper ++ path) sb)
  unfolding copy_regular
  copy_regular-Harmless src sb = Harmless-bind (Harmless-read (λ fs. os.open_read fs src)) (λ u.
      Harmless-bind-from (IsUpper o) (temp_loop-Harmless sb.mode 0 100)
        (Makes-temp_loop sb.mode 0 100) (fill-Harmless src sb))

  copy_leaf-Harmless :
      (src : FilePath) (k : FileKind) (sb : Stat)
      → Harmless (copy_leaf o pid src (upper ++ path) k sb)
  unfolding copy_leaf
  copy_leaf-Harmless src regular sb = copy_regular-Harmless src sb
  copy_leaf-Harmless src symbolic_link sb = copy_symlink-Harmless o pid apart src path plain
  copy_leaf-Harmless src directory sb =
      search (harmless, unless_eexist-Harmless, Spares-mkdir, IsUpper-path, apart)
  copy_leaf-Harmless src char_device sb = search harmless
  copy_leaf-Harmless src other_kind sb = search harmless

  copy_resolved-Harmless : (r : Resolved) → Harmless (copy_resolved o pid path r)
  unfolding copy_resolved
  copy_resolved-Harmless nowhere = search harmless
  copy_resolved-Harmless whiteout = search harmless
  copy_resolved-Harmless (in_upper p sb) = search harmless
  copy_resolved-Harmless (in_lower p sb) =
      search (harmless, ensure_upper_parents-Harmless, copy_leaf-Harmless, apart)

  pub copy_up-Harmless : Harmless (copy_up o pid path)
  unfolding copy_up
  copy_up-Harmless = search (harmless, copy_resolved-Harmless)
