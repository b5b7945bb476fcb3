-- ===== src/Overlay/Removal.antt =====
-- What `op_unlink` and `op_rmdir` of overlay.cc remove stays gone, also where lower has the entry.
use jaim.Prelude.{
  Bool, true, false, List, ◌∷◌, ◌++◌, Option, none, some, ◌≡◌, refl, subst, ok, err, if◌then◌else◌,
  Text, not,
}
use jaim.Overlay.Posix.{FilePath, Stat, enoent, eisdir, enotdir, enotempty, unlink, rmdir}
use jaim.Overlay.Resolve.{wh_prefix, at, is_dir, is_some, Overlay, resolve, found}
use jaim.Overlay.Monad.{◌>>◌, fail, pure, of_result, State, M, sys}
use jaim.Overlay.Monad.Runs.{feed-Split, sys-ok}
use jaim.Overlay.Whiteout.{split}
use jaim.Overlay.Monad.Steady.{IsPlainAt, Steady, Steady-of_result}
use jaim.Overlay.Whiteout.Steady.{remove_upper-Steady, remove_upper_dir-Steady}
use jaim.Overlay.Gone.{IsHidden, IsHidden-gone}
use jaim.Overlay.Read.{op_getattr, op_readdir, listing}
use jaim.Overlay.Change.{
  resolved, hide_lower, remove_upper, op_unlink, remove_upper_dir, op_rmdir, purge, nonempty,
}
use jaim.Overlay.Hidden.{Steady-reached, pure-ok, hide_lower-IsHidden}

module _ (o : Overlay) (first : Text) (others : List Text) where
  open o use {os, upper, lower}

  abbrev path : FilePath
  path = first ∷ others

  abbrev sidecar : FilePath
  sidecar = at (upper ++ (split path).0) (wh_prefix ++ (split path).1)

  remove_upper-none :
      (st last : State o)
      → remove_upper o path st ≡ (ok tt, last)
      → os.lstat last.fs (upper ++ path) ≡ none
  unfolding remove_upper
  remove_upper-none st last e = by_upper (os.lstat st.fs (upper ++ path)) refl e
    where
      by_upper :
          (u : Option Stat)
          → os.lstat st.fs (upper ++ path) ≡ u
          → (if is_some u then sys (unlink (upper ++ path)) else pure tt) st ≡ (ok tt, last)
          → os.lstat last.fs (upper ++ path) ≡ none
      by_upper none h e' = subst (λ fs. os.lstat fs (upper ++ path) ≡ none) (pure-ok o st last e') h
      by_upper (some sb) h e' =
          os.unlink-lstat (upper ++ path) st.fs last.fs (sys-ok (unlink (upper ++ path)) st last e')

  remove_upper_dir-none :
      (st last : State o)
      → remove_upper_dir o (upper ++ path) st ≡ (ok tt, last)
      → os.lstat last.fs (upper ++ path) ≡ none
  unfolding remove_upper_dir
  remove_upper_dir-none st last e = by_upper (os.lstat st.fs (upper ++ path)) refl e
    where
      by_upper :
          (u : Option Stat)
          → os.lstat st.fs (upper ++ path) ≡ u
          → (if is_some u
                then (purge o (upper ++ path) (listing o (os.readdir st.fs (upper ++ path)))
                    >> sys (rmdir (upper ++ path)))
                else pure tt)
              st
            ≡ (ok tt, last)
          → os.lstat last.fs (upper ++ path) ≡ none
      by_upper none h e' = subst (λ fs. os.lstat fs (upper ++ path) ≡ none) (pure-ok o st last e') h
      by_upper (some sb) h e' =
          let up = upper ++ path in
          let parts = feed-Split (purge o up (listing o (os.readdir st.fs up)) st) _ e' in
          os.rmdir-lstat up parts.between.fs last.fs
            (sys-ok (rmdir up) parts.between last parts.after)

  -- The two parts that both operations end with.
  removed-IsHidden :
      (m : M o (Unit {0})) (st last : State o)
      → Steady m
      → IsPlainAt o st.fs sidecar
      → ((end : State o) → m st ≡ (ok tt, end) → os.lstat end.fs (upper ++ path) ≡ none)
      → (m >> hide_lower o path) st ≡ (ok tt, last)
      → IsHidden o last.fs path
  removed-IsHidden m st last steady plain h e =
      let parts = feed-Split (m st) _ e in
      hide_lower-IsHidden o first others parts.between last
        (Steady-reached m steady sidecar st parts.between parts.reached plain)
        (h parts.between parts.reached) parts.after

  IsHidden-op_getattr :
      (st : State o) → IsHidden o st.fs path → op_getattr o st.fs path ≡ err enoent
  unfolding op_getattr
  IsHidden-op_getattr st h = rw (IsHidden-gone o st.fs first others h)

-- The path of the sidecar that hides an entry.
abbrev pub sidecar_of : (o : Overlay) → FilePath → FilePath
sidecar_of o path = at (o.upper ++ (split path).0) (wh_prefix ++ (split path).1)

-- A file below the root that `op_unlink` reports as removed is gone for op_getattr, also where the
-- lower layer has it; upper may have no symbolic link and no special file in the place of the sidecar
-- that hides the file.
pub op_unlink-op_getattr :
    (o : Overlay) (first : Text) (others : List Text) (st last : State o)
    → IsPlainAt o st.fs (sidecar_of o (first ∷ others))
    → op_unlink o (first ∷ others) st ≡ (ok tt, last)
    → op_getattr o last.fs (first ∷ others) ≡ err enoent
unfolding op_unlink resolved
op_unlink-op_getattr o first others st last plain e =
    let parts = feed-Split (of_result (found (resolve o st.fs (first ∷ others))) st) _ e in
    IsHidden-op_getattr o first others last (
      by_kind parts.between (is_dir parts.value.1)
        (Steady-reached (of_result (found (resolve o st.fs (first ∷ others)))) (Steady-of_result _)
          (sidecar_of o (first ∷ others)) st parts.between parts.reached plain)
        parts.after)
  where
    by_kind :
        (st' : State o) (b : Bool)
        → IsPlainAt o st'.fs (sidecar_of o (first ∷ others))
        → (if b
              then fail eisdir
              else (remove_upper o (first ∷ others) >> hide_lower o (first ∷ others)))
            st'
          ≡ (ok tt, last)
        → IsHidden o last.fs (first ∷ others)
    by_kind st' true still e' = cc
    by_kind st' false still e' =
        removed-IsHidden o first others (remove_upper o (first ∷ others)) st' last
          (remove_upper-Steady (first ∷ others)) still
          (λ end. remove_upper-none o first others st' end) e'

-- So is a directory below the root that `op_rmdir` reports as removed, on the same condition.
pub op_rmdir-op_getattr :
    (o : Overlay) (first : Text) (others : List Text) (st last : State o)
    → IsPlainAt o st.fs (sidecar_of o (first ∷ others))
    → op_rmdir o (first ∷ others) st ≡ (ok tt, last)
    → op_getattr o last.fs (first ∷ others) ≡ err enoent
unfolding op_rmdir resolved
op_rmdir-op_getattr o first others st last plain e =
    let parts = feed-Split (of_result (found (resolve o st.fs (first ∷ others))) st) _ e in
    let still =
      Steady-reached (of_result (found (resolve o st.fs (first ∷ others)))) (Steady-of_result _)
        (sidecar_of o (first ∷ others)) st parts.between parts.reached plain in
    let names = op_readdir o parts.between.fs (first ∷ others) in
    IsHidden-op_getattr o first others last
      (by_kind parts.between (not (is_dir parts.value.1)) (nonempty o names) still parts.after)
  where
    by_kind :
        (st' : State o) (b c : Bool)
        → IsPlainAt o st'.fs (sidecar_of o (first ∷ others))
        → (if b
              then fail enotdir
              else if c
              then fail enotempty
              else (remove_upper_dir o (o.upper ++ (first ∷ others))
                  >> hide_lower o (first ∷ others)))
            st'
          ≡ (ok tt, last)
        → IsHidden o last.fs (first ∷ others)
    by_kind st' true c still e' = cc
    by_kind st' false true still e' = cc
    by_kind st' false false still e' =
        removed-IsHidden o first others (remove_upper_dir o (o.upper ++ (first ∷ others))) st' last
          (remove_upper_dir-Steady (o.upper ++ (first ∷ others))) still
          (λ end. remove_upper_dir-none o first others st' end) e'
