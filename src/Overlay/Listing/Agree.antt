-- ===== src/Overlay/Listing/Agree.antt =====
-- `op_readdir` lists a name exactly when the name can be looked up.
use jaim.Prelude.{
  Bool, true, false, not, ◌&&◌, ◌||◌, List, [], ◌∷◌, ◌++◌, Result, ok, err, ◌≡◌, refl, sym, ap, ◌∙◌,
  if◌then◌else◌, Text, codes, text_eq, arith, Bool-cases, inl, inr, ◌>>=◌,
}
use jaim.Overlay.Posix.{FilePath, Stat, Errno, enotdir}
use jaim.Overlay.Resolve.{
  wh_prefix, at, is_reg, is_dir, holds, is_some, walk, found, Overlay, resolve,
}
use jaim.Overlay.Read.{
  op_getattr, op_readdir, member, listing, have_upper, upper_part, lower_part, merged, upper_loop,
}
use jaim.Overlay.Listing.Names.{
  IsOrdinary, is_device, member-append, member-cons, member-nil, lower_loop-member, upper_loop-seen,
  upper_loop-whited,
}
use jaim.Overlay.Listing.Below.{is_opaque, IsClear, walk-below}

abbrev pub is_ok : {A : Type 0} → Result Errno A → Bool
is_ok (ok a) = true
is_ok (err e) = false

module _ (o : Overlay) (fs : o.os.Fs) where
  open o use {os, upper, lower}

  -- A directory of the mount as the system lists it and as the overlay writes it: a directory lists
  -- the names that are there, nothing else lists any, and an entry is marked as deleted by a regular
  -- file that has no entry beside it.
  pub record IsTidy (up lo : FilePath) : Type 0 where
    pub upper_listed :
        (nm : Text) → member nm (listing o (os.readdir fs up)) ≡ is_some (os.lstat fs (at up nm))
    pub lower_listed :
        (nm : Text) → member nm (listing o (os.readdir fs lo)) ≡ is_some (os.lstat fs (at lo nm))
    pub no_directory : holds is_dir (os.lstat fs up) ≡ false → listing o (os.readdir fs up) ≡ []
    pub sidecars :
        (nm : Text)
        → holds is_reg (os.lstat fs (at up (wh_prefix ++ nm)))
          ≡ is_some (os.lstat fs (at up (wh_prefix ++ nm)))
    pub no_entry_beside :
        (nm : Text)
        → is_some (os.lstat fs (at up (wh_prefix ++ nm))) ≡ true
        → is_some (os.lstat fs (at up nm)) ≡ false

  -- The lookup of a name in a directory, `op` being set if lower is hidden there.
  walk-ok :
      (op : Bool) (up lo : FilePath) (nm : Text)
      → is_ok (found (walk os fs op up lo nm [])) ≡ (
          not (holds is_reg (os.lstat fs (at up (wh_prefix ++ nm))))
          && ((is_some (os.lstat fs (at up nm)) && not (is_device o fs up nm))
              || (not (is_some (os.lstat fs (at up nm)))
                  && (not op && is_some (os.lstat fs (at lo nm))))))
  unfolding walk found
  walk-ok op up lo nm = ground arith

  lower_part-member :
      (up lo : FilePath) (nm : Text) (seen whited : List Text)
      → member nm (lower_part o fs up lo (seen, whited)) ≡ (
          not (is_opaque os fs up)
          && (member nm (listing o (os.readdir fs lo))
              && (not (member nm whited) && not (member nm seen))))
  unfolding lower_part have_upper
  lower_part-member up lo nm seen whited =
      ground
        (arith, member-nil nm, lower_loop-member o nm seen whited (listing o (os.readdir fs lo)))

  merged-member :
      (up lo : FilePath) (nm : Text)
      → IsTidy up lo
      → IsOrdinary nm
      → member nm ((upper_part o fs up).0 ++ lower_part o fs up lo (upper_part o fs up))
        ≡ is_ok (found (walk os fs (is_opaque os fs up) up lo nm []))
  unfolding upper_part have_upper
  merged-member up lo nm t h =
      let names = listing o (os.readdir fs up) in
      elim (Bool-cases (holds is_dir (os.lstat fs up))) [
        | inl here ↦ rw here (
            ground (
              arith,
              member-append nm (upper_loop o fs up names).0
                  (lower_part o fs up lo (upper_loop o fs up names)),
              lower_part-member up lo nm (upper_loop o fs up names).0 (upper_loop o fs up names).1,
              upper_loop-seen o fs up nm names h,
              upper_loop-whited o fs up nm names h,
              walk-ok (is_opaque os fs up) up lo nm,
              t.upper_listed nm,
              t.lower_listed nm,
              t.upper_listed (wh_prefix ++ nm),
              t.sidecars nm,
              t.no_entry_beside nm,
            ))
        | inr absent ↦ rw absent (
            ground (
              arith,
              lower_part-member up lo nm [] [],
              member-nil nm,
              member-nil (wh_prefix ++ nm),
              walk-ok (is_opaque os fs up) up lo nm,
              t.upper_listed nm,
              t.lower_listed nm,
              t.upper_listed (wh_prefix ++ nm),
              t.sidecars nm,
              t.no_directory absent,
            ))
      ]

  is_ok-then : (r : Result Errno (FilePath × Stat)) → is_ok (r >>= λ x. ok x.1) ≡ is_ok r
  is_ok-then (ok x) = refl
  is_ok-then (err e) = refl

  listed-as :
      (r : Result Errno (FilePath × Stat)) (path : FilePath) (names : List Text)
      → (r >>= λ x.
          if is_dir x.1 then ok (codes "." ∷ codes ".." ∷ merged o fs path) else err enotdir)
        ≡ ok names
      → ((x : FilePath × Stat) × (r ≡ ok x)) × (names ≡ codes "." ∷ codes ".." ∷ merged o fs path)
  listed-as (ok x) path names e = ((x, refl), by_kind (is_dir x.1) e)
    where
      by_kind :
          (b : Bool)
          → (if b then ok (codes "." ∷ codes ".." ∷ merged o fs path) else err enotdir) ≡ ok names
          → names ≡ codes "." ∷ codes ".." ∷ merged o fs path
      by_kind true e' = cc
      by_kind false e' = cc
  listed-as (err x) path names e = cc

-- A listing of a directory below the root holds a name exactly when the name can be looked up in it,
-- if the directory is as the system lists it and the overlay writes it and no directory above it
-- hides the lower layer, for names other than "." and ".." that are not empty and do not begin like a marker.
pub op_readdir-op_getattr :
    (o : Overlay) (fs : o.os.Fs) (first : Text) (others : List Text) (nm : Text) (names : List Text)
    → IsClear o.os fs o.upper first others
    → IsTidy o fs (o.upper ++ (first ∷ others)) (o.lower ++ (first ∷ others))
    → IsOrdinary nm
    → text_eq nm (codes ".") ≡ false
    → text_eq nm (codes "..") ≡ false
    → op_readdir o fs (first ∷ others) ≡ ok names
    → member nm names ≡ is_ok (op_getattr o fs (at (first ∷ others) nm))
unfolding op_readdir op_getattr resolve merged
op_readdir-op_getattr o fs first others nm names clear tidy h dot dots e =
    let (there, same) =
      listed-as o fs (found (resolve o fs (first ∷ others))) (first ∷ others) names e in
    let up = o.upper ++ (first ∷ others) in
    let lo = o.lower ++ (first ∷ others) in
    ap (member nm) same
    ∙ ground (
      arith,
      dot,
      dots,
      member-cons nm (codes ".") (codes ".." ∷ merged o fs (first ∷ others)),
      member-cons nm (codes "..") (merged o fs (first ∷ others)),
    )
    ∙ merged-member o fs up lo nm tidy h
    ∙ ap (λ r. is_ok (found r))
        (sym (walk-below o.os fs false o.upper o.lower first others nm there.0 clear there.1))
    ∙ sym (is_ok-then o fs (found (walk o.os fs false o.upper o.lower first (others ++ (nm ∷ [])))))
