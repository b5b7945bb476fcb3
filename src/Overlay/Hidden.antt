-- ===== src/Overlay/Hidden.antt =====
-- The whiteouts that overlay.cc places hide what lower has.
use jaim.Prelude.{
  Bool, true, false, List, [], ◌∷◌, ◌++◌, Option, none, some, ◌≡◌, refl, ap, subst, ◌∙◌, inl, inr,
  Result, ok, err, if◌then◌else◌, Text, arith, append_assoc,
}
use jaim.Overlay.Posix.{FilePath, Stat, HasKind, regular, char_device, Errno, mknod_whiteout, creat}
use jaim.Overlay.Resolve.{wh_prefix, at, is_reg, is_whiteout_dev, holds, is_some, Overlay}
use jaim.Overlay.Monad.{◌>>◌, fail, pure, State, M, feed, settle, attempt}
use jaim.Overlay.Monad.Runs.{feed-Split, sys-ok}
use jaim.Overlay.Whiteout.{
  split, place_whiteout, place_sidecar, after_mknod, give_up_mknod, place_marker, remove_old,
  is_denied, ensure_upper_parents,
}
use jaim.Overlay.Monad.Steady.{IsPlainAt, Steady}
use jaim.Overlay.Whiteout.Steady.{ensure_upper_parents-Steady, remove_old-Steady}
use jaim.Overlay.Gone.{Hides, IsHidden}
use jaim.Overlay.Change.{hide_lower}

HasKind-reg : {s : Option Stat} → HasKind regular s → holds is_reg s ≡ true
HasKind-reg (sb, e, k) = ground arith

split-at : (c : Text) (p : List Text) → at (split (c ∷ p)).0 (split (c ∷ p)).1 ≡ c ∷ p
unfolding split
split-at c [] = refl
split-at c (d ∷ p) = ap (λ x. c ∷ x) (split-at d p)

device :
    {s : Option Stat}
    → (sb : Stat) × (s ≡ some sb) × (sb.kind ≡ char_device) × (sb.major ≡ 0) × (sb.minor ≡ 0)
    → holds is_whiteout_dev s ≡ true
unfolding is_whiteout_dev
device (sb, e, k, ma, mi) = ground arith

pub pure-ok : (o : Overlay) (st last : State o) → pure tt st ≡ (ok tt, last) → st.fs ≡ last.fs
pure-ok o st last e = cc

pub Steady-reached :
    {o : Overlay} {A : Type 0} {a : A} (m : M o A)
    → Steady m
    → (q : FilePath) (st between : State o) → m st ≡ (ok a, between)
    → IsPlainAt o st.fs q
    → IsPlainAt o between.fs q
Steady-reached {o} m h q st between e plain =
    subst (λ (r : Result Errno _ × State o). IsPlainAt o r.1.fs q) e (h.steady st q plain)

module _ (o : Overlay) where
  open o use {os, upper, lower}

  place_sidecar-Hides :
      (st last : State o) (sc up lo : FilePath)
      → IsPlainAt o st.fs sc
      → place_sidecar o sc st ≡ (ok tt, last)
      → Hides os last.fs sc up lo
  unfolding place_sidecar
  place_sidecar-Hides st last sc up lo plain e = inl (
      HasKind-reg (os.creat-lstat sc 0o600 st.fs last.fs plain (sys-ok (creat sc 0o600) st last e)))

  denied-Hides :
      (st last : State o) (x : Errno) (sc up lo : FilePath) (b : Bool)
      → IsPlainAt o st.fs sc
      → (if b then (give_up_mknod o >> place_sidecar o sc) else fail x) st ≡ (ok tt, last)
      → Hides os last.fs sc up lo
  unfolding give_up_mknod
  denied-Hides st last x sc up lo true plain e =
      place_sidecar-Hides (record { fs = st.fs; can_mknod_whiteout = false }) last sc up lo plain e
  denied-Hides st last x sc up lo false plain e = cc

  settle-mknod-Hides :
      (st last : State o) (r : Result Errno os.Fs) (sc up lo : FilePath)
      → IsPlainAt o st.fs sc
      → os.perform (mknod_whiteout up) st.fs ≡ r
      → feed (settle st r) (after_mknod o sc) ≡ (ok tt, last)
      → Hides os last.fs sc up lo
  unfolding after_mknod
  settle-mknod-Hides st last (ok fs) sc up lo plain p e =
      inr (inl (device (os.mknod-lstat up st.fs last.fs (p ∙ (cc)))))
  settle-mknod-Hides st last (err x) sc up lo plain p e =
      denied-Hides st last x sc up lo (is_denied o x) plain e

  place_marker-Hides :
      (st last : State o) (up sc lo : FilePath) (b : Bool)
      → IsPlainAt o st.fs sc
      → place_marker o up sc b st ≡ (ok tt, last)
      → Hides os last.fs sc up lo
  unfolding place_marker attempt
  place_marker-Hides st last up sc lo true plain e =
      settle-mknod-Hides st last (os.perform (mknod_whiteout up) st.fs) sc up lo plain refl e
  place_marker-Hides st last up sc lo false plain e = place_sidecar-Hides st last sc up lo plain e

module _ (o : Overlay) (first : Text) (others : List Text) where
  open o use {os, upper, lower}

  abbrev path : FilePath
  path = first ∷ others

  abbrev sidecar : FilePath
  sidecar = at (upper ++ (split path).0) (wh_prefix ++ (split path).1)

  place_whiteout-Hides :
      (st last : State o)
      → IsPlainAt o st.fs sidecar
      → place_whiteout o path st ≡ (ok tt, last)
      → IsHidden o last.fs path
  unfolding place_whiteout
  place_whiteout-Hides st last plain e =
      let up_full = at (upper ++ (split path).0) (split path).1 in
      let parts = feed-Split (remove_old o up_full (os.lstat st.fs up_full) st) _ e in
      subst (λ p. Hides os last.fs sidecar p (lower ++ path))
        (append_assoc upper (split path).0 ((split path).1 ∷ [])
          ∙ ap (λ p. upper ++ p) (split-at first others))
        (place_marker-Hides o parts.between last up_full sidecar (lower ++ path)
          parts.between.can_mknod_whiteout
          (Steady-reached _ (remove_old-Steady up_full (os.lstat st.fs up_full)) sidecar st
            parts.between parts.reached plain)
          parts.after)

  pub hide_lower-IsHidden :
      (st last : State o)
      → IsPlainAt o st.fs sidecar
      → os.lstat st.fs (upper ++ path) ≡ none
      → hide_lower o path st ≡ (ok tt, last)
      → IsHidden o last.fs path
  unfolding hide_lower
  hide_lower-IsHidden st last plain h e = by_lower (os.lstat st.fs (lower ++ path)) refl e
    where
      by_lower :
          (l : Option Stat)
          → os.lstat st.fs (lower ++ path) ≡ l
          → (if is_some l then (ensure_upper_parents o path >> place_whiteout o path) else pure tt)
              st
            ≡ (ok tt, last)
          → IsHidden o last.fs path
      by_lower none l e' =
          subst (λ fs. IsHidden o fs path) (pure-ok o st last e') (inr (inr (h, l)))
      by_lower (some sb) l e' =
          let parts = feed-Split (ensure_upper_parents o path st) _ e' in
          place_whiteout-Hides parts.between last
            (Steady-reached (ensure_upper_parents o path) (ensure_upper_parents-Steady path) sidecar
              st parts.between parts.reached plain)
            parts.after
