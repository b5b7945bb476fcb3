-- ===== src/Overlay/Monad/Spares.antt =====
-- The calls that the overlay makes on paths of the upper layer spare the lower one.
use jaim.Prelude.{
  ℕ, Option, none, some, ◌≡◌, refl, sym, ap, subst, ◌∙◌, [], ◌∷◌, ◌++◌, append_assoc, append-nil,
  inl, inr, Text, codes,
}
use jaim.Overlay.Posix.{
  FilePath, Syscall, mkdir, unlink, rmdir, mknod_whiteout, creat, create_excl, write_all, futimes,
  fchown, lchown, setxattr, removexattr, symlink, link, rename, Touches, Names, Follows, MakesLink,
  Brings,
}
use jaim.Overlay.Resolve.{Overlay, wh_prefix, opaque_marker, at}
use jaim.Overlay.Monad.Keeps.{Spares}

unfoldable pub last : FilePath → Option Text
last [] = none
last (c ∷ []) = some c
last (c ∷ d ∷ p) = last (d ∷ p)

pub last-at : (p : FilePath) (c : Text) → last (at p c) ≡ some c
unfolding last
last-at [] c = refl
last-at (d ∷ []) c = refl
last-at (d ∷ e ∷ p) c = last-at (e ∷ p) c

last-append : (p : FilePath) (c : Text) (r : FilePath) → last (p ++ (c ∷ r)) ≡ last (c ∷ r)
unfolding last
last-append [] c r = refl
last-append (d ∷ []) c r = refl
last-append (d ∷ e ∷ p) c r = last-append (e ∷ p) c r

module _ (o : Overlay) where
  open o use {upper, lower}

  abbrev pub IsUpper : FilePath → Type 0
  IsUpper p = (q : FilePath) × (p ≡ upper ++ q)

  -- A path of the upper layer whose name is that of a sidecar or of the opaque marker.
  abbrev pub IsMarker : FilePath → Type 0
  IsMarker p = IsUpper p × ((n : Text) × (last p ≡ some (wh_prefix ++ n)))

  pub IsUpper-path : (q : FilePath) → IsUpper (upper ++ q)
  IsUpper-path q = (q, refl)

  pub IsUpper-at : (p : FilePath) (c : Text) → IsUpper p → IsUpper (at p c)
  IsUpper-at p c (q, e) = (at q c, ap (λ x. at x c) e ∙ append_assoc upper q (c ∷ []))

  pub IsMarker-sidecar : (p : FilePath) (n : Text) → IsUpper p → IsMarker (at p (wh_prefix ++ n))
  IsMarker-sidecar p n h = (IsUpper-at p (wh_prefix ++ n) h, (n, last-at p (wh_prefix ++ n)))

  pub IsMarker-opaque : (p : FilePath) → IsUpper p → IsMarker (at p opaque_marker)
  IsMarker-opaque p h = IsMarker-sidecar p (codes ".wh..opq") h

  -- Calls that change one path, give no file a name, and make and bring no link.
  spared :
      (c : Syscall) (p : FilePath)
      → IsUpper p
      → ((q : FilePath) → Touches c q → q ≡ p)
      → ((q : FilePath) → Follows c q → IsMarker q)
      → ((q : FilePath) → ¬ (Names c q))
      → ((q : FilePath) → ¬ (MakesLink c q))
      → ((q r : FilePath) → ¬ (Brings c q r))
      → Spares o IsMarker c
  spared c p h t f n m b = record {
    touched = λ q e. subst IsUpper (sym (t q e)) h;
    named = λ q e. absurd (n q e);
    followed = f;
    unlinked = λ q e. absurd (m q e);
    brought = λ q r e. absurd (b q r e);
  }

  pub Spares-mkdir : (p : FilePath) (m : ℕ) → IsUpper p → Spares o IsMarker (mkdir p m)
  Spares-mkdir p m h =
      spared (mkdir p m) p h (λ q e. e) (λ q e. absurd e) (λ q e. e) (λ q e. e) (λ q r e. e)

  pub Spares-unlink : (p : FilePath) → IsUpper p → Spares o IsMarker (unlink p)
  Spares-unlink p h =
      spared (unlink p) p h (λ q e. e) (λ q e. absurd e) (λ q e. e) (λ q e. e) (λ q r e. e)

  pub Spares-rmdir : (p : FilePath) → IsUpper p → Spares o IsMarker (rmdir p)
  Spares-rmdir p h =
      spared (rmdir p) p h (λ q e. e) (λ q e. absurd e) (λ q e. e) (λ q e. e) (λ q r e. e)

  pub Spares-mknod_whiteout : (p : FilePath) → IsUpper p → Spares o IsMarker (mknod_whiteout p)
  Spares-mknod_whiteout p h =
      spared (mknod_whiteout p) p h (λ q e. e) (λ q e. absurd e) (λ q e. e) (λ q e. e) (λ q r e. e)

  pub Spares-create_excl : (p : FilePath) (m : ℕ) → IsUpper p → Spares o IsMarker (create_excl p m)
  Spares-create_excl p m h =
      spared (create_excl p m) p h (λ q e. e) (λ q e. absurd e) (λ q e. e) (λ q e. e) (λ q r e. e)

  pub Spares-write_all : (p : FilePath) (s : Text) → IsUpper p → Spares o IsMarker (write_all p s)
  Spares-write_all p s h =
      spared (write_all p s) p h (λ q e. e) (λ q e. absurd e) (λ q e. e) (λ q e. e) (λ q r e. e)

  pub Spares-futimes : (p : FilePath) (a m : ℕ) → IsUpper p → Spares o IsMarker (futimes p a m)
  Spares-futimes p a m h =
      spared (futimes p a m) p h (λ q e. e) (λ q e. absurd e) (λ q e. e) (λ q e. e) (λ q r e. e)

  pub Spares-fchown : (p : FilePath) (u g : ℕ) → IsUpper p → Spares o IsMarker (fchown p u g)
  Spares-fchown p u g h =
      spared (fchown p u g) p h (λ q e. e) (λ q e. absurd e) (λ q e. e) (λ q e. e) (λ q r e. e)

  pub Spares-lchown : (p : FilePath) (u g : ℕ) → IsUpper p → Spares o IsMarker (lchown p u g)
  Spares-lchown p u g h =
      spared (lchown p u g) p h (λ q e. e) (λ q e. absurd e) (λ q e. e) (λ q e. e) (λ q r e. e)

  pub Spares-setxattr :
      (p : FilePath) (k v : Text) (f : ℕ) → IsUpper p → Spares o IsMarker (setxattr p k v f)
  Spares-setxattr p k v f h =
      spared (setxattr p k v f) p h (λ q e. e) (λ q e. absurd e) (λ q e. e) (λ q e. e) (λ q r e. e)

  pub Spares-removexattr :
      (p : FilePath) (k : Text) → IsUpper p → Spares o IsMarker (removexattr p k)
  Spares-removexattr p k h =
      spared (removexattr p k) p h (λ q e. e) (λ q e. absurd e) (λ q e. e) (λ q e. e) (λ q r e. e)

  pub Spares-creat : (p : FilePath) (m : ℕ) → IsMarker p → Spares o IsMarker (creat p m)
  Spares-creat p m h =
      spared (creat p m) p h.0 (λ q e. e) (λ q e. subst IsMarker (sym e) h) (λ q e. e) (λ q e. e)
        (λ q r e. e)

  pub Spares-symlink :
      (t : Text) (p : FilePath) → IsUpper p → ¬ (IsMarker p) → Spares o IsMarker (symlink t p)
  Spares-symlink t p h plain = record {
    touched = λ q e. subst IsUpper (sym e) h;
    named = λ q e. absurd e;
    followed = λ q e. absurd e;
    unlinked = λ q e m. plain (subst IsMarker e m);
    brought = λ q r e. absurd e;
  }

  pub Spares-link :
      (a b : FilePath) → IsUpper a → IsUpper b → ¬ (IsMarker b) → Spares o IsMarker (link a b)
  Spares-link a b ha hb plain = record {
    touched = λ q e. subst IsUpper (sym e) hb;
    named = λ q e. subst IsUpper (sym e) ha;
    followed = λ q e. absurd e;
    unlinked = λ q e. absurd e;
    brought = λ q r e m. absurd (plain (subst IsMarker e.1 m));
  }

  IsUpper-under : (p r : FilePath) → IsUpper p → IsUpper (p ++ r)
  IsUpper-under p r (q, e) = (q ++ r, ap (λ x. x ++ r) e ∙ append_assoc upper q r)

  IsMarker-moved :
      (a b r : FilePath) → IsUpper a → ¬ (IsMarker b) → IsMarker (b ++ r) → IsMarker (a ++ r)
  IsMarker-moved a b [] h plain m = absurd (plain (subst IsMarker (append-nil b) m))
  IsMarker-moved a b (c ∷ r) h plain (u, (n, e)) =
      (IsUpper-under a (c ∷ r) h, (n, last-append a c r ∙ sym (last-append b c r) ∙ e))

  pub Spares-rename :
      (a b : FilePath) → IsUpper a → IsUpper b → ¬ (IsMarker b) → Spares o IsMarker (rename a b)
  Spares-rename a b ha hb plain = record {
    touched = λ q u. elim u [
      | inl (r, e) ↦ subst IsUpper (sym e) (IsUpper-under a r ha)
      | inr (r, e) ↦ subst IsUpper (sym e) (IsUpper-under b r hb)
    ];
    named = λ q (r, e). subst IsUpper (sym e) (IsUpper-under a r ha);
    followed = λ q e. absurd e;
    unlinked = λ q e. absurd e;
    brought = λ p q (r, from, to) m.
        subst IsMarker (sym from) (IsMarker-moved a b r ha plain (subst IsMarker to m));
  }
