-- ===== src/Overlay/Listing/Below.antt =====
-- The lookup of a name in a directory that is itself found.
use jaim.Prelude.{
  Bool, true, false, ◌&&◌, ◌||◌, List, [], ◌∷◌, ◌++◌, Option, none, some, ok, ◌≡◌, refl, ap, subst,
  ◌∙◌, if◌then◌else◌, Text, arith, append_assoc,
}
use jaim.Overlay.Posix.{FilePath, Stat, Posix}
use jaim.Overlay.Resolve.{
  wh_prefix, at, is_reg, is_dir, is_whiteout_dev, Resolved, nowhere, whiteout, in_upper, in_lower,
  holds, is_opaque_dir, walk, found,
}

module _ (os : Posix) (fs : os.Fs) where
  -- Whether a path of upper is a directory that hides what lower has below it.
  abbrev pub is_opaque : FilePath → Bool
  is_opaque up = holds is_dir (os.lstat fs up) && is_opaque_dir os fs up

  -- No directory that is passed on the way hides lower.
  abbrev pub IsClear : FilePath → Text → List Text → Type 0
  IsClear up comp [] = Unit {0}
  IsClear up comp (next ∷ rest) = (is_opaque (at up comp) ≡ false) × IsClear (at up comp) next rest

  leaf-below :
      (b op : Bool) (u l : Option Stat) (q : Bool) (up lo : FilePath) (later : Bool → Resolved)
      (r : FilePath × Stat)
      → found (
          if b then whiteout else elim u [
            | some sb ↦ if is_whiteout_dev sb then whiteout else in_upper up sb
            | none ↦ if op then nowhere else elim l [ some sb ↦ in_lower lo sb | none ↦ nowhere ]
          ])
        ≡ ok r
      → (if b then whiteout else elim u [
        | some sb ↦ if is_whiteout_dev sb then whiteout else later (op || (is_dir sb && q))
        | none ↦ if op then nowhere else elim l [ some sb ↦ later op | none ↦ nowhere ]
      ])
        ≡ later (op || (holds is_dir u && q))
  unfolding found
  leaf-below true op u l q up lo later r e = cc
  leaf-below false op (some sb) l q up lo later r e = ground arith
  leaf-below false true none l q up lo later r e = cc
  leaf-below false false none none q up lo later r e = cc
  leaf-below false false none (some sb) q up lo later r e = refl

  node-below :
      (b op : Bool) (u l : Option Stat) (q : Bool) (before later : Bool → Resolved)
      (target : Resolved) (r : FilePath × Stat)
      → (holds is_dir u && q) ≡ false
      → found (
          if b then whiteout else elim u [
            | some sb ↦ if is_whiteout_dev sb then whiteout else before (op || (is_dir sb && q))
            | none ↦ if op then nowhere else elim l [ some sb ↦ before op | none ↦ nowhere ]
          ])
        ≡ ok r
      → (found (before op) ≡ ok r → later op ≡ target)
      → (if b then whiteout else elim u [
        | some sb ↦ if is_whiteout_dev sb then whiteout else later (op || (is_dir sb && q))
        | none ↦ if op then nowhere else elim l [ some sb ↦ later op | none ↦ nowhere ]
      ])
        ≡ target
  unfolding found
  node-below true op u l q before later target r c e h = cc
  node-below false op (some sb) l q before later target r c e h =
      by_device (is_whiteout_dev sb) (op || (is_dir sb && q)) (ground arith) e
    where
      by_device :
          (w op' : Bool)
          → op' ≡ op
          → found (if w then whiteout else before op') ≡ ok r
          → (if w then whiteout else later op') ≡ target
      by_device true op' same e' = cc
      by_device false op' same e' = ap later same ∙ h (subst (λ x. found (before x) ≡ ok r) same e')
  node-below false true none l q before later target r c e h = cc
  node-below false false none none q before later target r c e h = cc
  node-below false false none (some sb) q before later target r c e h = h e

  -- A name below a directory that is found is looked up there, with lower hidden if the directory
  -- hides it.
  pub walk-below :
      (op : Bool) (up lo : FilePath) (comp : Text) (rest : List Text) (nm : Text)
      (r : FilePath × Stat)
      → IsClear up comp rest
      → found (walk os fs op up lo comp rest) ≡ ok r
      → walk os fs op up lo comp (rest ++ (nm ∷ []))
        ≡ walk os fs
            (op || is_opaque (up ++ (comp ∷ rest)))
            (up ++ (comp ∷ rest))
            (lo ++ (comp ∷ rest))
            nm
            []
  unfolding walk
  walk-below op up lo comp [] nm r c e =
      leaf-below (holds is_reg (os.lstat fs (at up (wh_prefix ++ comp)))) op
        (os.lstat fs (at up comp)) (os.lstat fs (at lo comp)) (is_opaque_dir os fs (at up comp))
        (at up comp) (at lo comp) (λ op'. walk os fs op' (at up comp) (at lo comp) nm []) r e
  walk-below op up lo comp (next ∷ rest) nm r c e =
      node-below (holds is_reg (os.lstat fs (at up (wh_prefix ++ comp)))) op
        (os.lstat fs (at up comp)) (os.lstat fs (at lo comp)) (is_opaque_dir os fs (at up comp))
        (λ op'. walk os fs op' (at up comp) (at lo comp) next rest)
        (λ op'. walk os fs op' (at up comp) (at lo comp) next (rest ++ (nm ∷ []))) _ r c.0 e
        (λ e'.
          walk-below op (at up comp) (at lo comp) next rest nm r c.1 e'
          ∙ places (append_assoc up (comp ∷ []) (next ∷ rest))
              (append_assoc lo (comp ∷ []) (next ∷ rest)))
    where
      places :
          {a a' b b' : FilePath}
          → a ≡ a'
          → b ≡ b'
          → walk os fs (op || is_opaque a) a b nm [] ≡ walk os fs (op || is_opaque a') a' b' nm []
      places {a} {a'} {b} {b'} p q =
          ap (λ x. walk os fs (op || is_opaque x) x b nm []) p
          ∙ ap (λ y. walk os fs (op || is_opaque a') a' y nm []) q
