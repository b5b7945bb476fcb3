-- ===== src/Overlay/Gone.antt =====
-- When a path of the mount resolves to nothing.
use jaim.Prelude.{
  Bool, true, false, ◌&&◌, ◌||◌, List, [], ◌∷◌, ◌++◌, Option, none, some, ◌≡◌, refl, sym, ap, subst,
  ◌⊎◌, err, if◌then◌else◌, Text, arith, append_assoc, append-nil,
}
use jaim.Overlay.Posix.{FilePath, Stat, Posix, enoent}
use jaim.Overlay.Resolve.{
  wh_prefix, at, is_reg, is_dir, is_whiteout_dev, Resolved, nowhere, whiteout, in_upper, in_lower,
  holds, is_opaque_dir, walk, Overlay, resolve, found,
}
use jaim.Overlay.Whiteout.{split}

-- A leaf that is marked as deleted by a sidecar or by a device, or that is in neither layer.
abbrev pub Hides : (os : Posix) → os.Fs → FilePath → FilePath → FilePath → Type 0
Hides os fs sidecar up lo =
    (holds is_reg (os.lstat fs sidecar) ≡ true)
    ⊎ ((holds is_whiteout_dev (os.lstat fs up) ≡ true)
        ⊎ ((os.lstat fs up ≡ none) × (os.lstat fs lo ≡ none)))

leaf-gone :
    (b op : Bool) (u l : Option Stat) (up lo : FilePath)
    → (b ≡ true) ⊎ ((holds is_whiteout_dev u ≡ true) ⊎ ((u ≡ none) × (l ≡ none)))
    → found (
        if b then whiteout else elim u [
          | some sb ↦ if is_whiteout_dev sb then whiteout else in_upper up sb
          | none ↦ if op then nowhere else elim l [ some sb ↦ in_lower lo sb | none ↦ nowhere ]
        ])
      ≡ err enoent
unfolding found
leaf-gone b op u l up lo h = ground arith

node-gone :
    (b op : Bool) (u l : Option Stat) (opaque : Stat → Bool) (later : Bool → Resolved)
    → ((op' : Bool) → found (later op') ≡ err enoent)
    → found (
        if b then whiteout else elim u [
          | some sb ↦
              if is_whiteout_dev sb then whiteout else later (op || (is_dir sb && opaque sb))
          | none ↦ if op then nowhere else elim l [ some sb ↦ later op | none ↦ nowhere ]
        ])
      ≡ err enoent
unfolding found
node-gone true op u l opaque later h = refl
node-gone false op (some sb) l opaque later h =
    let h' = h (op || (is_dir sb && opaque sb)) in ground arith
node-gone false op none l opaque later h = ground (arith, h op)

module _ (os : Posix) (fs : os.Fs) where
  abbrev HidesAt : FilePath → FilePath → Text → List Text → Type 0
  HidesAt up lo comp [] = Hides os fs (at up (wh_prefix ++ comp)) (at up comp) (at lo comp)
  HidesAt up lo comp (next ∷ rest) = HidesAt (at up comp) (at lo comp) next rest

  walk-gone :
      (op : Bool) (up lo : FilePath) (comp : Text) (rest : List Text)
      → HidesAt up lo comp rest
      → found (walk os fs op up lo comp rest) ≡ err enoent
  unfolding walk
  walk-gone op up lo comp [] h =
      leaf-gone (holds is_reg (os.lstat fs (at up (wh_prefix ++ comp)))) op
        (os.lstat fs (at up comp)) (os.lstat fs (at lo comp)) (at up comp) (at lo comp) h
  walk-gone op up lo comp (next ∷ rest) h =
      node-gone (holds is_reg (os.lstat fs (at up (wh_prefix ++ comp)))) op
        (os.lstat fs (at up comp)) (os.lstat fs (at lo comp))
        (λ sb. is_opaque_dir os fs (at up comp))
        (λ op'. walk os fs op' (at up comp) (at lo comp) next rest)
        (λ op'. walk-gone op' (at up comp) (at lo comp) next rest h)

  Hides-same :
      (a a' b b' c c' : FilePath)
      → a ≡ a'
      → b ≡ b'
      → c ≡ c'
      → Hides os fs a b c
      → Hides os fs a' b' c'
  Hides-same a a' b b' c c' p q r h =
      subst (λ x. Hides os fs x b' c') p
        (subst (λ x. Hides os fs a x c') q (subst (λ x. Hides os fs a b x) r h))

  HidesAt-Hides :
      (up lo : FilePath) (comp : Text) (rest : List Text)
      → Hides os fs
          (at (up ++ (split (comp ∷ rest)).0) (wh_prefix ++ (split (comp ∷ rest)).1))
          (up ++ (comp ∷ rest))
          (lo ++ (comp ∷ rest))
      → HidesAt up lo comp rest
  unfolding split
  HidesAt-Hides up lo comp [] h =
      subst (λ p. Hides os fs (at p (wh_prefix ++ comp)) (at up comp) (at lo comp)) (append-nil up)
        h
  HidesAt-Hides up lo comp (next ∷ rest) h =
      let parent = (split (next ∷ rest)).0 in
      HidesAt-Hides (at up comp) (at lo comp) next rest (
        Hides-same _ _ _ _ _ _
          (ap (λ p. at p (wh_prefix ++ (split (next ∷ rest)).1))
            (sym (append_assoc up (comp ∷ []) parent)))
          (sym (append_assoc up (comp ∷ []) (next ∷ rest)))
          (sym (append_assoc lo (comp ∷ []) (next ∷ rest))) h)

module _ (o : Overlay) where
  open o use {os, upper, lower}

  -- The entry at a path is hidden by the upper layer, or is in neither.
  abbrev pub IsHidden : os.Fs → FilePath → Type 0
  IsHidden fs path =
      Hides os fs (at (upper ++ (split path).0) (wh_prefix ++ (split path).1)) (upper ++ path)
        (lower ++ path)

  pub IsHidden-gone :
      (fs : os.Fs) (first : Text) (others : List Text)
      → IsHidden fs (first ∷ others)
      → found (resolve o fs (first ∷ others)) ≡ err enoent
  unfolding resolve
  IsHidden-gone fs first others h =
      walk-gone os fs false upper lower first others
        (HidesAt-Hides os fs upper lower first others h)
