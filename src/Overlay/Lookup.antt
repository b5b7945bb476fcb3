-- ===== src/Overlay/Lookup.antt =====
-- What `resolve` of overlay.cc finds, in terms of the two layers.
use jaim.Prelude.{
  Bool, true, false, ◌&&◌, ◌||◌, List, [], ◌∷◌, ◌++◌, Option, none, some, ◌≡◌, refl, sym, ap, subst,
  ◌∙◌, if◌then◌else◌, Text, arith, append_assoc,
}
use jaim.Overlay.Posix.{FilePath, Stat, Posix, HasKind, directory}
use jaim.Overlay.Resolve.{
  wh_prefix, at, is_reg, is_dir, is_whiteout_dev, Resolved, nowhere, whiteout, in_upper, in_lower,
  holds, is_opaque_dir, walk, Overlay, resolve,
}

cons-head : {c d : Text} {p q : List Text} → c ∷ p ≡ d ∷ q → c ≡ d
cons-head e = cc

cons-tail : {c d : Text} {p q : List Text} → c ∷ p ≡ d ∷ q → p ≡ q
cons-tail e = cc

module _ (os : Posix) (fs : os.Fs) where
  -- No directory that is passed on the way to `path` is marked opaque in upper.
  abbrev pub NoOpaqueAbove : FilePath → FilePath → Type 0
  NoOpaqueAbove up path =
      (c : Text) (p r : FilePath) (d : Text)
      → path ≡ c ∷ (p ++ (d ∷ r))
      → HasKind directory (os.lstat fs (up ++ (c ∷ p)))
      → is_opaque_dir os fs (up ++ (c ∷ p)) ≡ false

  -- The answer for a path below `up` and `lo`, where `op` says that lower is hidden.
  abbrev pub IsFound : Bool → FilePath → FilePath → FilePath → Resolved → Type 0
  IsFound op up lo path nowhere = Unit {0}
  IsFound op up lo path whiteout = Unit {0}
  IsFound op up lo path (in_upper q sb) = (q ≡ up ++ path) × (os.lstat fs q ≡ some sb)
  IsFound op up lo path (in_lower q sb) =
      (q ≡ lo ++ path)
      × (os.lstat fs q ≡ some sb)
      × (os.lstat fs (up ++ path) ≡ none)
      × (op ≡ false)
      × NoOpaqueAbove up path

  one-NoOpaqueAbove : (up : FilePath) (comp : Text) → NoOpaqueAbove up (comp ∷ [])
  one-NoOpaqueAbove up comp c [] r d e k = cc
  one-NoOpaqueAbove up comp c (x ∷ p) r d e k = cc

  leaf-IsFound :
      (b op : Bool) (u l : Option Stat) (up lo : FilePath) (comp : Text)
      → os.lstat fs (at up comp) ≡ u
      → os.lstat fs (at lo comp) ≡ l
      → IsFound op up lo (comp ∷ []) (
          if b then whiteout else elim u [
            | some sb ↦ if is_whiteout_dev sb then whiteout else in_upper (at up comp) sb
            | none ↦
                if op
                then nowhere
                else elim l [ some sb ↦ in_lower (at lo comp) sb | none ↦ nowhere ]
          ])
  leaf-IsFound true op u l up lo comp e f = tt
  leaf-IsFound false op (some sb) l up lo comp e f = by_device (is_whiteout_dev sb)
    where
      by_device :
          (w : Bool)
          → IsFound op up lo (comp ∷ []) (if w then whiteout else in_upper (at up comp) sb)
      by_device true = tt
      by_device false = (refl, e)
  leaf-IsFound false true none l up lo comp e f = tt
  leaf-IsFound false false none none up lo comp e f = tt
  leaf-IsFound false false none (some sb) up lo comp e f =
      (refl, f, e, refl, one-NoOpaqueAbove up comp)

  -- An answer below a directory is one below its parent.
  later-IsFound :
      (op op' : Bool) (up lo : FilePath) (comp next : Text) (rest : List Text) (r : Resolved)
      → (op' ≡ false → op ≡ false)
      → (op' ≡ false
          → HasKind directory (os.lstat fs (at up comp))
          → is_opaque_dir os fs (at up comp) ≡ false)
      → IsFound op' (at up comp) (at lo comp) (next ∷ rest) r
      → IsFound op up lo (comp ∷ next ∷ rest) r
  later-IsFound op op' up lo comp next rest nowhere h k i = tt
  later-IsFound op op' up lo comp next rest whiteout h k i = tt
  later-IsFound op op' up lo comp next rest (in_upper q sb) h k (place, there) =
      (place ∙ append_assoc up (comp ∷ []) (next ∷ rest), there)
  later-IsFound op op' up lo comp next rest (in_lower q sb) h k
        (place, there, absent, open_here, clear) =
      (
        place ∙ append_assoc lo (comp ∷ []) (next ∷ rest),
        there,
        ap (os.lstat fs) (sym (append_assoc up (comp ∷ []) (next ∷ rest))) ∙ absent,
        h open_here,
        above,
      )
    where
      above : NoOpaqueAbove up (comp ∷ next ∷ rest)
      above c [] r d e kind =
          let same = cons-head e in
          subst (λ x. is_opaque_dir os fs (at up x) ≡ false) same
            (k open_here (subst (λ x. HasKind directory (os.lstat fs (at up x))) (sym same) kind))
      above c (x ∷ p) r d e kind =
          let moved =
            append_assoc up (comp ∷ []) (x ∷ p) ∙ ap (λ y. up ++ (y ∷ x ∷ p)) (cons-head e) in
          subst (λ y. is_opaque_dir os fs y ≡ false) moved
            (clear x p r d (cons-tail e)
              (subst (λ y. HasKind directory (os.lstat fs y)) (sym moved) kind))

  node-IsFound :
      (b op : Bool) (u l : Option Stat) (up lo : FilePath) (comp next : Text) (rest : List Text)
      (later : Bool → Resolved)
      → os.lstat fs (at up comp) ≡ u
      → ((op' : Bool) → IsFound op' (at up comp) (at lo comp) (next ∷ rest) (later op'))
      → IsFound op up lo (comp ∷ next ∷ rest) (
          if b then whiteout else elim u [
            | some sb ↦
                if is_whiteout_dev sb
                then whiteout
                else later (op || (is_dir sb && is_opaque_dir os fs (at up comp)))
            | none ↦ if op then nowhere else elim l [ some sb ↦ later op | none ↦ nowhere ]
          ])
  node-IsFound true op u l up lo comp next rest later e h = tt
  node-IsFound false op (some sb) l up lo comp next rest later e h = by_device (is_whiteout_dev sb)
    where
      by_device :
          (w : Bool)
          → IsFound op up lo (comp ∷ next ∷ rest) (
              if w then whiteout else later (op || (is_dir sb && is_opaque_dir os fs (at up comp))))
      by_device true = tt
      by_device false =
          later-IsFound op (op || (is_dir sb && is_opaque_dir os fs (at up comp))) up lo comp next
            rest (later (op || (is_dir sb && is_opaque_dir os fs (at up comp))))
            (λ clear. ground arith) (λ clear (sb', here, kind). ground arith)
            (h (op || (is_dir sb && is_opaque_dir os fs (at up comp))))
  node-IsFound false true none l up lo comp next rest later e h = tt
  node-IsFound false false none none up lo comp next rest later e h = tt
  node-IsFound false false none (some sb) up lo comp next rest later e h =
      later-IsFound false false up lo comp next rest (later false) (λ clear. refl)
        (λ clear (sb', here, kind). cc) (h false)

  walk-IsFound :
      (op : Bool) (up lo : FilePath) (comp : Text) (rest : List Text)
      → IsFound op up lo (comp ∷ rest) (walk os fs op up lo comp rest)
  unfolding walk
  walk-IsFound op up lo comp [] =
      leaf-IsFound (holds is_reg (os.lstat fs (at up (wh_prefix ++ comp)))) op
        (os.lstat fs (at up comp)) (os.lstat fs (at lo comp)) up lo comp refl refl
  walk-IsFound op up lo comp (next ∷ rest) =
      node-IsFound (holds is_reg (os.lstat fs (at up (wh_prefix ++ comp)))) op
        (os.lstat fs (at up comp)) (os.lstat fs (at lo comp)) up lo comp next rest
        (λ op'. walk os fs op' (at up comp) (at lo comp) next rest) refl
        (λ op'. walk-IsFound op' (at up comp) (at lo comp) next rest)

-- What `resolve` finds below the root is there: an answer in a layer is the path in that layer with
-- its status; one in lower is given only where upper has nothing at the path and no directory of
-- upper on the way to it is marked opaque.
pub resolve-IsFound :
    (o : Overlay) (fs : o.os.Fs) (first : Text) (others : List Text)
    → IsFound o.os fs false o.upper o.lower (first ∷ others) (resolve o fs (first ∷ others))
unfolding resolve
resolve-IsFound o fs first others = walk-IsFound o.os fs false o.upper o.lower first others
