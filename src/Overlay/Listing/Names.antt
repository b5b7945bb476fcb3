-- ===== src/Overlay/Listing/Names.antt =====
-- Which names the two loops of `op_readdir` list.
use jaim.Prelude.{
  Bool, true, false, not, ◌&&◌, ◌||◌, List, [], ◌∷◌, ◌++◌, drop, Bool-cases, inl, inr, ◌≡◌, ◌≢◌,
  refl, ap, ◌∙◌, Text, text_eq, text_eq_iff, starts_with, arith,
}
use jaim.Overlay.Posix.{FilePath}
use jaim.Overlay.Resolve.{Overlay, at, wh_prefix, opaque_marker, is_whiteout_dev, holds}
use jaim.Overlay.Read.{is_marker, member, upper_loop, lower_loop}

pub member-append :
    (nm : Text) (xs ys : List Text) → member nm (xs ++ ys) ≡ (member nm xs || member nm ys)
unfolding member
member-append nm [] ys = refl
member-append nm (x ∷ xs) ys = ground (arith, member-append nm xs ys)

pub member-cons :
    (nm x : Text) (xs : List Text) → member nm (x ∷ xs) ≡ (text_eq nm x || member nm xs)
unfolding member
member-cons nm x xs = refl

pub member-nil : (nm : Text) → member nm [] ≡ false
unfolding member
member-nil nm = refl

-- A name that does not begin like a marker, and is not empty.
abbrev pub IsOrdinary : Text → Type 0
IsOrdinary nm = (starts_with wh_prefix nm ≡ false) × (nm ≢ [])

-- A text that begins like a marker is the prefix and what follows it.
starts_with-split : (x : Text) → starts_with wh_prefix x ≡ true → x ≡ wh_prefix ++ drop 4 x
unfolding starts_with
starts_with-split [] h = cc
starts_with-split (a ∷ []) h = ground arith
starts_with-split (a ∷ b ∷ []) h = ground arith
starts_with-split (a ∷ b ∷ c ∷ []) h = ground arith
starts_with-split (a ∷ b ∷ c ∷ d ∷ x) h = ground arith

starts_with_self : (x : Text) → starts_with wh_prefix (wh_prefix ++ x) ≡ true
unfolding starts_with
starts_with_self x = refl

-- Of two texts one of which begins like a marker, they are not the same.
ordinary-differs :
    (nm x : Text) → IsOrdinary nm → starts_with wh_prefix x ≡ true → text_eq nm x ≡ false
ordinary-differs nm x h e = elim (Bool-cases (text_eq nm x)) [
  | inl same ↦ ground (arith, h.0, ap (starts_with wh_prefix) ((text_eq_iff nm x).0 same))
  | inr differ ↦ differ
]

ordinary-not_opaque : (nm : Text) → IsOrdinary nm → text_eq nm opaque_marker ≡ false
unfolding starts_with
ordinary-not_opaque nm h = ordinary-differs nm opaque_marker h refl

ordinary-is_marker : (nm : Text) → IsOrdinary nm → is_marker nm ≡ false
unfolding is_marker
ordinary-is_marker nm h = ground (arith, h.0)

marker-split : (x : Text) → is_marker x ≡ true → x ≡ wh_prefix ++ drop 4 x
unfolding is_marker
marker-split x h = starts_with-split x (ground arith)

text_eq-prefix : (a b : Text) → text_eq (wh_prefix ++ a) (wh_prefix ++ b) ≡ text_eq a b
unfolding text_eq
text_eq-prefix a b = refl

marker-drop :
    (nm x : Text) → is_marker x ≡ true → text_eq (wh_prefix ++ nm) x ≡ text_eq nm (drop 4 x)
marker-drop nm x h =
    ap (text_eq (wh_prefix ++ nm)) (marker-split x h) ∙ text_eq-prefix nm (drop 4 x)

sidecar-IsMarker : (nm : Text) → nm ≢ [] → is_marker (wh_prefix ++ nm) ≡ true
unfolding is_marker starts_with
sidecar-IsMarker [] h = absurd (h refl)
sidecar-IsMarker (c ∷ s) h = ground arith

unmarked-differs :
    (nm x : Text) → IsOrdinary nm → is_marker x ≡ false → text_eq (wh_prefix ++ nm) x ≡ false
unmarked-differs nm x h e = elim (Bool-cases (text_eq (wh_prefix ++ nm) x)) [
  | inl same ↦
      ground
        (arith, sidecar-IsMarker nm h.1, ap is_marker ((text_eq_iff (wh_prefix ++ nm) x).0 same))
  | inr differ ↦ differ
]

sidecar-not_opaque : (nm : Text) → IsOrdinary nm → text_eq (wh_prefix ++ nm) opaque_marker ≡ false
sidecar-not_opaque nm h =
    text_eq-prefix nm (drop 4 opaque_marker)
    ∙ ordinary-differs nm (drop 4 opaque_marker) h (unfold starts_with in refl)

ordinary-other : (nm x : Text) → IsOrdinary nm → is_marker x ≡ true → text_eq nm x ≡ false
ordinary-other nm x h e = elim (Bool-cases (text_eq nm x)) [
  | inl same ↦ ground (arith, ordinary-is_marker nm h, ap is_marker ((text_eq_iff nm x).0 same))
  | inr differ ↦ differ
]

module _ (o : Overlay) where
  open o use {os}

  pub lower_loop-member :
      (nm : Text) (seen whited names : List Text)
      → member nm (lower_loop o seen whited names)
        ≡ (member nm names && (not (member nm whited) && not (member nm seen)))
  unfolding lower_loop
  lower_loop-member nm seen whited [] = ground (arith, member-nil nm)
  lower_loop-member nm seen whited (x ∷ names) = elim (Bool-cases (text_eq nm x)) [
    | inl e ↦
        let same = (text_eq_iff nm x).0 e in
        ground (
          arith,
          lower_loop-member nm seen whited names,
          member-cons nm x names,
          member-cons nm x (lower_loop o seen whited names),
          ap (λ y. member y whited) same,
          ap (λ y. member y seen) same,
        )
    | inr e ↦ ground (
      arith,
      lower_loop-member nm seen whited names,
      member-cons nm x names,
      member-cons nm x (lower_loop o seen whited names),
    )
  ]

  -- Whether the entry of a name in an upper directory is a whiteout device.
  abbrev pub is_device : os.Fs → FilePath → Text → Bool
  is_device fs up nm = holds is_whiteout_dev (os.lstat fs (at up nm))

  pub upper_loop-seen :
      (fs : os.Fs) (up : FilePath) (nm : Text) (names : List Text)
      → IsOrdinary nm
      → member nm (upper_loop o fs up names).0 ≡ (member nm names && not (is_device fs up nm))
  unfolding upper_loop
  upper_loop-seen fs up nm [] h = ground (arith, member-nil nm)
  upper_loop-seen fs up nm (x ∷ names) h = elim (Bool-cases (text_eq nm x)) [
    | inl e ↦
        let same = (text_eq_iff nm x).0 e in
        ground (
          arith,
          upper_loop-seen fs up nm names h,
          member-cons nm x names,
          member-cons nm x (upper_loop o fs up names).0,
          ap (λ y. text_eq y opaque_marker) same,
          ap is_marker same,
          ap (is_device fs up) same,
          ordinary-is_marker nm h,
          ordinary-not_opaque nm h,
        )
    | inr e ↦ ground (
      arith,
      upper_loop-seen fs up nm names h,
      member-cons nm x names,
      member-cons nm x (upper_loop o fs up names).0,
    )
  ]

  pub upper_loop-whited :
      (fs : os.Fs) (up : FilePath) (nm : Text) (names : List Text)
      → IsOrdinary nm
      → member nm (upper_loop o fs up names).1
        ≡ (member (wh_prefix ++ nm) names || (member nm names && is_device fs up nm))
  unfolding upper_loop
  upper_loop-whited fs up nm [] h = ground (arith, member-nil nm, member-nil (wh_prefix ++ nm))
  upper_loop-whited fs up nm (x ∷ names) h =
      let later = (upper_loop o fs up names).1 in
      elim (Bool-cases (text_eq x opaque_marker)) [
        | inl e ↦
            let same = (text_eq_iff x opaque_marker).0 e in
            ground (
              arith,
              upper_loop-whited fs up nm names h,
              member-cons nm x names,
              member-cons (wh_prefix ++ nm) x names,
              ap (text_eq nm) same,
              ap (text_eq (wh_prefix ++ nm)) same,
              ordinary-not_opaque nm h,
              sidecar-not_opaque nm h,
            )
        | inr e ↦ elim (Bool-cases (is_marker x)) [
          | inl marked ↦ ground (
            arith,
            upper_loop-whited fs up nm names h,
            member-cons nm x names,
            member-cons (wh_prefix ++ nm) x names,
            member-cons nm (drop 4 x) later,
            marker-drop nm x marked,
            ordinary-other nm x h marked,
          )
          | inr unmarked ↦ elim (Bool-cases (text_eq nm x)) [
            | inl same ↦ ground (
              arith,
              upper_loop-whited fs up nm names h,
              member-cons nm x names,
              member-cons (wh_prefix ++ nm) x names,
              member-cons nm x later,
              unmarked-differs nm x h unmarked,
              ap (is_device fs up) ((text_eq_iff nm x).0 same),
            )
            | inr differ ↦ ground (
              arith,
              upper_loop-whited fs up nm names h,
              member-cons nm x names,
              member-cons (wh_prefix ++ nm) x names,
              member-cons nm x later,
              unmarked-differs nm x h unmarked,
            )
          ]
        ]
      ]
