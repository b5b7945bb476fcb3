-- ===== src/Overlay/Resolve.antt =====
-- `resolve` of overlay.cc: which layer a path of the mount is found in.
use jaim.Prelude.{
  Result, ok, err, Bool, true, false, ◌&&◌, ◌||◌, List, [], ◌∷◌, ◌++◌, Option, none, some, ◌==◌,
  if◌then◌else◌, Text, codes,
}
use jaim.Overlay.Posix.{
  FilePath, Errno, enoent, regular, directory, symbolic_link, char_device, Stat, Posix,
}

abbrev pub wh_prefix : Text
wh_prefix = codes ".wh."

abbrev pub opaque_marker : Text
opaque_marker = codes ".wh..wh..opq"

-- `base + "/" + name`.
abbrev pub at : FilePath → Text → FilePath
at base name = base ++ name ∷ []

abbrev pub is_reg : Stat → Bool
is_reg sb = elim sb.kind [ regular ↦ true | _ ↦ false ]

abbrev pub is_dir : Stat → Bool
is_dir sb = elim sb.kind [ directory ↦ true | _ ↦ false ]

abbrev pub is_lnk : Stat → Bool
is_lnk sb = elim sb.kind [ symbolic_link ↦ true | _ ↦ false ]

unfoldable pub is_whiteout_dev : Stat → Bool
is_whiteout_dev sb = elim sb.kind [ char_device ↦ sb.major == 0 && sb.minor == 0 | _ ↦ false ]

-- `Where` with the `Resolved` fields that it comes with.
pub data Resolved : Type 0 where
  nowhere whiteout : Resolved
  in_upper in_lower : FilePath → Stat → Resolved

abbrev pub holds : (Stat → Bool) → Option Stat → Bool
holds p none = false
holds p (some sb) = p sb

abbrev pub is_some {ℓ} : {A : Type ℓ} → Option A → Bool
is_some none = false
is_some (some a) = true

module _ (os : Posix) where
  open os use {Fs, lstat}

  unfoldable pub is_opaque_dir : Fs → FilePath → Bool
  is_opaque_dir fs dir = is_some (lstat fs (at dir opaque_marker))

  -- The loop at the component `comp` of the path, with `rest` behind it: `up` and `lo` are the two
  -- layers' paths of the components before it, `opaque_above` is set if lower is hidden here.
  unfoldable pub walk : Fs → Bool → FilePath → FilePath → Text → List Text → Resolved
  unfolding is_opaque_dir is_whiteout_dev
  walk fs opaque_above up lo comp [] =
      if holds is_reg (lstat fs (at up (wh_prefix ++ comp)))
      then whiteout
      else elim (lstat fs (at up comp)) [
        | some sb ↦ if is_whiteout_dev sb then whiteout else in_upper (at up comp) sb
        | none ↦ if opaque_above then nowhere else elim (lstat fs (at lo comp)) [
          | some sb ↦ in_lower (at lo comp) sb
          | none ↦ nowhere
        ]
      ]
  walk fs opaque_above up lo comp (next ∷ rest) =
      let later = λ (o : Bool). walk fs o (at up comp) (at lo comp) next rest in
      if holds is_reg (lstat fs (at up (wh_prefix ++ comp)))
      then whiteout
      else elim (lstat fs (at up comp)) [
        | some sb ↦
            if is_whiteout_dev sb
            then whiteout
            else later (opaque_above || (is_dir sb && is_opaque_dir fs (at up comp)))
        | none ↦
            if opaque_above
            then nowhere
            else elim (lstat fs (at lo comp)) [ some sb ↦ later opaque_above | none ↦ nowhere ]
      ]

-- The members of `Overlay` that do not change: the system, and the paths of the two layers.
pub record Overlay : Type 1 where
  pub os : Posix
  pub upper : FilePath
  pub lower : FilePath

module _ (o : Overlay) where
  open o use {os, upper, lower}
  open os use {Fs, lstat}

  unfoldable pub resolve : Fs → FilePath → Resolved
  unfolding walk
  resolve fs [] = elim (lstat fs upper) [
    | some sb ↦ in_upper upper sb
    | none ↦ elim (lstat fs lower) [ some sb ↦ in_lower lower sb | none ↦ nowhere ]
  ]
  resolve fs (comp ∷ rest) = walk os fs false upper lower comp rest

-- What most operations begin with: -ENOENT, or the path and the status of what was found.
unfoldable pub found : Resolved → Result Errno (FilePath × Stat)
found nowhere = err enoent
found whiteout = err enoent
found (in_upper p sb) = ok (p, sb)
found (in_lower p sb) = ok (p, sb)
