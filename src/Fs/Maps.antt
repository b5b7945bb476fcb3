-- ===== src/Fs/Maps.antt =====
-- `PathMap` and `PathSet` of fs.h, as lists in the order of `PathLess`.
pub mod Laws
pub mod Sets
use jaim.Fs.Paths.{path_less}
use jaim.Prelude.{
  ℕ, Bool, true, false, not, ◌&&◌, if◌then◌else◌, List, [], ◌∷◌, any, Option, none, some, Text,
}

-- Keys of which neither is before the other.
unfoldable pub same_path : Text → Text → Bool
same_path a b = not (path_less a b) && not (path_less b a)

module _ {V : Type 0} where
  unfoldable pub path_find : Text → List (Text × V) → Option V
  path_find k [] = none
  path_find k ((x, v) ∷ m) = if same_path x k then some v else path_find k m

  -- `emplace`, which changes nothing where the key is there.
  unfoldable pub path_emplace : Text → V → List (Text × V) → List (Text × V)
  path_emplace k v [] = (k, v) ∷ []
  path_emplace k v ((x, w) ∷ m) =
      let later = path_emplace k v m in
      if path_less k x
      then (k, v) ∷ (x, w) ∷ m
      else if path_less x k
      then (x, w) ∷ later
      else (x, w) ∷ m

  -- `erase`: a key stands in a map once.
  unfoldable pub path_erase : Text → List (Text × V) → List (Text × V)
  path_erase k [] = []
  path_erase k ((x, v) ∷ m) =
      let later = path_erase k m in if same_path x k then later else (x, v) ∷ later

-- Whether a set has a path.
unfoldable pub has_path : Text → List Text → Bool
has_path p s = any (λ x. same_path x p) s

unfoldable pub set_emplace : Text → List Text → List Text
set_emplace k [] = k ∷ []
set_emplace k (x ∷ s) =
    let later = set_emplace k s in
    if path_less k x then k ∷ x ∷ s else if path_less x k then x ∷ later else x ∷ s

unfoldable pub set_erase : Text → List Text → List Text
set_erase k [] = []
set_erase k (x ∷ s) = let later = set_erase k s in if same_path x k then later else x ∷ later
