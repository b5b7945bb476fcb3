-- ===== src/Sandbox/Helper/First.antt =====
-- Which helper `find_overlay_helper` of jaim.cc finds.
use jaim.Prelude.{
  ℕ, ◌==◌, Bool, if◌then◌else◌, List, [], ◌∷◌, ◌++◌, All, is_empty, true, false, codes, Option,
  none, some, Text, ◌≡◌,
}
use jaim.Fs.Paths.{join}

abbrev pub put_first : ℕ → List Text → List Text
put_first c [] = (c ∷ []) ∷ []
put_first c (s ∷ rest) = (c ∷ s) ∷ rest

-- The fields of a text between its colons.
pub fields : Text → List Text
fields [] = [] ∷ []
fields (c ∷ s) = let rest = fields s in if c == b':' then [] ∷ rest else put_first c rest

-- What split_at gives, put together.
abbrev joined : Text → Option (Text × Text) → List Text
joined s none = s ∷ []
joined s (some (before, after)) = before ∷ fields after

-- The paths that may be the helper's, in the order of the search: the one beside the program, where
-- the program has a name, and one for each field of PATH that is not empty.
pub on_dirs : List Text → List Text
on_dirs [] = []
on_dirs (d ∷ dirs) =
    let rest = on_dirs dirs in if is_empty d then rest else join d (codes "jaim-overlay") ∷ rest

abbrev pub path_dirs : Option Text → List Text
path_dirs none = []
path_dirs (some path_env) = on_dirs (fields path_env)

abbrev pub places : (Text → Text) → Text → Option Text → List Text
places parent_path prog path_env =
    if is_empty prog
    then path_dirs path_env
    else join (parent_path prog) (codes "jaim-overlay") ∷ path_dirs path_env

module _ (runs : Text → Bool) where
  -- The answer is the first of the places that can be run, or none can be.
  abbrev pub IsFirst : List Text → Option Text → Type 0
  IsFirst ps none = All (λ p. runs p ≡ false) ps
  IsFirst ps (some p) =
      (before : List Text) × (after : List Text) × (ps ≡ before ++ p ∷ after)
      × All (λ q. runs q ≡ false) before
      × (runs p ≡ true)
