-- ===== src/Sandbox/Helper.antt =====
-- `find_overlay_helper` of jaim.cc: the search of jaim-overlay beside jaim and on PATH.
pub mod First
mod Tests
use jaim.Prelude.{
  ℕ, zero, suc, Bool, true, false, if◌then◌else◌, List, [], ◌∷◌, is_empty, length, Option, none,
  some, Text, codes, split_at,
}
use jaim.Fs.Paths.{join}

abbrev pub helper_name : Text
helper_name = codes "jaim-overlay"

-- `access(X_OK)` decides which candidates can be run.
module _ (runs : Text → Bool) where
  abbrev pub candidate : Text → Option Text
  candidate dir =
      if is_empty dir
      then none
      else if runs (join dir helper_name)
      then some (join dir helper_name)
      else none

  abbrev pub or_later : Option Text → Option Text → Option Text
  or_later none later = later
  or_later (some p) later = some p

  abbrev pub turn : (Text → Option Text) → Text → Option (Text × Text) → Option Text
  turn rest s none = candidate s
  turn rest s (some (before, after)) = or_later (candidate before) (rest after)

  -- The loop over PATH, of which each turn but the last takes a colon.
  unfoldable pub path_loop : ℕ → Text → Option Text
  path_loop zero s = none
  path_loop (suc fuel) [] = none
  path_loop (suc fuel) (c ∷ s) = turn (path_loop fuel) (c ∷ s) (split_at b':' (c ∷ s))

  abbrev pub beside : (Text → Text) → Text → Option Text
  beside parent_path prog =
      if is_empty prog
      then none
      else if runs (join (parent_path prog) helper_name)
      then some (join (parent_path prog) helper_name)
      else none

  abbrev pub on_path : Option Text → Option Text
  on_path none = none
  on_path (some path_env) = path_loop (suc (length path_env)) path_env

  -- None where jaim gives up; `weakly_canonical` of the result is left to the caller.
  unfoldable pub find_overlay_helper : (Text → Text) → Text → Option Text → Option Text
  find_overlay_helper parent_path prog path_env =
      or_later (beside parent_path prog) (on_path path_env)
