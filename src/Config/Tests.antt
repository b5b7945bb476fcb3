-- ===== src/Config/Tests.antt =====
-- Runs of the variable expansion.
use jaim.Prelude.{
  Option, ok, ◌++◌, arith, ◌≡◌, refl, true, List, [], ◌∷◌, some, none, Text, codes, text_eq,
  split_at, contains_byte, Avoids, if◌then◌else◌,
}
use jaim.Fs.Glob.{glob}
use jaim.Options.Action.{text_lt}
use jaim.Config.Expand.{var_expand}
use jaim.Config.Expand.Laws.{Piece, literal, write, values, var_expand-write}
use jaim.Config.Environment.{Environment, find, make_env, unset, set, expand, is_filtered}
use jaim.Config.Environment.Lookup.{or_else, named, find-make_env}
use jaim.Config.Environment.Setting.{find-set}

-- The environment of the runs has HOME alone.
abbrev environment : Text → Text
environment name = if text_eq name (codes "HOME") then codes "/Users/a" else []

abbrev template : List Piece
template = literal (codes "$1 ") ∷ Piece.named (codes "HOME") ∷ literal (codes "/.jaim") ∷ []

home_is_closed : Avoids b'}' (codes "HOME")
home_is_closed = (
  (λ e. absurd (omega arith)),
  ((λ e. absurd (omega arith)), ((λ e. absurd (omega arith)), ((λ e. absurd (omega arith)), tt))),
)

var_expand-write_example : var_expand (write template) environment ≡ values environment template
var_expand-write_example = var_expand-write environment template (tt, (home_is_closed, (tt, tt)))

abbrev settings : Environment
settings = record {
  env_filter = codes "*_TOKEN" ∷ codes "DISPLAY" ∷ [];
  setenv = (codes "EDITOR", codes "EDITOR=vi") ∷ [];
}

abbrev parent : List Text
parent = codes "EDITOR=ed" ∷ codes "GH_TOKEN=x" ∷ codes "LANG=C" ∷ []

find-make_env_example :
    find (codes "LANG") (make_env settings parent)
    ≡ or_else (find (codes "LANG") settings.setenv) (
        if is_filtered settings.env_filter (codes "LANG")
        then none
        else named (codes "LANG") parent)
find-make_env_example = find-make_env settings parent (codes "LANG")

editor_matches : glob (codes "E*") (codes "EDITOR") ≡ true
unfolding glob
editor_matches = refl

-- A name with a backslash matches as a pattern where it is set, and is compared as it is where the
-- parent's environment is filtered.
escaped_name_is_passed :
    find (codes "AB") (make_env (unset (codes "A\\B") settings) (codes "AB=1" ∷ []))
    ≡ some (codes "AB=1")
unfolding find make_env unset split_at text_eq text_lt contains_byte glob
escaped_name_is_passed = refl

abbrev no_environment : Text → Option Text
no_environment var = none

name_has_no_equals : Avoids b'=' (codes "GH_TOKEN")
name_has_no_equals = (
  (λ e. absurd (omega arith)),
  (
    (λ e. absurd (omega arith)),
    (
      (λ e. absurd (omega arith)),
      (
        (λ e. absurd (omega arith)),
        (
          (λ e. absurd (omega arith)),
          (
            (λ e. absurd (omega arith)),
            ((λ e. absurd (omega arith)), ((λ e. absurd (omega arith)), tt)),
          ),
        ),
      ),
    ),
  ),
)

find-set_example :
    (r : Option Text × Environment) × (set no_environment true
        (codes "GH_TOKEN" ++ (b'=' ∷ codes "y"))
        settings
      ≡ ok r)
    × (find (codes "GH_TOKEN") (make_env r.1 parent)
        ≡ some (codes "GH_TOKEN" ++ (b'=' ∷ expand no_environment true settings (codes "y"))))
find-set_example =
    find-set no_environment true (codes "GH_TOKEN") (codes "y") settings parent name_has_no_equals
