-- ===== src/Config/Environment.antt =====
-- The environment of the sandboxed program: `--unsetenv`, `--setenv` and `make_env` of jaim.cc,
-- `env_lookup` and `expand` of jaim.h.
pub mod Lookup
pub mod Setting
use jaim.Prelude.{
  Bool, true, false, not, ◌&&◌, ◌||◌, List, [], ◌∷◌, ◌++◌, any, Option, none, some, Result, ok, err,
  if◌then◌else◌, Text, codes, text_eq, contains_byte, split_at,
}
use jaim.Fs.Glob.{glob}
use jaim.Config.Expand.{var_expand}
use jaim.Options.Action.{text_lt}

-- `setenv_`: a map, in the order of its keys.
abbrev pub Variables : Type 0
Variables = List (Text × Text)

unfoldable pub find : Text → Variables → Option Text
find k [] = none
find k ((x, v) ∷ m) = if text_eq x k then some v else find k m

-- `insert_or_assign`.
unfoldable pub put : Text → Text → Variables → Variables
put k v [] = (k, v) ∷ []
put k v ((x, w) ∷ m) =
    let later = put k v m in
    if text_eq x k then (k, v) ∷ m else if text_lt k x then (k, v) ∷ (x, w) ∷ m else (x, w) ∷ later

abbrev pub is_found : Option Text → Bool
is_found none = false
is_found (some v) = true

-- `try_emplace`.
unfoldable pub put_new : Text → Text → Variables → Variables
unfolding find put
put_new k v m = if is_found (find k m) then m else put k v m

-- `erase_if(setenv_, ...)`.
unfoldable pub drop_matching : Text → Variables → Variables
drop_matching pattern [] = []
drop_matching pattern ((x, v) ∷ m) =
    let later = drop_matching pattern m in if glob pattern x then later else (x, v) ∷ later

-- `env_filter_`, a set; `emplace` and `erase`.
unfoldable pub emplace : Text → List Text → List Text
emplace p [] = p ∷ []
emplace p (x ∷ s) =
    let later = emplace p s in
    if text_eq x p then x ∷ s else if text_lt p x then p ∷ x ∷ s else x ∷ later

unfoldable pub forget : Text → List Text → List Text
forget p [] = []
forget p (x ∷ s) = let later = forget p s in if text_eq x p then s else x ∷ later

pub record Environment : Type 0 where
  pub env_filter : List Text
  pub setenv : Variables

abbrev pub matches_any : List Text → Text → Bool
matches_any patterns name = any (λ pat. glob pat name) patterns

unfoldable pub unset : Text → Environment → Environment
unfolding drop_matching emplace
unset var e = record { env_filter = emplace var e.env_filter; setenv = drop_matching var e.setenv }

-- `getenv` is the system's, and `parsing` is `parsing_config_file_`.
module _ (getenv : Text → Option Text) (parsing : Bool) where
  env_or_empty : Text → Text
  env_or_empty var = elim (getenv var) [ none ↦ [] | some p ↦ p ]

  unfoldable pub env_lookup : Environment → Text → Text
  unfolding env_or_empty find
  env_lookup e var = elim (find var e.setenv) [
    | none ↦ env_or_empty var
    | some entry ↦ elim (split_at b'=' entry) [ none ↦ env_or_empty var | some (name, v) ↦ v ]
  ]

  unfoldable pub expand : Environment → Text → Text
  unfolding env_lookup
  expand e text = if parsing then var_expand text (env_lookup e) else text

  -- The name and the first pattern of a warning, if one is given, and what is set.
  unfoldable pub set : Text → Environment → Result Text (Option Text × Environment)
  unfolding expand put forget
  set var e = elim (split_at b'=' var) [
    | some (name, value) ↦ ok (
      if parsing && matches_any e.env_filter name then some name else none,
      record e { setenv = put name (name ++ b'=' ∷ expand e value) e.setenv },
    )
    | none ↦
        if any (text_eq var) e.env_filter
        then ok (none, record e { env_filter = forget var e.env_filter })
        else if contains_byte b' ' var
        then err var
        else elim (getenv var) [
          | none ↦ ok (none, e)
          | some p ↦
              if matches_any e.env_filter var
              then ok (none, record e { setenv = put var (var ++ b'=' ∷ p) e.setenv })
              else ok (none, e)
        ]
  ]

-- A variable is left out if its name is in the filter, or matches a pattern with `*` of it.
unfoldable pub is_filtered : List Text → Text → Bool
is_filtered [] name = false
is_filtered (p ∷ patterns) name =
    (if contains_byte b'*' p then glob p name else text_eq p name) || is_filtered patterns name

-- The loop over `environ`.
unfoldable pub environ_loop : List Text → List Text → Variables → Variables
unfolding is_filtered put_new
environ_loop patterns [] m = m
environ_loop patterns (entry ∷ environ) m = elim (split_at b'=' entry) [
  | none ↦ environ_loop patterns environ m
  | some (name, v) ↦
      environ_loop patterns environ (if is_filtered patterns name then m else put_new name entry m)
]

unfoldable pub make_env : Environment → List Text → Variables
unfolding environ_loop
make_env e environ = environ_loop e.env_filter environ e.setenv
