-- ===== src/Config/Environment/Setting.antt =====
-- What `--setenv` of a value does to the environment of the sandboxed program.
use jaim.Prelude.{
  Bool, ◌&&◌, List, ◌∷◌, ◌++◌, Option, none, some, ◌≡◌, refl, ◌∙◌, ok, if◌then◌else◌, Text,
  text_eq_self, Avoids, split_at-append, arith,
}
use jaim.Config.Environment.{find, put, Environment, make_env, matches_any, set, expand}
use jaim.Config.Environment.Lookup.{find-put, find-make_env}

-- `--setenv NAME=VALUE`, where NAME holds no `=`, succeeds, and then `make_env` passes NAME on with the expanded value, whatever
-- filter was given before it and whatever the parent's environment holds.
pub find-set :
    (getenv : Text → Option Text) (parsing : Bool) (name value : Text) (e : Environment)
    (environ : List Text)
    → Avoids b'=' name
    → (r : Option Text × Environment) × (set getenv parsing (name ++ (b'=' ∷ value)) e ≡ ok r)
      × (find name (make_env r.1 environ) ≡ some (name ++ (b'=' ∷ expand getenv parsing e value)))
unfolding set
find-set getenv parsing name value e environ h =
    let entry = name ++ (b'=' ∷ expand getenv parsing e value) in
    let e' : Environment = record { env_filter = e.env_filter; setenv = put name entry e.setenv } in
    (
      (if parsing && matches_any e.env_filter name then some name else none, e'),
      rw (split_at-append b'=' name value h, set) refl,
      find-make_env e' environ name
          ∙ ground (arith, find-put name name entry e.setenv, text_eq_self name),
    )
