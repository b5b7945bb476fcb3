-- ===== src/Config/Grants.antt =====
-- The options of `Config::opt_parser` in jaim.cc that choose the mode, the grants, the masks, the
-- jail and its scripts.
pub mod Undo
pub mod Masked
mod Tests
use jaim.Prelude.{
  ℕ, ◌==◌, Bool, true, false, not, ◌&&◌, ◌||◌, if◌then◌else◌, List, [], ◌∷◌, ◌++◌, any, Option,
  none, some, Result, ok, err, ◌>>=◌, Text, text_eq, codes,
}
use jaim.Fs.Paths.{join, is_absolute, components}
use jaim.Fs.Maps.{path_emplace, path_erase, set_emplace, set_erase}
use jaim.Config.Environment.{Environment, expand}
use jaim.Sandbox.Profile.{Mode, casual, bare, strict}

-- What the handlers change; the environment is what `expand` looks variables up in.
pub record Grants : Type 0 where
  pub mode : Mode
  pub grant_directories : List (Text × ℕ)
  pub grant_files : List (Text × ℕ)
  pub grant_cwd : Bool
  pub environment : Environment
  pub script_inputs : List Text
  pub mask_files : List Text
  pub sandbox_name : Text
  pub jaiminit : Text

pub data Fault : Type 0 where
  invalid_mode invalid_sandbox_name cannot_mask : Text → Fault
  name_not_allowed : Fault
  not_executable : Text → ℕ → Fault
  not_canonical : ℕ → Fault

abbrev pub grant_ro : ℕ
grant_ro = 1

abbrev pub grant_mkdir : ℕ
grant_mkdir = 2

unfoldable pub modemap : Text → Option Mode
modemap m =
    if text_eq m (codes "casual")
    then some casual
    else if text_eq m (codes "bare")
    then some bare
    else if text_eq m (codes "strict")
    then some strict
    else none

-- `--mode`.
unfoldable pub set_mode : Text → Grants → Result Fault Grants
set_mode m g = elim (modemap m) [
  | none ↦ err (invalid_mode m)
  | some mode ↦ ok (record g { mode = mode })
]

-- `--nocwd`.
unfoldable pub nocwd : Grants → Grants
nocwd g = record g { grant_cwd = false }

abbrev pub begins_with_dot : Text → Bool
begins_with_dot [] = false
begins_with_dot (c ∷ s) = c == b'.'

unfoldable pub name_ok : Text → Bool
name_ok p = not (is_absolute p) && (components p == 1 && not (begins_with_dot p))

-- `--jail`, which a `.jail` file may not give.
unfoldable pub set_jail : Bool → Text → Grants → Result Fault Grants
set_jail dotjail sb g =
    if dotjail
    then err name_not_allowed
    else if not (name_ok sb)
    then err (invalid_sandbox_name sb)
    else ok (record g { sandbox_name = sb })

-- A call of the file system that gives a path or an error number.
abbrev pub Resolver : Type 0
Resolver = Text → Result ℕ Text

abbrev pub lift : Result ℕ Text → Result Fault Text
lift (ok p) = ok p
lift (err e) = err (not_canonical e)

-- `try { ... } catch (const std::exception &) {}`.
abbrev pub or_same : Grants → Result Fault Grants → Result Fault Grants
or_same g (ok h) = ok h
or_same g (err e) = ok g

unfoldable pub add_script : Text → List Text → List Text
add_script p scripts = if any (text_eq p) scripts then scripts else scripts ++ (p ∷ [])

-- `getenv`, `canonical`, `weakly_canonical` and `access(p, X_OK)` are the system's; `parsing` is
-- `parsing_config_file_`.
module _ (getenv : Text → Option Text) (canonical weakly_canonical : Resolver)
    (access : Text → Option ℕ) (parsing : Bool) (homepath homejaimpath : Text) where
  -- The path that an option names, from the home directory where it stands in a file.
  unfoldable pub named_path : Text → Grants → Text
  named_path arg g =
      let d = expand getenv parsing g.environment arg in if parsing then join homepath d else d

  unfoldable pub grant_directory : Resolver → ℕ → Text → Grants → Result Fault Grants
  grant_directory resolve flags arg g = do
    d ← lift (resolve (named_path arg g))
    ok (record g { grant_directories = path_emplace d flags g.grant_directories })

  -- `--dir`, `--dir!`, `--rdir`, `--rdir?` and `--xdir`.
  unfoldable pub dir : Text → Grants → Result Fault Grants
  dir = grant_directory canonical 0

  unfoldable pub dir_mkdir : Text → Grants → Result Fault Grants
  dir_mkdir = grant_directory weakly_canonical grant_mkdir

  unfoldable pub rdir : Text → Grants → Result Fault Grants
  rdir = grant_directory canonical grant_ro

  unfoldable pub rdir_if_exists : Text → Grants → Result Fault Grants
  rdir_if_exists arg g = or_same g (rdir arg g)

  unfoldable pub xdir : Text → Grants → Result Fault Grants
  xdir arg g = do
    d ← lift (canonical (named_path arg g))
    ok (record g { grant_directories = path_erase d g.grant_directories })

  -- `--file` and `--xfile`.
  unfoldable pub grant_file : Text → Grants → Result Fault Grants
  grant_file arg g = do
    p ← lift (weakly_canonical (named_path arg g))
    ok (record g { grant_files = path_emplace p 0 g.grant_files })

  unfoldable pub xfile : Text → Grants → Result Fault Grants
  xfile arg g = do
    p ← lift (weakly_canonical (named_path arg g))
    ok (record g { grant_files = path_erase p g.grant_files })

  -- `--mask` and `--unmask`.
  unfoldable pub mask : Text → Grants → Result Fault Grants
  mask arg g =
      let p = expand getenv parsing g.environment arg in
      if is_absolute p
      then err (cannot_mask p)
      else ok (record g { mask_files = set_emplace p g.mask_files })

  unfoldable pub unmask : Text → Grants → Grants
  unmask arg g = record g {
    mask_files = set_erase (expand getenv parsing g.environment arg) g.mask_files;
  }

  abbrev pub jaim_path : Text → Text
  jaim_path arg = if parsing then join homejaimpath arg else arg

  -- `--script` and `--script?`.
  unfoldable pub script : Text → Grants → Result Fault Grants
  script arg g = do
    p ← lift (canonical (jaim_path arg))
    ok (record g { script_inputs = add_script p g.script_inputs })

  unfoldable pub script_if_exists : Text → Grants → Result Fault Grants
  script_if_exists arg g = or_same g (script arg g)

  -- `--initjail`.
  unfoldable pub initjail : Text → Grants → Result Fault Grants
  initjail arg g = do
    p ← lift (canonical (jaim_path arg))
    elim (access p) [ none ↦ ok (record g { jaiminit = p }) | some e ↦ err (not_executable p e) ]

  -- `--initjail?`; `ENOENT` is 2.
  unfoldable pub initjail_if_exists : Text → Grants → Result Fault Grants
  initjail_if_exists arg g = do
    p ← lift (weakly_canonical (jaim_path arg))
    elim (access p) [
      | none ↦ ok (record g { jaiminit = p })
      | some e ↦ if e == 2 then ok g else err (not_executable p e)
    ]
