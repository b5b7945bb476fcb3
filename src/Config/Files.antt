-- ===== src/Config/Files.antt =====
-- `parse_config_fd` and `parse_config_file` of jaim.cc, with the options `--conf` and `--conf?` by
-- which a configuration file names another one. A file is the list of its options, which
-- `parse_file` runs in order up to the first that throws.
pub mod Ends
mod Tests
use jaim.Prelude.{
  ℕ, zero, suc, ◌==◌, ltb, Bool, true, false, not, ◌&&◌, ◌||◌, if◌then◌else◌, List, [], ◌∷◌, ◌++◌,
  any, Option, none, some, Result, ok, err, Text, text_eq, codes,
}
use jaim.Prelude.Stateful.{Act, ◌>>=◌, ◌>>◌, pure, throw, feed}
use jaim.Fs.Paths.{components, cat}
use jaim.Fs.Maps.{has_path, set_emplace, set_erase}

pub data Fault : Type 0 where
  configuration_loop : Text → Fault
  not_found cannot_name cannot_read : Text → Fault
  cannot_open : Text → ℕ → Fault
  option_failed : Text → Fault
  -- Not an outcome of the code, which has no fuel.
  out_of_fuel : Fault

-- An option of a configuration file: `conf`, `conf?`, or one that changes the settings or throws.
pub data ConfigOption (S : Type 0) : Type 0 where
  conf conf_optional : Text → ConfigOption S
  other : (S → Result Text S) → ConfigOption S

-- `openat`: a descriptor with its full path, or one that `fdpath` gives no path of.
pub data Opened : Type 0 where
  opened : Text → Opened
  unnamed : Opened
  absent : Opened
  failed : ℕ → Opened

-- What is read of the file system: whether nothing, or a regular file, stands at a name of the
-- configuration directory; a file from the current directory or that one; and a file's options.
pub record ConfigFiles (S : Type 0) : Type 0 where
  pub is_absent : Text → Bool
  pub is_regular : Text → Bool
  pub open_file : Bool → Text → Opened
  pub options : Text → Option (List (ConfigOption S))
  pub expand : S → Text → Text

pub record ConfigState (S : Type 0) : Type 0 where
  pub settings : S
  pub loop_detect : List Text
  pub parsing : Bool

unfoldable pub ends_with : Text → Text → Bool
ends_with s [] = text_eq s []
ends_with s (c ∷ t) = text_eq s (c ∷ t) || ends_with s t

-- `file.extension() != ".conf"`, of a name without a slash.
unfoldable pub lacks_conf : Text → Bool
lacks_conf f = not (ends_with (codes ".conf") f && not (text_eq f (codes ".conf")))

module _ {S : Type 0} (files : ConfigFiles S) where
  abbrev pub ConfigAct : Type 0 → Type 0
  ConfigAct A = Act (ConfigState S) Fault A

  unfoldable pub with_conf : Text → Text
  with_conf file =
      if not (ltb 1 (components file))
        && (lacks_conf file
            && (files.is_absent file && files.is_regular (cat file (codes ".conf"))))
      then cat file (codes ".conf")
      else file

  -- What follows `openat`; `parse` is `parse_config_fd` on the path of the descriptor.
  abbrev pub parse_opened : (Text → ConfigAct (Unit {0})) → Text → Opened → ConfigAct Bool
  parse_opened parse file (opened ld) = parse ld >> pure true
  parse_opened parse file unnamed = throw (cannot_name file)
  parse_opened parse file absent = pure false
  parse_opened parse file (failed e) = throw (cannot_open file e)

  unfoldable pub parse_config_file : (Text → ConfigAct (Unit {0})) → Text → ConfigAct Bool
  parse_config_file parse file c =
      parse_opened parse (with_conf file)
        (files.open_file (ltb 1 (components file) && not c.parsing) (with_conf file)) c

  abbrev pub apply : ConfigState S → Result Text S → Result Fault (Unit {0}) × ConfigState S
  apply c (ok s) = (ok tt, record c { settings = s })
  apply c (err e) = (err (option_failed e), c)

  abbrev pub must_exist : Text → Bool → ConfigAct (Unit {0})
  must_exist file true = pure tt
  must_exist file false = throw (not_found file)

  -- The handlers of `--conf` and `--conf?`, and any other one.
  unfoldable pub run_option : (Text → ConfigAct (Unit {0})) → ConfigOption S → ConfigAct (Unit {0})
  run_option parse (conf arg) c =
      (parse_config_file parse (files.expand c.settings arg)
          >>= must_exist (files.expand c.settings arg))
        c
  run_option parse (conf_optional arg) c =
      (parse_config_file parse (files.expand c.settings arg) >>= λ found. pure tt) c
  run_option parse (other f) c = apply c (f c.settings)

  unfoldable pub run_options :
      (Text → ConfigAct (Unit {0})) → List (ConfigOption S) → ConfigAct (Unit {0})
  run_options parse [] = pure tt
  run_options parse (o ∷ rest) = run_option parse o >> run_options parse rest

  abbrev pub run_file :
      (Text → ConfigAct (Unit {0})) → Text → Option (List (ConfigOption S)) → ConfigAct (Unit {0})
  run_file parse ld none = throw (cannot_read ld)
  run_file parse ld (some l) = run_options parse l

  -- `Defer _clear`, which runs also where an exception leaves the function.
  abbrev pub cleared :
      Text
      → Bool
      → Result Fault (Unit {0}) × ConfigState S
      → Result Fault (Unit {0}) × ConfigState S
  cleared ld pcf (r, c) = (r, record c { loop_detect = set_erase ld c.loop_detect; parsing = pcf })

  -- `parse_config_fd` of a descriptor with the full path `ld`; the fuel bounds the nesting.
  unfoldable pub parse_config_fd : ℕ → Text → ConfigAct (Unit {0})
  parse_config_fd zero ld c = (err out_of_fuel, c)
  parse_config_fd (suc fuel) ld c =
      if has_path ld c.loop_detect
      then (err (configuration_loop ld), c)
      else cleared ld c.parsing (
          run_file (parse_config_fd fuel) ld (files.options ld)
            (record c { loop_detect = set_emplace ld c.loop_detect; parsing = true }))
