-- ===== src/Sandbox/Script.antt =====
-- `Config::make_script` of jaim.cc, which writes the shell code that `--script` names into a file of
-- the private temporary directory.
pub mod Whole
mod Tests
use jaim.Prelude.{
  ℕ, zero, suc, ◌%◌, List, [], ◌∷◌, ◌++◌, map, length, drop, is_empty, if◌then◌else◌, Result, ok,
  err, Text, codes,
}
use jaim.Prelude.Stateful.{Act, ◌>>=◌, ◌>>◌, pure, throw}
use jaim.Fs.Paths.{join}
use jaim.Fs.Ensure.{FileDirectory, write_loop}

pub data Fault : Type 0 where
  private_tmp_unset : Fault
  no_script no_input : ℕ → Fault
  no_write : jaim.Fs.Ensure.Fault → Fault

abbrev pub alphabet : Text
alphabet = codes "+0123456789=ABCDEFGHIJKLMNOPQRSTUVWXYZabcdefghijklmnopqrstuvwxyz"

-- The first byte; there is one below.
abbrev pub first_byte : Text → ℕ
first_byte [] = 0
first_byte (c ∷ s) = c

-- `[i & 0x3f]`.
unfoldable pub name_char : ℕ → ℕ
name_char i = first_byte (drop (i % 64) alphabet)

unfoldable pub script_name : List ℕ → Text
script_name rndbuf = codes ".jaimrc" ++ map name_char rndbuf

-- What the script ends in.
abbrev pub trailer : Text
trailer =
    codes "\n# Remove $JAIM_SCRIPT once sourced unless JAIM_KEEP_SCRIPT is set\n"
    ++ (codes "if [[ -n $JAIM_SCRIPT && -z ${JAIM_KEEP_SCRIPT+set} ]]; then\n"
        ++ codes "    rm -f \"$JAIM_SCRIPT\"\n    unset JAIM_SCRIPT\nfi\n")

module _ (d : FileDirectory) (read_file : Text → d.Files → Result ℕ Text) where
  abbrev pub ScriptAct : Type 0 → Type 0
  ScriptAct A = Act d.Files Fault A

  abbrev pub script_created : d.Files → Result ℕ d.Files → Result Fault (Unit {0}) × d.Files
  script_created fs (ok after) = (ok tt, after)
  script_created fs (err e) = (err (no_script e), fs)

  abbrev pub raise_write :
      Result jaim.Fs.Ensure.Fault (Unit {0}) × d.Files → Result Fault (Unit {0}) × d.Files
  raise_write (ok u, fs) = (ok u, fs)
  raise_write (err e, fs) = (err (no_write e), fs)

  abbrev pub dowrite : Text → Text → ScriptAct (Unit {0})
  dowrite p sv fs = raise_write (write_loop d (suc (length sv)) p sv fs)

  abbrev pub contents_of : Result ℕ Text → ScriptAct Text
  contents_of (ok s) = pure s
  contents_of (err e) = throw (no_input e)

  unfoldable pub write_inputs : Text → List Text → ScriptAct (Unit {0})
  write_inputs p [] = pure tt
  write_inputs p (input ∷ inputs) = do
    s ← (λ fs. contents_of (read_file input fs) fs)
    dowrite p s
    dowrite p (codes "\n")
    write_inputs p inputs

  unfoldable pub write_script : Text → List Text → ScriptAct Text
  write_script p inputs = do
    λ fs. script_created fs (d.create_excl p 256 fs)
    write_inputs p inputs
    dowrite p trailer
    pure p

  unfoldable pub make_script : Text → List ℕ → List Text → ScriptAct Text
  make_script private_tmp rndbuf [] = pure []
  make_script private_tmp rndbuf (input ∷ inputs) =
      if is_empty private_tmp
      then throw private_tmp_unset
      else write_script (join private_tmp (script_name rndbuf)) (input ∷ inputs)
