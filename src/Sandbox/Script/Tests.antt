-- ===== src/Sandbox/Script/Tests.antt =====
-- Runs of `make_script`.
use jaim.Prelude.{
  ℕ, List, [], ◌∷◌, ◌++◌, Option, none, some, Result, ok, err, ◌≡◌, ◌≢◌, refl, text_eq, text_eq_iff,
  Text, codes,
}
use jaim.Fs.Paths.{join}
use jaim.Fs.Ensure.Simple.{Files, small_directory, store, empty}
use jaim.Sandbox.Script.{Fault, script_name, trailer, make_script}
use jaim.Sandbox.Script.Whole.{Good, IsWhole, make_script-IsWhole}

abbrev found : Option Text → Result ℕ Text
found (some s) = ok s
found none = err 2

found_lem : (o : Option Text) (s : Text) → found o ≡ ok s → o ≡ some s
found_lem none s e = cc
found_lem (some t) s e = cc

abbrev read_file : Text → Files → Result ℕ Text
read_file i fs = found (fs i)

-- `/h/rc` defines an alias.
abbrev home : Files
home = store (codes "/h/rc") (some (codes "alias l=ls")) empty

abbrev rndbuf : List ℕ
rndbuf = 11 ∷ 255 ∷ 64 ∷ []

-- `=`, `z` and `+`.
is_named : script_name rndbuf ≡ codes ".jaimrc=z+"
unfolding script_name jaim.Sandbox.Script.name_char
is_named = refl

is_made :
    (make_script small_directory read_file (codes "/t") rndbuf (codes "/h/rc" ∷ []) home).1
      (codes "/t/.jaimrc=z+")
    ≡ some (codes "alias l=ls\n" ++ trailer)
unfolding make_script jaim.Sandbox.Script.write_script jaim.Sandbox.Script.write_inputs script_name
    jaim.Sandbox.Script.name_char jaim.Fs.Ensure.write_loop jaim.Fs.Ensure.Simple.append_byte
    jaim.Prelude.text_eq jaim.Fs.Paths.join jaim.Fs.Paths.has_filename
is_made = refl

apart : codes "/h/rc" ≢ codes "/t/.jaimrc=z+"
unfolding text_eq
apart e = let same = (text_eq_iff (codes "/h/rc") (codes "/t/.jaimrc=z+")).1 e in cc

is_apart : codes "/h/rc" ≢ join (codes "/t") (script_name rndbuf)
unfolding join script_name jaim.Sandbox.Script.name_char jaim.Fs.Paths.has_filename
is_apart = apart

make_script-IsWhole_example :
    Good small_directory read_file
      (λ i s fs. found_lem (fs i) s)
      home
      (join (codes "/t") (script_name rndbuf))
      (IsWhole small_directory read_file
        (λ i s fs. found_lem (fs i) s)
        home
        (join (codes "/t") (script_name rndbuf))
        (codes "/h/rc" ∷ []))
      (make_script small_directory read_file (codes "/t") rndbuf (codes "/h/rc" ∷ []) home)
make_script-IsWhole_example =
    make_script-IsWhole small_directory read_file (λ i s fs. found_lem (fs i) s) (codes "/t") rndbuf
      (codes "/h/rc") [] home (is_apart, tt)
