-- ===== src/Config/Files/Tests.antt =====
-- Two configuration files that name each other.
use jaim.Prelude.{
  ℕ, ◌+◌, Bool, true, false, if◌then◌else◌, List, [], ◌∷◌, Option, some, ok, err, ◌≡◌, inl, inr,
  refl, ap, subst, arith, Bool-cases, Text, codes, text_eq,
}
use jaim.Fs.Maps.{has_path}
use jaim.Fs.Paths.{
  components, elements, relative_elements, names, segments, cat, elements_less, path_less,
  text_less,
}
use jaim.Fs.Maps.{set_erase, set_emplace, same_path}
use jaim.Config.Files.{
  run_options, run_option, parse_config_file, with_conf, lacks_conf, ends_with, configuration_loop,
  ConfigOption, conf, other, Opened, opened, absent, ConfigFiles, ConfigState, parse_config_fd,
}
use jaim.Config.Files.Ends.{IsFine, parse_config_fd-ends}

abbrev first_file : Text
first_file = codes "/j/a.conf"

abbrev second_file : Text
second_file = codes "/j/b.conf"

unfoldable opened_at : Text → Opened
opened_at file =
    if text_eq file (codes "a.conf")
    then opened first_file
    else if text_eq file (codes "b.conf")
    then opened second_file
    else absent

-- `a.conf` sets 1 and reads `b.conf`, which reads `a.conf`.
options_at : Text → Option (List (ConfigOption ℕ))
options_at ld =
    if text_eq ld first_file
    then some (other (λ n. ok (n + 1)) ∷ conf (codes "b.conf") ∷ [])
    else some (conf (codes "a.conf") ∷ [])

abbrev two_files : ConfigFiles ℕ
two_files = record {
  is_absent = λ f. false;
  is_regular = λ f. true;
  open_file = λ b f. opened_at f;
  options = options_at;
  expand = λ s a. a;
}

abbrev both : List Text
both = first_file ∷ second_file ∷ []

path_of : Text → Opened → Text
path_of d (opened p) = p
path_of d o = d

has_first : has_path first_file both ≡ true
unfolding has_path jaim.Fs.Maps.same_path jaim.Fs.Paths.path_less jaim.Fs.Paths.elements_less
    jaim.Fs.Paths.element_less jaim.Fs.Paths.elements jaim.Fs.Paths.text_less
    jaim.Fs.Paths.relative_elements jaim.Fs.Paths.names jaim.Fs.Paths.segments
has_first = refl

has_second : has_path second_file both ≡ true
unfolding has_path jaim.Fs.Maps.same_path jaim.Fs.Paths.path_less jaim.Fs.Paths.elements_less
    jaim.Fs.Paths.element_less jaim.Fs.Paths.elements jaim.Fs.Paths.text_less
    jaim.Fs.Paths.relative_elements jaim.Fs.Paths.names jaim.Fs.Paths.segments
has_second = refl

known :
    (b : Bool) (file ld : Text) → two_files.open_file b file ≡ opened ld → has_path ld both ≡ true
unfolding opened_at path_of
known b file ld e = elim (Bool-cases (text_eq file (codes "a.conf"))) [
  | inl a ↦ subst (λ p. has_path p both ≡ true) (ap (path_of []) (rw a at e)) has_first
  | inr not_a ↦ elim (Bool-cases (text_eq file (codes "b.conf"))) [
    | inl b ↦ subst (λ p. has_path p both ≡ true) (ap (path_of []) (rw (not_a, b) at e)) has_second
    | inr not_b ↦ cc (rw (not_a, not_b) at e)
  ]
]

abbrev before : ConfigState ℕ
before = record { settings = 0; loop_detect = []; parsing = false }

-- The loop is told, and the set and the flag are as they were.
looped :
    parse_config_fd two_files 3 first_file before
    ≡ (err (configuration_loop first_file), record before { settings = 1 })
unfolding parse_config_fd has_path options_at set_erase text_eq run_options run_option
    parse_config_file opened_at with_conf components elements relative_elements names segments
    lacks_conf ends_with set_emplace same_path cat elements_less path_less text_less
    jaim.Fs.Paths.element_less
looped = refl

parse_config_fd-ends_example :
    IsFine two_files both known before (parse_config_fd two_files 3 first_file before)
parse_config_fd-ends_example =
    parse_config_fd-ends two_files both known 3 first_file before (omega arith) has_first
