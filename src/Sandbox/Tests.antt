-- ===== src/Sandbox/Tests.antt =====
-- Runs of the profile, its escapes and its rules.
use jaim.Fs.Paths.{
  text_less, path_less, elements_less, segments, names, relative_elements, has_filename, elements,
  is_prefix, contains, join,
}
use jaim.Sandbox.Static.{static_items}
use jaim.Sandbox.Profile.Policy.{policy}
use jaim.Sandbox.Profile.{
  file_items, directory_items, ssh_items, in_set, scoped_rule, emit_home_rule, masked_in, check_cwd,
  cwd_items, casual_items, require, siblings, emit_ssh_carveouts, casual, generate_sandbox_profile,
  Settings,
}
use jaim.Sandbox.Rules.{
  Rule, regex, literal, file_read, plain, subpath, allow, rule, file_all, allow_except, Item,
  rule_text, Filter,
}
use jaim.Sandbox.Profile.ReadBack.{ReadsBack, generate_sandbox_profile-ReadsBack}
use jaim.Prelude.{
  All, refl, starts_with, ◌||◌, text_eq, [], Bool, Text, true, ok, List, ◌≡◌, ◌∷◌, ◌++◌, false,
  codes,
}
use jaim.Sandbox.Escape.{sbpl_escape}

-- A small matching of paths; no regular expression matches.
matches : Filter → Text → Bool
matches (subpath p) q = text_eq p q || starts_with (p ++ codes "/") q
matches (literal p) q = text_eq p q
matches (regex r) q = false

abbrev settings : Settings
settings = record {
  mode = casual;
  private_tmp = codes "/t";
  private_home = [];
  overlay_mount = codes "/o";
  homepath = codes "/h";
  mask_files = codes ".ssh" ∷ [];
  grant_cwd = true;
  cwd = codes "/h/w";
  grant_directories = (codes "/d", 1) ∷ [];
  grant_files = (codes "/f", 0) ∷ [];
}

abbrev written : List Item
written =
    static_items
    ++ ((rule (allow file_all (subpath (codes "/t"))) ∷ plain (codes "\n") ∷ [])
        ++ ((rule (allow_except file_read (codes "/h") (codes "/h/.ssh" ∷ []))
                ∷ rule (allow_except file_all (codes "/o") (codes "/o/.ssh" ∷ []))
                ∷ plain (codes "\n")
                ∷ emit_ssh_carveouts (codes "/h/.ssh")
              ++ (emit_ssh_carveouts (codes "/o/.ssh") ++ (plain (codes "\n") ∷ [])))
            ++ ((rule (allow_except file_all (codes "/h/w") (codes "/h/.ssh" ∷ [])) ∷ [])
                ++ ((rule (allow file_read (subpath (codes "/d"))) ∷ [])
                    ++ (rule (allow file_all (literal (codes "/f")))
                        ∷ rule (allow file_all (regex (siblings (codes "/f"))))
                        ∷ [])))))

is_written : generate_sandbox_profile settings ≡ ok written
unfolding generate_sandbox_profile require casual_items cwd_items check_cwd masked_in contains
    is_prefix elements join has_filename text_eq relative_elements names segments emit_home_rule
    scoped_rule in_set elements_less path_less text_less ssh_items directory_items file_items
    emit_ssh_carveouts jaim.Fs.Paths.element_less
is_written = refl

-- The key of a masked `.ssh` is not readable, what is beside it in the home is.
key_denied : policy matches settings false (codes "/h/.ssh/id") ≡ false
unfolding matches text_eq starts_with jaim.Sandbox.Profile.masked_in jaim.Fs.Paths.join
    jaim.Fs.Paths.has_filename jaim.Sandbox.Profile.in_set jaim.Fs.Paths.path_less
    jaim.Fs.Paths.elements_less jaim.Fs.Paths.element_less jaim.Fs.Paths.elements
    jaim.Fs.Paths.relative_elements jaim.Fs.Paths.names jaim.Fs.Paths.segments
    jaim.Fs.Paths.text_less
key_denied = refl

notes_readable : policy matches settings false (codes "/h/notes") ≡ true
unfolding matches text_eq starts_with jaim.Sandbox.Profile.masked_in jaim.Fs.Paths.join
    jaim.Fs.Paths.has_filename
notes_readable = refl

generate_sandbox_profile-ReadsBack_example : All (ReadsBack (codes "(allow")) written
generate_sandbox_profile-ReadsBack_example =
    generate_sandbox_profile-ReadsBack settings written (codes "(allow") is_written

-- The text of a rule.
scoped_text :
    rule_text (allow_except file_all (codes "/h/w") (codes "/h/.ssh" ∷ []))
    ≡ codes
        "(allow file*\n  (require-all\n    (subpath \"/h/w\")\n    (require-not (subpath \"/h/.ssh\"))\n  ))\n"
unfolding rule_text jaim.Sandbox.Rules.access_text jaim.Sandbox.Rules.filter_text sbpl_escape
    jaim.Sandbox.Rules.except_lines
scoped_text = refl
