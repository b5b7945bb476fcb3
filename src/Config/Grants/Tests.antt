-- ===== src/Config/Grants/Tests.antt =====
-- Runs of the options that grant and mask.
use jaim.Prelude.{
  ℕ, Bool, true, false, if◌then◌else◌, List, [], ◌∷◌, ◌++◌, Option, none, ok, ◌≡◌, refl, ap, Text,
  codes, text_eq,
}
use jaim.Fs.Maps.{same_path, path_find, set_emplace}
use jaim.Fs.Paths.{is_prefix, join, elements, contains, path_less}
use jaim.Config.Environment.{expand}
use jaim.Prelude.{◌>>=◌}
use jaim.Config.Grants.{named_path, Grants, Resolver, mask, xdir, grant_directory}
use jaim.Config.Grants.Undo.{xdir-grant_directory}
use jaim.Config.Grants.Masked.{elsewhere, permits-mask}
use jaim.Sandbox.Rules.{
  file_read, Filter, subpath, literal, regex, file_all, Rule, allow, Item, rule, plain, permits,
}
use jaim.Sandbox.Static.{static_items}
use jaim.Sandbox.Profile.{Mode, casual, bare, strict, Settings, generate_sandbox_profile}

abbrev no_variables : Text → Option Text
no_variables var = none

abbrev resolved : Resolver
resolved p = ok p

abbrev runnable : Text → Option ℕ
runnable p = none

abbrev before : Grants
before = record {
  mode = strict;
  grant_directories = (codes "/a", 1) ∷ (codes "/d", 1) ∷ [];
  grant_files = [];
  grant_cwd = false;
  environment = record { env_filter = []; setenv = [] };
  script_inputs = [];
  mask_files = codes ".aws" ∷ [];
  sandbox_name = [];
  jaiminit = [];
}

abbrev undone : Grants
undone = record before { grant_directories = (codes "/a", 1) ∷ [] }

named :
    named_path no_variables resolved resolved runnable false
      (codes "/h")
      (codes "/j")
      (codes "/d")
      before
    ≡ codes "/d"
unfolding named_path expand
named = refl

xdir-grant_directory_example :
    (h : Grants) × ((grant_directory no_variables resolved resolved runnable false
          (codes "/h")
          (codes "/j")
          resolved
          0
          (codes "/d")
          before
        >>= xdir no_variables resolved resolved runnable false
            (codes "/h")
            (codes "/j")
            (codes "/d"))
      ≡ ok h)
    × (h ≡ record before { grant_directories = h.grant_directories })
    × ((q : Text)
        → path_find q h.grant_directories
          ≡ (if same_path q (codes "/d") then none else path_find q before.grant_directories))
xdir-grant_directory_example =
    xdir-grant_directory no_variables resolved resolved runnable false (codes "/h") (codes "/j")
      resolved 0 (codes "/d") (codes "/d") before (ap ok named) (ap ok named)

-- A small matching of paths; no regular expression matches.
matches : Filter → Text → Bool
matches (subpath p) q = is_prefix (elements p) (elements q)
matches (literal p) q = text_eq p q
matches (regex r) q = false

abbrev behind : Grants
behind = record before { mask_files = codes ".aws" ∷ codes ".ssh" ∷ [] }

abbrev settings : Settings
settings = record {
  mode = strict;
  private_tmp = codes "/t";
  private_home = [];
  overlay_mount = [];
  homepath = codes "/h";
  mask_files = codes ".aws" ∷ codes ".ssh" ∷ [];
  grant_cwd = false;
  cwd = codes "/h";
  grant_directories = (codes "/h/.ssh", 1) ∷ [];
  grant_files = [];
}

abbrev written : List Item
written =
    static_items
    ++ ((rule (allow file_all (subpath (codes "/t"))) ∷ plain (codes "\n") ∷ [])
        ++ (rule (allow file_read (subpath (codes "/h/.ssh"))) ∷ []))

is_behind :
    mask no_variables resolved resolved runnable false
      (codes "/h")
      (codes "/j")
      (codes ".ssh")
      before
    ≡ ok behind
unfolding mask expand set_emplace path_less jaim.Fs.Paths.elements_less jaim.Fs.Paths.element_less
    elements jaim.Fs.Paths.relative_elements jaim.Fs.Paths.names jaim.Fs.Paths.segments
    jaim.Fs.Paths.text_less
is_behind = refl

is_written : generate_sandbox_profile settings ≡ ok written
unfolding generate_sandbox_profile jaim.Sandbox.Profile.require jaim.Sandbox.Profile.cwd_items
    jaim.Sandbox.Profile.directory_items jaim.Sandbox.Profile.file_items
is_written = refl

is_expanded : expand no_variables false before.environment (codes ".ssh") ≡ codes ".ssh"
unfolding expand
is_expanded = refl

is_below : matches (subpath (join settings.homepath (codes ".ssh"))) (codes "/h/.ssh/id") ≡ true
unfolding matches is_prefix elements join jaim.Fs.Paths.has_filename text_eq
    jaim.Fs.Paths.relative_elements jaim.Fs.Paths.names jaim.Fs.Paths.segments
is_below = refl

other_mask : same_path (codes ".aws") (codes ".ssh") ≡ false
unfolding same_path path_less jaim.Fs.Paths.elements_less jaim.Fs.Paths.element_less elements
    jaim.Fs.Paths.relative_elements jaim.Fs.Paths.names jaim.Fs.Paths.segments
    jaim.Fs.Paths.text_less
other_mask = refl

is_allowed : permits matches written false (codes "/h/.ssh/id") ≡ true
unfolding permits static_items jaim.Sandbox.Rules.rule_permits matches is_prefix elements text_eq
    jaim.Fs.Paths.relative_elements jaim.Fs.Paths.names jaim.Fs.Paths.segments
    jaim.Sandbox.Static.device_items
is_allowed = refl

permits-mask_example : elsewhere matches settings false (codes "/h/.ssh/id") ≡ true
permits-mask_example =
    permits-mask matches settings false (codes "/h/.ssh/id") no_variables resolved resolved runnable
      false (codes "/h") (codes "/j") (codes ".ssh") (codes ".ssh") before behind written
      is_expanded is_behind refl is_written ((λ same. cc (other_mask, same)), tt) is_below
      is_allowed
