-- ===== src/Sandbox/Profile.antt =====
-- `Config::generate_sandbox_profile` of jaim.cc.
pub mod Policy
pub mod ReadBack
pub mod Refusal
use jaim.Prelude.{
  ℕ, ◌==◌, ◌%◌, Bool, true, false, not, ◌&&◌, ◌||◌, if◌then◌else◌, List, [], ◌∷◌, ◌++◌, map,
  is_empty, any, Result, ok, err, ◌>>=◌, Text, text_eq, codes, Option, none, some,
}
use jaim.Fs.Paths.{join, contains, path_less}
use jaim.Sandbox.Escape.{sbpl_regex_escape}
use jaim.Sandbox.Rules.{
  Access, file_read, file_all, Filter, subpath, literal, regex, Rule, allow, allow_any,
  allow_except, Item, plain, rule,
}
use jaim.Sandbox.Static.{static_items}

pub data Mode : Type 0 where
  casual bare strict : Mode

-- The fields of `Config` that the profile is made of; the sets and maps are in their order.
pub record Settings : Type 0 where
  pub mode : Mode
  pub private_tmp : Text
  pub private_home : Text
  pub overlay_mount : Text
  pub homepath : Text
  pub mask_files : List Text
  pub grant_cwd : Bool
  pub cwd : Text
  pub grant_directories : List (Text × ℕ)
  pub grant_files : List (Text × ℕ)

pub data Fault : Type 0 where
  private_tmp_unset overlay_mount_unset private_home_unset : Fault
  cwd_masked : Text → Text → Fault

unfoldable pub require : Bool → Fault → Result Fault (Unit {0})
require b fault = if b then ok tt else err fault

unfoldable pub masked_in : Text → List Text → List Text
masked_in base masks = map (join base) masks

-- `emit_home_rule`, and the rule of the current directory.
unfoldable pub scoped_rule : Access → Text → List Text → Item
scoped_rule a base [] = rule (allow a (subpath base))
scoped_rule a base (m ∷ ms) = rule (allow_except a base (m ∷ ms))

unfoldable pub emit_home_rule : List Text → Access → Text → Item
emit_home_rule masks a base = scoped_rule a base (masked_in base masks)

-- `emit_ssh_carveouts`.
unfoldable pub emit_ssh_carveouts : Text → List Item
emit_ssh_carveouts ssh =
    rule (allow file_read (subpath (ssh ++ codes "/agent")))
    ∷ rule (allow file_read (literal (ssh ++ codes "/known_hosts")))
    ∷ rule (allow file_read (literal (ssh ++ codes "/known_hosts.old")))
    ∷ rule (allow file_read (regex (codes "^" ++ sbpl_regex_escape ssh ++ codes "/[^/]+\\.pub$")))
    ∷ []

-- `mask_files_.contains(p)`, by the order of the set.
unfoldable pub in_set : Text → List Text → Bool
in_set p masks = any (λ m. not (path_less m p) && not (path_less p m)) masks

unfoldable pub ssh_items : Settings → List Item
ssh_items s =
    if in_set (codes ".ssh") s.mask_files
    then emit_ssh_carveouts (join s.homepath (codes ".ssh"))
      ++ (emit_ssh_carveouts (join s.overlay_mount (codes ".ssh")) ++ (plain (codes "\n") ∷ []))
    else []

unfoldable pub casual_items : Settings → Result Fault (List Item)
casual_items s = do
  u ← require (not (is_empty s.overlay_mount)) overlay_mount_unset
  ok (
      emit_home_rule s.mask_files file_read s.homepath
      ∷ emit_home_rule s.mask_files file_all s.overlay_mount
      ∷ plain (codes "\n")
      ∷ ssh_items s)

unfoldable pub bare_items : Settings → Result Fault (List Item)
bare_items s = do
  u ← require (not (is_empty s.private_home)) private_home_unset
  ok (rule (allow file_all (subpath s.private_home)) ∷ plain (codes "\n") ∷ [])

abbrev pub home_items : Mode → Settings → Result Fault (List Item)
home_items casual s = casual_items s
home_items bare s = bare_items s
home_items strict s = ok []

-- The loop that refuses a current directory inside a masked path.
unfoldable pub check_cwd : Text → List Text → Result Fault (Unit {0})
check_cwd c [] = ok tt
check_cwd c (m ∷ ms) =
    let rest = check_cwd c ms in if contains m c then err (cwd_masked c m) else rest

unfoldable pub cwd_items : Settings → Result Fault (List Item)
cwd_items s =
    if s.grant_cwd
    then (do
      u ← check_cwd s.cwd (masked_in s.homepath s.mask_files)
      ok (scoped_rule file_all s.cwd (masked_in s.homepath s.mask_files) ∷ []))
    else ok []

-- `flags & kGrantRO`.
abbrev pub grant_access : ℕ → Access
grant_access flags = if flags % 2 == 1 then file_read else file_all

unfoldable pub directory_items : List (Text × ℕ) → List Item
directory_items [] = []
directory_items ((d, flags) ∷ rest) =
    rule (allow (grant_access flags) (subpath d)) ∷ directory_items rest

-- The regular expression of the files that are written before they replace `f`.
unfoldable pub siblings : Text → Text
siblings f = codes "^" ++ sbpl_regex_escape f ++ codes "\\..+$"

unfoldable pub file_items : List (Text × ℕ) → List Item
file_items [] = []
file_items ((f, flags) ∷ rest) =
    rule (allow (grant_access flags) (literal f))
    ∷ rule (allow (grant_access flags) (regex (siblings f)))
    ∷ file_items rest

unfoldable pub generate_sandbox_profile : Settings → Result Fault (List Item)
generate_sandbox_profile s = do
  u ← require (not (is_empty s.private_tmp)) private_tmp_unset
  home ← home_items s.mode s
  current ← cwd_items s
  ok (
      static_items
      ++ ((rule (allow file_all (subpath s.private_tmp)) ∷ plain (codes "\n") ∷ [])
          ++ (home
              ++ (current ++ (directory_items s.grant_directories ++ file_items s.grant_files)))))
