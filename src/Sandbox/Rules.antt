-- ===== src/Sandbox/Rules.antt =====
-- The rules that `generate_sandbox_profile` of jaim.cc writes, as they are before they become text,
-- and the text that it writes for them.
pub mod ReadBack
pub mod ReadRule
use jaim.Prelude.{Bool, true, false, not, ◌&&◌, ◌||◌, List, [], ◌∷◌, ◌++◌, any, Text, codes}
use jaim.Sandbox.Escape.{sbpl_escape, quote_regex}

-- `file-read*` and `file*`.
pub data Access : Type 0 where
  file_read file_all : Access

pub data Filter : Type 0 where
  subpath literal regex : Text → Filter

-- An allow rule with one filter, with several of which one must match, and with the subpath of a
-- directory without those of some others.
pub data Rule : Type 0 where
  allow : Access → Filter → Rule
  allow_any : Access → List Filter → Rule
  allow_except : Access → Text → List Text → Rule

-- The profile is a sequence of rules on files and of other text.
pub data Item : Type 0 where
  rule : Rule → Item
  plain : Text → Item

unfoldable pub access_text : Access → Text
access_text file_read = codes "file-read*"
access_text file_all = codes "file*"

unfoldable pub filter_text : Filter → Text
filter_text (subpath p) = codes "(subpath \"" ++ sbpl_escape p ++ codes "\")"
filter_text (literal p) = codes "(literal \"" ++ sbpl_escape p ++ codes "\")"
filter_text (regex r) = codes "(regex #\"" ++ quote_regex r ++ codes "\")"

unfoldable pub filter_lines : List Filter → Text
filter_lines [] = codes ")\n"
filter_lines (f ∷ fs) = codes "\n  " ++ filter_text f ++ filter_lines fs

unfoldable pub except_lines : List Text → Text
except_lines [] = codes "  ))\n"
except_lines (m ∷ ms) =
    codes "    (require-not " ++ filter_text (subpath m) ++ codes ")\n" ++ except_lines ms

unfoldable pub rule_text : Rule → Text
rule_text (allow a f) =
    codes "(allow " ++ access_text a ++ codes " " ++ filter_text f ++ codes ")\n"
rule_text (allow_any a fs) = codes "(allow " ++ access_text a ++ filter_lines fs
rule_text (allow_except a base except) =
    codes "(allow "
    ++ access_text a
    ++ codes "\n  (require-all\n    "
    ++ filter_text (subpath base)
    ++ codes "\n"
    ++ except_lines except

unfoldable pub profile_text : List Item → Text
profile_text [] = []
profile_text (rule r ∷ items) = rule_text r ++ profile_text items
profile_text (plain s ∷ items) = s ++ profile_text items

-- What the rules allow, with the sandbox's own matching of filters: allow rules add up.
module _ (matches : Filter → Text → Bool) where
  abbrev pub covers : Access → Bool → Bool
  covers file_read write = not write
  covers file_all write = true

  abbrev pub under_any : List Text → Text → Bool
  under_any dirs q = any (λ dir. matches (subpath dir) q) dirs

  unfoldable pub rule_permits : Rule → Bool → Text → Bool
  rule_permits (allow a f) write q = covers a write && matches f q
  rule_permits (allow_any a fs) write q = covers a write && any (λ f. matches f q) fs
  rule_permits (allow_except a base except) write q =
      covers a write && (matches (subpath base) q && not (under_any except q))

  unfoldable pub permits : List Item → Bool → Text → Bool
  permits [] write q = false
  permits (rule r ∷ items) write q = rule_permits r write q || permits items write q
  permits (plain s ∷ items) write q = permits items write q
