-- ===== src/Sandbox/Escape.antt =====
-- `sbpl_escape`, `sbpl_regex_escape` and the quoting of a regex literal in jaim.cc.
pub mod Laws
use jaim.Prelude.{ℕ, Bool, ◌||◌, List, [], ◌∷◌, ◌++◌, ◌==◌, if◌then◌else◌, Text}

unfoldable pub sbpl_escape : Text → Text
sbpl_escape [] = []
sbpl_escape (c ∷ s) = (if c == b'"' || c == b'\\' then b'\\' ∷ c ∷ [] else c ∷ []) ++ sbpl_escape s

-- The bytes that the switch of `sbpl_regex_escape` lists.
unfoldable pub is_regex_meta : ℕ → Bool
is_regex_meta c =
    c == b'.'
    || c == b'*'
    || c == b'+'
    || c == b'?'
    || c == b'^'
    || c == b'$'
    || c == b'('
    || c == b')'
    || c == b'['
    || c == b']'
    || c == b'{'
    || c == b'}'
    || c == b'|'
    || c == b'\\'

unfoldable pub sbpl_regex_escape : Text → Text
sbpl_regex_escape [] = []
sbpl_regex_escape (c ∷ s) =
    (if is_regex_meta c then b'\\' ∷ c ∷ [] else c ∷ []) ++ sbpl_regex_escape s

-- The loops that fill `pub_regex_quoted` and `quoted`.
unfoldable pub quote_regex : Text → Text
quote_regex [] = []
quote_regex (c ∷ s) = (if c == b'"' then b'\\' ∷ c ∷ [] else c ∷ []) ++ quote_regex s
