-- ===== src/Sandbox/Escape/Laws.antt =====
-- A path that is put into the profile is read back as the same path, and cannot end its quotes.
use mathlib.Core.Option
use jaim.Prelude.{
  ℕ, Bool, ◌&&◌, not, [], ◌∷◌, ◌++◌, ◌≡◌, refl, arith, Option, none, some, true, false, ◌==◌,
  if◌then◌else◌, Bool-cases, inl, inr, Text,
}
use jaim.Sandbox.Escape.{sbpl_escape, is_regex_meta, sbpl_regex_escape}

-- A string literal of the profile's Scheme syntax, read from behind its opening quote up to the
-- closing one: the text that it stands for, and what follows it. The flag is set behind a backslash.
pub read_string : Bool → Text → Option (Text × Text)
read_string escape [] = none
read_string escape (c ∷ s) =
    let behind = not escape && c == b'\\' in
    let later = read_string behind s in
    if not escape && c == b'"'
    then some ([], s)
    else if behind
    then later
    else Option.map (λ r. (c ∷ r.0, r.1)) later

-- An escaped path is read back whole, whatever bytes it holds and whatever follows its closing
-- quote: it cannot end its own literal.
pub read_string-sbpl_escape :
    (s rest : Text) → read_string false (sbpl_escape s ++ (b'"' ∷ rest)) ≡ some (s, rest)
unfolding read_string sbpl_escape
read_string-sbpl_escape [] rest = refl
read_string-sbpl_escape (c ∷ s) rest = ground (arith, read_string-sbpl_escape s rest)

-- A regular expression that holds no operator: the one text that it matches.
pub read_literals : Bool → Text → Option Text
read_literals true [] = none
read_literals false [] = some []
read_literals escape (c ∷ s) =
    let behind = not escape && c == b'\\' in
    let later = read_literals behind s in
    if behind
    then later
    else if not escape && is_regex_meta c
    then none
    else Option.map (◌∷◌ c) later

meta-backslash : (c : ℕ) → is_regex_meta c ≡ false → (c == b'\\') ≡ false
unfolding is_regex_meta
meta-backslash c h = ground arith

-- The regular expression of an escaped path holds no operator and matches that path alone.
pub read_literals-sbpl_regex_escape :
    (s : Text) → read_literals false (sbpl_regex_escape s) ≡ some s
unfolding read_literals sbpl_regex_escape
read_literals-sbpl_regex_escape [] = refl
read_literals-sbpl_regex_escape (c ∷ s) = elim (Bool-cases (is_regex_meta c)) [
  | inl meta ↦ ground (arith, read_literals-sbpl_regex_escape s)
  | inr plain ↦ ground (arith, meta-backslash c plain, read_literals-sbpl_regex_escape s)
]
