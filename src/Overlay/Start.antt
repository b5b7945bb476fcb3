-- ===== src/Overlay/Start.antt =====
-- `extract_args` and `main` of overlay.cc up to the mount.
pub mod Apart
pub mod Arguments
pub mod Checked
mod Tests
use jaim.Prelude.{
  ℕ, Bool, true, false, not, ◌&&◌, ◌||◌, ltb, ◌==◌, List, [], ◌∷◌, ◌++◌, length, drop, is_empty,
  Option, none, some, Result, ok, err, ◌>>=◌, if◌then◌else◌, Text, codes, text_eq, starts_with,
}

-- The ways in which the program ends before it mounts.
pub data Stop : Type 0 where
  needs_argument : Text → Stop
  help : Stop
  both_required : Stop
  unresolved : Text → Stop
  not_directory : Text → Stop
  not_writable : Text → Stop
  nested : Stop

-- What `extract_args` sets: the layers, `g_debug`, and the arguments that it keeps.
pub record Extracted : Type 0 where
  pub lower : Text
  pub upper : Text
  pub debug : Bool
  pub kept : List Text

abbrev pub keep : Extracted → Text → Extracted
keep x a = record x { kept = x.kept ++ a ∷ [] }

-- The loop over `argv` from its second entry on.
unfoldable pub extract_loop : Extracted → List Text → Result Stop Extracted
extract_loop x [] = ok x
extract_loop x (a ∷ []) =
    if starts_with (codes "--lower=") a
    then ok (record x { lower = drop 8 a })
    else if starts_with (codes "--upper=") a
    then ok (record x { upper = drop 8 a })
    else if text_eq a (codes "--lower") || text_eq a (codes "--upper")
    then err (needs_argument a)
    else if text_eq a (codes "--help") || text_eq a (codes "-h")
    then err help
    else ok (keep x a)
extract_loop x (a ∷ b ∷ rest) =
    let onward = λ (y : Extracted). extract_loop y (b ∷ rest) in
    let beyond = λ (y : Extracted). extract_loop y rest in
    if starts_with (codes "--lower=") a
    then onward (record x { lower = drop 8 a })
    else if starts_with (codes "--upper=") a
    then onward (record x { upper = drop 8 a })
    else if text_eq a (codes "--lower") || text_eq a (codes "--upper")
    then beyond
        (if text_eq a (codes "--lower") then record x { lower = b } else record x { upper = b })
    else if text_eq a (codes "--help") || text_eq a (codes "-h")
    then err help
    else if text_eq a (codes "-o") && text_eq b (codes "jdebug")
    then beyond (record x { debug = true })
    else onward (keep x a)

unfoldable pub extract_args : Text → List Text → Result Stop Extracted
unfolding extract_loop
extract_args program args =
    extract_loop (record { lower = []; upper = []; debug = false; kept = program ∷ [] }) args

-- `lower[i] == '/'`.
abbrev pub slash_at : Text → ℕ → Bool
slash_at s i = elim (drop i s) [ [] ↦ false | c ∷ rest ↦ c == b'/' ]

abbrev pub below : Text → Text → Bool
below inner outer =
    ltb (length outer) (length inner) && (starts_with outer inner && slash_at inner (length outer))

unfoldable pub is_nested : Text → Text → Bool
is_nested lower upper = text_eq lower upper || (below lower upper || below upper lower)

-- `realpath`, and what `stat` and `access` say of a directory, are the system's.
module _ (realpath : Text → Option Text) (is_directory writable : Text → Bool) where
  canonicalise : Text → Result Stop Text
  canonicalise p = elim (realpath p) [ none ↦ err (unresolved p) | some q ↦ ok q ]

  require : Bool → Stop → Result Stop (Unit {0})
  require true e = ok tt
  require false e = err e

  -- The layers that are mounted.
  unfoldable pub layers : Extracted → Result Stop (Text × Text)
  unfolding canonicalise require is_nested
  layers x = do
    u ← require (not (is_empty x.lower || is_empty x.upper)) both_required
    lower ← canonicalise x.lower
    upper ← canonicalise x.upper
    u ← require (is_directory lower) (not_directory lower)
    u ← require (is_directory upper) (not_directory upper)
    u ← require (writable upper) (not_writable upper)
    u ← require (not (is_nested lower upper)) nested
    ok (lower, upper)

  unfoldable pub start : Text → List Text → Result Stop (Text × Text)
  unfolding layers extract_args
  start program args = extract_args program args >>= layers
