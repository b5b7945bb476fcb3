-- ===== src/Sandbox/Rules/ReadBack.antt =====
-- A reader of the filters of a profile's rules, which `generate_sandbox_profile` of jaim.cc writes.
use jaim.Prelude.{
  ◌==◌, Bool, true, false, if◌then◌else◌, [], ◌∷◌, ◌++◌, Option, none, some, ◌≡◌, refl, arith, Text,
  codes, append_assoc,
}
use jaim.Sandbox.Escape.{sbpl_escape, quote_regex}
use jaim.Sandbox.Escape.Laws.{read_string, read_string-sbpl_escape}
use jaim.Sandbox.Rules.{Filter, subpath, literal, regex, filter_text}

-- What follows a text.
unfoldable pub strip : Text → Text → Option Text
strip [] s = some s
strip (c ∷ p) [] = none
strip (c ∷ p) (x ∷ s) = let rest = strip p s in if x == c then rest else none

prefix : Text → Option (Text × Text) → Option (Text × Text)
prefix t none = none
prefix t (some (s, rest)) = some (t ++ s, rest)

-- A raw string, in which a backslash stands for itself but before a quote, read from behind its
-- opening quote; the flag tells that a backslash has been met.
read_raw : Bool → Text → Option (Text × Text)
read_raw pending [] = none
read_raw pending (c ∷ s) =
    let quoted = read_raw false s in
    let later = read_raw (c == b'\\') s in
    if c == b'"'
    then (if pending then prefix (b'"' ∷ []) quoted else some ([], s))
    else prefix ((if pending then b'\\' ∷ [] else []) ++ (if c == b'\\' then [] else c ∷ [])) later

-- A text that a backslash does not end.
abbrev pub IsClosed : Bool → Text → Type 0
IsClosed pending [] = pending ≡ false
IsClosed pending (c ∷ s) = IsClosed (c == b'\\') s

abbrev raw_of : Bool → Text → Text
raw_of pending s = if pending then b'\\' ∷ s else s

read_raw-quote_regex :
    (pending : Bool) (s rest : Text)
    → IsClosed pending s
    → read_raw pending (quote_regex s ++ b'"' ∷ rest) ≡ some (raw_of pending s, rest)
unfolding read_raw quote_regex prefix
read_raw-quote_regex pending [] rest h = rw h refl
read_raw-quote_regex pending (c ∷ s) rest h = ground (
  arith,
  read_raw-quote_regex false s rest,
  read_raw-quote_regex true s rest,
  read_raw-quote_regex (c == b'\\') s rest h,
)

infixl 5 ◌>>=◌
abbrev pub ◌>>=◌ : {A B : Type 0} → Option A → (A → Option B) → Option B
none >>= f = none
some a >>= f = f a

abbrev pub or_else : {A : Type 0} → Option A → Option A → Option A
or_else none o = o
or_else (some a) o = some a

-- The rest of a filter, behind its opening quote.
quoted : (Text → Filter) → Text → Option (Filter × Text)
quoted f s = do (p, t) ← read_string false s; u ← strip (codes ")") t; some (f p, u)

raw_quoted : Text → Option (Filter × Text)
raw_quoted s = do (r, t) ← read_raw false s; u ← strip (codes ")") t; some (regex r, u)

pub read_filter : Text → Option (Filter × Text)
read_filter s = or_else (strip (codes "(subpath \"") s >>= quoted subpath) (
    or_else (strip (codes "(literal \"") s >>= quoted literal)
      (strip (codes "(regex #\"") s >>= raw_quoted))

abbrev pub IsReadable : Filter → Type 0
IsReadable (regex r) = IsClosed false r
IsReadable (subpath p) = Unit {0}
IsReadable (literal p) = Unit {0}

pub read_filter-filter_text :
    (f : Filter) (rest : Text) → IsReadable f → read_filter (filter_text f ++ rest) ≡ some (f, rest)
unfolding read_filter filter_text strip quoted raw_quoted
read_filter-filter_text (subpath p) rest h =
    rw (append_assoc (sbpl_escape p) (codes "\")") rest, read_string-sbpl_escape p (b')' ∷ rest))
      refl
read_filter-filter_text (literal p) rest h =
    rw (append_assoc (sbpl_escape p) (codes "\")") rest, read_string-sbpl_escape p (b')' ∷ rest))
      refl
read_filter-filter_text (regex r) rest h =
    rw
      (
        append_assoc (quote_regex r) (codes "\")") rest,
        read_raw-quote_regex false r (b')' ∷ rest) h,
      )
      refl
