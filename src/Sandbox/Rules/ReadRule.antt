-- ===== src/Sandbox/Rules/ReadRule.antt =====
-- A reader of a whole rule of the profile that `generate_sandbox_profile` of jaim.cc writes.
use jaim.Prelude.{
  ℕ, zero, suc, ◌<◌, false, List, [], ◌∷◌, ◌++◌, length, All, length-append, Option, none, some,
  ◌≡◌, refl, arith, Text, codes, append_assoc,
}
use jaim.Sandbox.Escape.{sbpl_escape}
use jaim.Sandbox.Escape.Laws.{read_string, read_string-sbpl_escape}
use jaim.Sandbox.Rules.{
  Access, file_read, file_all, Filter, subpath, literal, regex, Rule, allow, allow_any,
  allow_except, access_text, filter_text, filter_lines, except_lines, rule_text,
}
use jaim.Sandbox.Rules.ReadBack.{
  strip, read_filter, read_filter-filter_text, IsReadable, ◌>>=◌, or_else,
}

read_access : Text → Option (Access × Text)
read_access s =
    or_else (strip (codes "file-read*") s >>= (λ t. some (file_read, t)))
      (strip (codes "file*") s >>= (λ t. some (file_all, t)))

-- Filters on lines of their own, up to the end of the rule; each takes one step of the fuel.
read_filters : ℕ → Text → Option (List Filter × Text)
read_filters zero s = none
read_filters (suc fuel) s = or_else (strip (codes ")\n") s >>= (λ t. some ([], t))) (do
  t ← strip (codes "\n  ") s
  (f, u) ← read_filter t
  (fs, v) ← read_filters fuel u
  some (f ∷ fs, v))

read_excepts : ℕ → Text → Option (List Text × Text)
read_excepts zero s = none
read_excepts (suc fuel) s = or_else (strip (codes "  ))\n") s >>= (λ t. some ([], t))) (do
  t ← strip (codes "    (require-not (subpath \"") s
  (m, u) ← read_string false t
  v ← strip (codes "))\n") u
  (ms, w) ← read_excepts fuel v
  some (m ∷ ms, w))

single : Access → Text → Option (Rule × Text)
single a s = do
  t ← strip (codes " ") s
  (f, u) ← read_filter t
  v ← strip (codes ")\n") u
  some (allow a f, v)

masked : Access → Text → Option (Rule × Text)
masked a s = do
  t ← strip (codes "\n  (require-all\n    (subpath \"") s
  (base, u) ← read_string false t
  v ← strip (codes ")\n") u
  (ms, w) ← read_excepts (length v) v
  some (allow_except a base ms, w)

several : Access → Text → Option (Rule × Text)
several a s = do (fs, t) ← read_filters (length s) s; some (allow_any a fs, t)

-- The first rule of a profile and what follows it.
pub read_rule : Text → Option (Rule × Text)
read_rule s = do
  t ← strip (codes "(allow ") s
  (a, u) ← read_access t
  or_else (single a u) (or_else (masked a u) (several a u))

read_filters-filter_lines :
    (fuel : ℕ) (fs : List Filter) (rest : Text)
    → length fs < fuel
    → All IsReadable fs
    → read_filters fuel (filter_lines fs ++ rest) ≡ some (fs, rest)
unfolding read_filters filter_lines strip
read_filters-filter_lines zero fs rest h all = ground (arith)
read_filters-filter_lines (suc fuel) [] rest h all = refl
read_filters-filter_lines (suc fuel) (f ∷ fs) rest h all =
    rw
      (
        append_assoc (filter_text f) (filter_lines fs) rest,
        read_filter-filter_text f (filter_lines fs ++ rest) all.0,
        read_filters-filter_lines fuel fs rest (omega (arith)) all.1,
      )
      refl

read_excepts-except_lines :
    (fuel : ℕ) (ms : List Text) (rest : Text)
    → length ms < fuel
    → read_excepts fuel (except_lines ms ++ rest) ≡ some (ms, rest)
unfolding read_excepts except_lines filter_text strip
read_excepts-except_lines zero ms rest h = ground (arith)
read_excepts-except_lines (suc fuel) [] rest h = refl
read_excepts-except_lines (suc fuel) (m ∷ ms) rest h =
    rw
      (
        append_assoc (sbpl_escape m ++ codes "\")" ++ codes ")\n") (except_lines ms) rest,
        append_assoc (sbpl_escape m ++ codes "\")") (codes ")\n") (except_lines ms ++ rest),
        append_assoc (sbpl_escape m) (codes "\")") (codes ")\n" ++ (except_lines ms ++ rest)),
        read_string-sbpl_escape m (codes "))\n" ++ (except_lines ms ++ rest)),
        read_excepts-except_lines fuel ms rest (omega (arith)),
      )
      refl

length-filter_lines :
    (fs : List Filter) (rest : Text) → length fs < length (filter_lines fs ++ rest)
unfolding filter_lines
length-filter_lines [] rest = omega (arith)
length-filter_lines (f ∷ fs) rest = rw (append_assoc (filter_text f) (filter_lines fs) rest) (
    omega
      (arith, length-append (filter_text f) (filter_lines fs ++ rest), length-filter_lines fs rest))

length-except_lines : (ms : List Text) (rest : Text) → length ms < length (except_lines ms ++ rest)
unfolding except_lines
length-except_lines [] rest = omega (arith)
length-except_lines (m ∷ ms) rest =
    rw (append_assoc (filter_text (subpath m) ++ codes ")\n") (except_lines ms) rest) (
      omega (
        arith,
        length-append (filter_text (subpath m) ++ codes ")\n") (except_lines ms ++ rest),
        length-except_lines ms rest,
      ))

masked-filter_lines :
    (a : Access) (fs : List Filter) (rest : Text) → masked a (filter_lines fs ++ rest) ≡ none
unfolding masked filter_lines filter_text strip
masked-filter_lines a [] rest = refl
masked-filter_lines a (subpath p ∷ fs) rest = refl
masked-filter_lines a (literal p ∷ fs) rest = refl
masked-filter_lines a (regex r ∷ fs) rest = refl

single-filter_lines :
    (a : Access) (fs : List Filter) (rest : Text) → single a (filter_lines fs ++ rest) ≡ none
unfolding single filter_lines strip
single-filter_lines a [] rest = refl
single-filter_lines a (f ∷ fs) rest = refl

read_access-access_text : (a : Access) (s : Text) → read_access (access_text a ++ s) ≡ some (a, s)
unfolding read_access access_text strip
read_access-access_text file_read s = refl
read_access-access_text file_all s = refl

abbrev opening : Text
opening = codes "\n  (require-all\n    "

abbrev pub IsRead : Rule → Type 0
IsRead (allow a f) = IsReadable f
IsRead (allow_any a fs) = All IsReadable fs
IsRead (allow_except a base ms) = Unit {0}

-- The text of a rule, whatever follows it, reads back as that rule with the rest left over, so no
-- path in it can end its literal or add a rule; a backslash must not end a regular expression in it.
pub read_rule-rule_text :
    (r : Rule) (rest : Text) → IsRead r → read_rule (rule_text r ++ rest) ≡ some (r, rest)
unfolding read_rule rule_text strip single masked several filter_text
read_rule-rule_text (allow a f) rest h =
    rw
      (
        append_assoc (access_text a ++ codes " " ++ filter_text f) (codes ")\n") rest,
        append_assoc (access_text a ++ codes " ") (filter_text f) (codes ")\n" ++ rest),
        append_assoc (access_text a) (codes " ") (filter_text f ++ (codes ")\n" ++ rest)),
        read_access-access_text a (codes " " ++ (filter_text f ++ (codes ")\n" ++ rest))),
        read_filter-filter_text f (codes ")\n" ++ rest) h,
      )
      refl
read_rule-rule_text (allow_any a fs) rest h =
    rw
      (
        append_assoc (access_text a) (filter_lines fs) rest,
        read_access-access_text a (filter_lines fs ++ rest),
        single-filter_lines a fs rest,
        masked-filter_lines a fs rest,
        read_filters-filter_lines (length (filter_lines fs ++ rest)) fs rest
            (length-filter_lines fs rest) h,
      )
      refl
read_rule-rule_text (allow_except a base ms) rest h =
    let tail = except_lines ms ++ rest in
    rw
      (
        append_assoc (access_text a ++ opening ++ filter_text (subpath base) ++ codes "\n")
            (except_lines ms) rest,
        append_assoc (access_text a ++ opening ++ filter_text (subpath base)) (codes "\n") tail,
        append_assoc (access_text a ++ opening) (filter_text (subpath base)) (b'\n' ∷ tail),
        append_assoc (access_text a) opening (filter_text (subpath base) ++ (b'\n' ∷ tail)),
        read_access-access_text a (opening ++ (filter_text (subpath base) ++ (b'\n' ∷ tail))),
        append_assoc (sbpl_escape base) (codes "\")") (b'\n' ∷ tail),
        read_string-sbpl_escape base (b')' ∷ b'\n' ∷ tail),
        read_excepts-except_lines (length tail) ms rest (length-except_lines ms rest),
      )
      refl
