-- ===== src/Prelude/Bytes.antt =====
-- Texts of the program, `std::string` and `std::string_view`, as lists of bytes.
use Prim.Native.Nat.{ℕ, zero, suc, ◌+◌, ◌/◌, ◌%◌, ◌≤◌}
use Prim.Native.Char.{code}
use Prim.Native.String.{String}
use mathlib.Core.Path.{◌≡◌, refl}
use mathlib.Core.Logic.{◌≢◌, ◌↔◌, inl, inr}
use mathlib.Core.Option.{Option, none, some}
use mathlib.Core.Bool.{Bool, true, false, ◌&&◌, ◌||◌}
use mathlib.Core.List.{List, [], ◌∷◌, ◌++◌}
use native.Mathlib.Omega.{arith}
use jaim.Prelude.Tests.{◌==◌, ltb, if◌then◌else◌, Option-cases}
use jaim.Prelude.Lists.{All, length}

abbrev pub Text : Type 0
Text = List ℕ

-- The bytes of an ASCII literal.
abbrev pub codes : String → Text
codes String.[] = []
codes (String.◌∷◌ c s) = code c ∷ codes s

-- `a == b` on texts.
unfoldable pub text_eq : Text → Text → Bool
text_eq [] [] = true
text_eq (x ∷ xs) (y ∷ ys) = x == y && text_eq xs ys
text_eq _ _ = false

pub text_eq_iff : (a b : Text) → (text_eq a b ≡ true) ↔ (a ≡ b)
unfolding text_eq
text_eq_iff (x ∷ a) (y ∷ b) = ground (arith, text_eq_iff a b)
text_eq_iff _ _ = ground arith

pub text_eq_self : (a : Text) → text_eq a a ≡ true
text_eq_self a = (text_eq_iff a a).1 refl

-- The decimal digits of a number below `10 ^ fuel`.
unfoldable pub digits : ℕ → ℕ → Text
digits zero n = []
digits (suc fuel) n =
    let most = digits fuel (n / 10) in
    if ltb n 10 then (b'0' + n) ∷ [] else most ++ (b'0' + n % 10) ∷ []

-- `std::to_string` of an unsigned number of at most 64 bits.
unfoldable pub to_string : ℕ → Text
to_string n = digits 20 n

-- `s.starts_with(prefix)`.
unfoldable pub starts_with : Text → Text → Bool
starts_with [] s = true
starts_with (p ∷ ps) (c ∷ s) = p == c && starts_with ps s
starts_with (p ∷ ps) [] = false

-- `std::string_view::contains(c)`.
unfoldable pub contains_byte : ℕ → Text → Bool
contains_byte c [] = false
contains_byte c (x ∷ s) = x == c || contains_byte c s

abbrev pub Avoids : ℕ → Text → Type 0
Avoids c s = All (λ x. x ≢ c) s

pub Avoids-contains_byte : (c : ℕ) (s : Text) → (contains_byte c s ≡ false) ↔ Avoids c s
unfolding contains_byte
Avoids-contains_byte c [] = ground arith
Avoids-contains_byte c (x ∷ s) = ground (arith, Avoids-contains_byte c s)

-- `s.find(c)`, as the text before the first `c` and the text behind it.
unfoldable pub split_at : ℕ → Text → Option (Text × Text)
split_at c [] = none
split_at c (x ∷ s) =
    if x == c
    then some ([], s)
    else elim (split_at c s) [ none ↦ none | some (before, after) ↦ some (x ∷ before, after) ]

pub split_at-length :
    (c : ℕ) (s : Text) {before after : Text}
    → split_at c s ≡ some (before, after)
    → length after ≤ length s
unfolding split_at
split_at-length c [] h = cc
split_at-length c (x ∷ s) h = elim (Option-cases (split_at c s)) [
  | inl missing ↦ ground arith
  | inr (found, e) ↦ ground (arith, split_at-length c s {before = found.0} {after = found.1} e)
]

pub split_at-append :
    (c : ℕ) (v rest : Text) → Avoids c v → split_at c (v ++ c ∷ rest) ≡ some (v, rest)
unfolding split_at
split_at-append c [] rest h = ground arith
split_at-append c (x ∷ v) rest h = ground (arith, split_at-append c v rest h.1)
