-- ===== src/Config/Expand/Laws.antt =====
-- The loop of `var_expand` ends, and templates are expanded as they were meant.
use jaim.Prelude.{
  ℕ, zero, suc, ◌≤◌, List, [], ◌∷◌, ◌++◌, ◌≡◌, inl, inr, refl, ap, ◌∙◌, arith, Option-cases, false,
  ◌||◌, ◌==◌, if◌then◌else◌, Bool-cases, Text, length, All, Avoids, split_at, split_at-length,
  split_at-append,
}
use jaim.Config.Expand.{expand_step, expand_loop, var_expand}

-- Every round consumes at least one byte.
expand_step-length :
    (exp : Text → Text) (c : ℕ) (s : Text) → length (expand_step exp c s).1 ≤ length s
unfolding expand_step
expand_step-length exp c [] = ground arith
expand_step-length exp c (d ∷ s) = elim (Option-cases (split_at b'}' s)) [
  | inl missing ↦ ground arith
  | inr (found, e) ↦ ground (arith, split_at-length b'}' s {before = found.0} {after = found.1} e)
]

-- Fuel beyond the length changes nothing.
expand_loop_fuel :
    (exp : Text → Text) (f g : ℕ) (s : Text)
    → length s ≤ f
    → length s ≤ g
    → expand_loop exp f s ≡ expand_loop exp g s
unfolding expand_loop
expand_loop_fuel exp zero zero s p q = refl
expand_loop_fuel exp zero (suc g) [] p q = refl
expand_loop_fuel exp (suc f) zero [] p q = refl
expand_loop_fuel exp zero (suc g) (c ∷ s) p q = absurd (omega arith)
expand_loop_fuel exp (suc f) zero (c ∷ s) p q = absurd (omega arith)
expand_loop_fuel exp (suc f) (suc g) [] p q = refl
expand_loop_fuel exp (suc f) (suc g) (c ∷ s) p q = ap (◌++◌ (expand_step exp c s).0) (
    expand_loop_fuel exp f g (expand_step exp c s).1 (omega (arith, expand_step-length exp c s))
      (omega (arith, expand_step-length exp c s)))

pub var_expand-cons :
    (exp : Text → Text) (c : ℕ) (s : Text)
    → var_expand (c ∷ s) exp ≡ (expand_step exp c s).0 ++ var_expand (expand_step exp c s).1 exp
unfolding var_expand expand_loop
var_expand-cons exp c s = ap (◌++◌ (expand_step exp c s).0) (
    expand_loop_fuel exp (length s) (length (expand_step exp c s).1) (expand_step exp c s).1
      (expand_step-length exp c s) (omega arith))

-- A template: literal pieces, and variables by name.
pub data Piece : Type 0 where
  literal : Text → Piece
  named : Text → Piece

-- A literal piece as it is written: a backslash stands before each backslash and dollar sign.
pub quote : Text → Text
quote [] = []
quote (c ∷ s) = (if c == b'\\' || c == b'$' then b'\\' ∷ c ∷ [] else c ∷ []) ++ quote s

pub write : List Piece → Text
unfolding quote
write [] = []
write (literal s ∷ ps) = quote s ++ write ps
write (named v ∷ ps) = b'$' ∷ b'{' ∷ (v ++ (b'}' ∷ write ps))

pub values : (Text → Text) → List Piece → Text
values exp [] = []
values exp (literal s ∷ ps) = s ++ values exp ps
values exp (named v ∷ ps) = exp v ++ values exp ps

-- No name of a variable holds a closing brace.
abbrev pub IsClosed : Piece → Type 0
IsClosed (literal s) = Unit
IsClosed (named v) = Avoids b'}' v

var_expand_escaped :
    (exp : Text → Text) (c : ℕ) (s : Text) → var_expand (b'\\' ∷ c ∷ s) exp ≡ c ∷ var_expand s exp
unfolding expand_step
var_expand_escaped exp c s = var_expand-cons exp b'\\' (c ∷ s)

var_expand_ordinary :
    (exp : Text → Text) (c : ℕ) (s : Text)
    → (c == b'\\' || c == b'$') ≡ false
    → var_expand (c ∷ s) exp ≡ c ∷ var_expand s exp
unfolding expand_step
var_expand_ordinary exp c s h = ground (arith, var_expand-cons exp c s)

var_expand_named :
    (exp : Text → Text) (v rest : Text)
    → Avoids b'}' v
    → var_expand (b'$' ∷ b'{' ∷ (v ++ (b'}' ∷ rest))) exp ≡ exp v ++ var_expand rest exp
unfolding expand_step
var_expand_named exp v rest h =
    ground
      (arith, var_expand-cons exp b'$' (b'{' ∷ (v ++ (b'}' ∷ rest))), split_at-append b'}' v rest h)

var_expand-quote :
    (exp : Text → Text) (s rest : Text)
    → var_expand (quote s ++ rest) exp ≡ s ++ var_expand rest exp
unfolding quote
var_expand-quote exp [] rest = refl
var_expand-quote exp (c ∷ s) rest = elim (Bool-cases (c == b'\\' || c == b'$')) [
  | inl special ↦
      rw special
        (var_expand_escaped exp c (quote s ++ rest) ∙ ap (◌∷◌ c) (var_expand-quote exp s rest))
  | inr ordinary ↦ rw ordinary (
      var_expand_ordinary exp c (quote s ++ rest) ordinary
      ∙ ap (◌∷◌ c) (var_expand-quote exp s rest))
]

-- A template with its literal pieces quoted expands to the literal pieces with the variables'
-- values between them, if no name of a variable holds a closing brace.
pub var_expand-write :
    (exp : Text → Text) (ps : List Piece)
    → All IsClosed ps
    → var_expand (write ps) exp ≡ values exp ps
unfolding write values
var_expand-write exp [] h = unfold var_expand in refl
var_expand-write exp (literal s ∷ ps) h =
    var_expand-quote exp s (write ps) ∙ ap (◌++◌ s) (var_expand-write exp ps h.1)
var_expand-write exp (named v ∷ ps) h =
    var_expand_named exp v (write ps) h.0 ∙ ap (◌++◌ (exp v)) (var_expand-write exp ps h.1)
