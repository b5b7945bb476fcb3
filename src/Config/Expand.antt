-- ===== src/Config/Expand.antt =====
-- `var_expand` of jaim.h: strings such as "123${VAR}456".
pub mod Laws
use jaim.Prelude.{
  ℕ, zero, suc, [], ◌∷◌, ◌++◌, none, some, ◌==◌, if◌then◌else◌, Text, length, split_at,
}

-- Behind a backslash.
escaped : Text → Text × Text
escaped [] = (b'\\' ∷ [], [])
escaped (d ∷ s) = (d ∷ [], s)

-- Behind a dollar sign.
variable : (Text → Text) → Text → Text × Text
variable exp [] = (b'$' ∷ [], [])
variable exp (d ∷ s) =
    if d == b'{'
    then elim (split_at b'}' s) [ none ↦ (b'$' ∷ [], d ∷ s) | some (name, rest) ↦ (exp name, rest) ]
    else (b'$' ∷ [], d ∷ s)

-- One round of the loop at the byte `c`: what is appended to `ret`, and the text that is left.
pub expand_step : (Text → Text) → ℕ → Text → Text × Text
unfolding escaped variable split_at
expand_step exp c s =
    if c == b'\\' then escaped s else if c == b'$' then variable exp s else (c ∷ [], s)

-- The loop, on fuel.
pub expand_loop : (Text → Text) → ℕ → Text → Text
expand_loop exp zero s = []
expand_loop exp (suc f) [] = []
expand_loop exp (suc f) (c ∷ s) =
    let (out, rest) = expand_step exp c s in out ++ expand_loop exp f rest

unfoldable pub var_expand : Text → (Text → Text) → Text
unfolding expand_loop expand_step
var_expand s exp = expand_loop exp (length s) s
