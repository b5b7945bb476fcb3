-- ===== src/Options/File/Ends.antt =====
-- The loops of `parse_file` end: every round takes at least one byte, so fuel beyond the length of
-- the text changes nothing.
use jaim.Prelude.{
  ℕ, zero, suc, ◌≤◌, ◌<◌, Bool, [], ◌∷◌, ◌≡◌, refl, Text, length, drop_while, arith, Result, ok,
}
use jaim.Options.Action.{Actions}
use jaim.Options.File.{
  ws, Value, unescape, value_step, value_loop, Round, finished, comment, option_line, FileError,
  run_line, ◌then_do◌,
}

drop_while-length : (p : ℕ → Bool) (s : Text) → length (drop_while p s) ≤ length s
drop_while-length p [] = omega arith
drop_while-length p (c ∷ s) = ground (arith, drop_while-length p s)

value_step-length : (v : Value) (c : ℕ) (s : Text) → length (value_step v c s).1 ≤ length s
unfolding value_step unescape
value_step-length v c s = ground (arith, drop_while-length ws s)

-- Fuel beyond the length of the value's text changes nothing.
value_loop_fuel :
    (f g : ℕ) (v : Value) (s : Text)
    → length s ≤ f
    → length s ≤ g
    → value_loop f v s ≡ value_loop g v s
unfolding value_loop
value_loop_fuel zero zero v s p q = refl
value_loop_fuel zero (suc g) v [] p q = refl
value_loop_fuel (suc f) zero v [] p q = refl
value_loop_fuel zero (suc g) v (c ∷ s) p q = absurd (omega arith)
value_loop_fuel (suc f) zero v (c ∷ s) p q = absurd (omega arith)
value_loop_fuel (suc f) (suc g) v [] p q = refl
value_loop_fuel (suc f) (suc g) v (c ∷ s) p q = ground (
  arith,
  value_loop_fuel f g (value_step v c s).0 (value_step v c s).1
      (omega (arith, value_step-length v c s)) (omega (arith, value_step-length v c s)),
)

-- A round leaves less than `n` bytes.
abbrev Leaves : ℕ → Round → Type 0
Leaves n finished = Unit {0}
Leaves n (comment r) = length r < n
Leaves n (option_line optarg r) = length r < n

module _ {S E : Type 0} (caught : E → Bool) (has_errpath : Bool) (m : Actions S E)
    (text : Text) where
  abbrev Loop : Type 0
  Loop = Text → S → Result (FileError E) S

  -- A round, with what the loop does behind it.
  run : Loop → Round → S → Result (FileError E) S
  run loop r s = elim r [
    | finished ↦ ok s
    | comment rest ↦ loop rest s
    | option_line optarg rest ↦ run_line caught has_errpath m text optarg rest s then_do loop rest
  ]
