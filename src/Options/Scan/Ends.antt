-- ===== src/Options/Scan/Ends.antt =====
-- The loop of `scan_args` ends: every round takes at least one argument.
use jaim.Prelude.{ℕ, zero, suc, ◌+◌, ◌≤◌, List, [], ◌∷◌, ◌≡◌, refl, Text, length, arith}
use jaim.Options.Action.{Actions}
use jaim.Options.Scan.{
  Kind, option, option_arg, need_next_arg, positional_here, positional_next, unknown_option,
  unexpected_arg, ScanItem, ScanArgsResult, Flow, returned, continues, item_step, items_loop,
  scan_arg, scan_loop, scan_args,
}

module _ {S E : Type 0} where
  -- At most `n` arguments are left.
  abbrev Leaves : ℕ → Flow S E → Type 0
  Leaves n (returned r) = Unit {0}
  Leaves n (continues i rest scan) = length rest ≤ n

  Leaves-more : (fl : Flow S E) (m n : ℕ) → m ≤ n → Leaves m fl → Leaves n fl
  Leaves-more (returned r) m n h k = tt
  Leaves-more (continues i rest scan) m n h k = omega arith

  item_step-Leaves :
      (k : Kind) (size : ℕ) (it : ScanItem S E) (i : ℕ) (rest : List Text)
      (scan : List (ScanItem S E))
      → Leaves (length rest) (item_step k size it i rest scan)
  unfolding item_step
  item_step-Leaves option size it i rest scan = omega arith
  item_step-Leaves option_arg size it i rest scan = omega arith
  item_step-Leaves need_next_arg size it i [] scan = tt
  item_step-Leaves need_next_arg size it i (v ∷ rest) scan = omega arith
  item_step-Leaves positional_here size it i rest scan = tt
  item_step-Leaves positional_next size it i rest scan = tt
  item_step-Leaves unknown_option size it i rest scan = tt
  item_step-Leaves unexpected_arg size it i rest scan = tt

  -- An item, with what the loop does behind it.
  go_on : (ℕ → List Text → List (ScanItem S E) → Flow S E) → Flow S E → Flow S E
  go_on loop fl = elim fl [ returned r ↦ returned r | continues i rest scan ↦ loop i rest scan ]

  go_on-Leaves :
      (loop : ℕ → List Text → List (ScanItem S E) → Flow S E) (n : ℕ) (fl : Flow S E)
      → Leaves n fl
      → ((i : ℕ) (rest : List Text) (scan : List (ScanItem S E))
          → Leaves (length rest) (loop i rest scan))
      → Leaves n (go_on loop fl)
  unfolding go_on
  go_on-Leaves loop n (returned r) h k = tt
  go_on-Leaves loop n (continues i rest scan) h k =
      Leaves-more (loop i rest scan) (length rest) n h (k i rest scan)

  items_loop-Leaves :
      (size : ℕ) (items : List (ScanItem S E)) (i : ℕ) (rest : List Text)
      (scan : List (ScanItem S E))
      → Leaves (length rest) (items_loop size items i rest scan)
  unfolding items_loop go_on
  items_loop-Leaves size [] i rest scan = omega arith
  items_loop-Leaves size (it ∷ items) i rest scan =
      go_on-Leaves (items_loop size items) (length rest) (item_step it.kind size it i rest scan)
        (item_step-Leaves it.kind size it i rest scan) (items_loop-Leaves size items)

  -- A round, with what the outer loop does behind it.
  after : (ℕ → List Text → List (ScanItem S E) → ScanArgsResult S E) → Flow S E → ScanArgsResult S E
  after loop fl = elim fl [ returned r ↦ r | continues i rest scan ↦ loop (i + 1) rest scan ]

  after-same :
      (k l : ℕ → List Text → List (ScanItem S E) → ScanArgsResult S E) (n : ℕ) (fl : Flow S E)
      → Leaves n fl
      → ((i : ℕ) (rest : List Text) (scan : List (ScanItem S E))
          → length rest ≤ n
          → k i rest scan ≡ l i rest scan)
      → after k fl ≡ after l fl
  unfolding after
  after-same k l n (returned r) h same = refl
  after-same k l n (continues i rest scan) h same = same (i + 1) rest scan h

  scan_loop_fuel :
      (f g : ℕ) (m : Actions S E) (size i : ℕ) (args : List Text) (scan : List (ScanItem S E))
      → length args ≤ f
      → length args ≤ g
      → scan_loop f m size i args scan ≡ scan_loop g m size i args scan
  unfolding scan_loop after
  scan_loop_fuel zero zero m size i args scan p q = refl
  scan_loop_fuel zero (suc g) m size i [] scan p q = refl
  scan_loop_fuel (suc f) zero m size i [] scan p q = refl
  scan_loop_fuel zero (suc g) m size i (a ∷ args) scan p q = absurd (omega arith)
  scan_loop_fuel (suc f) zero m size i (a ∷ args) scan p q = absurd (omega arith)
  scan_loop_fuel (suc f) (suc g) m size i [] scan p q = refl
  scan_loop_fuel (suc f) (suc g) m size i (a ∷ args) scan p q =
      after-same (scan_loop f m size) (scan_loop g m size) (length args)
        (items_loop size (scan_arg m a) i args scan)
        (items_loop-Leaves size (scan_arg m a) i args scan)
        (λ i' rest scan' h. scan_loop_fuel f g m size i' rest scan' (omega arith) (omega arith))

  -- `scan_args` ends on every list of arguments: any fuel from their number on gives the result that
  -- it returns.
  pub scan_loop-enough :
      (f : ℕ) (m : Actions S E) (args : List Text)
      → length args ≤ f
      → scan_loop f m (length args) 0 args [] ≡ scan_args m args
  unfolding scan_args
  scan_loop-enough f m args h =
      scan_loop_fuel f (length args) m (length args) 0 args [] h (omega arith)
