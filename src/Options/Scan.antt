-- ===== src/Options/Scan.antt =====
-- `Options::scan_arg` of options.cc and `Options::scan_args` of options.h: arguments become items.
pub mod Sound
pub mod Ends
use jaim.Prelude.{
  ℕ, zero, suc, ◌+◌, Bool, true, false, not, List, [], ◌∷◌, ◌++◌, Option, none, some, ◌==◌,
  if◌then◌else◌, Text, text_eq, codes, length, is_empty, split_at,
}
use jaim.Options.Action.{HasArg, no_arg, arg, opt_arg, Action, Actions, has_arg, get_action}

-- `ScanItem::Kind`.
pub data Kind : Type 0 where
  option option_arg need_next_arg positional_here positional_next : Kind
  unknown_option unexpected_arg : Kind

pub record ScanItem (S E : Type 0) : Type 0 where
  pub kind : Kind
  pub opt : Text
  pub value : Text
  pub action : Option (Action S E)

pub record ScanArgsResult (S E : Type 0) : Type 0 where
  pub scan : List (ScanItem S E)
  pub positional : ℕ

-- What one item does to the loops of `scan_args`: they return, or go on at index `i` with the
-- arguments behind it that are left and the items so far.
pub data Flow (S E : Type 0) : Type 0 where
  returned : ScanArgsResult S E → Flow S E
  continues : ℕ → List Text → List (ScanItem S E) → Flow S E

module _ {S E : Type 0} where
  abbrev pub item : Kind → Text → Text → Option (Action S E) → ScanItem S E
  item k o a act = record { kind = k; opt = o; value = a; action = act }

  -- A long option whose action is found: `attached` is the text behind `=`, if there is one.
  scan_found : Text → Action S E → HasArg → Option Text → ScanItem S E
  scan_found opt action arg none = item need_next_arg opt [] (some action)
  scan_found opt action _ none = item option opt [] (some action)
  scan_found opt action no_arg (some a) = item unexpected_arg opt [] none
  scan_found opt action _ (some a) = item option_arg opt a (some action)

  scan_named : Actions S E → Text → Option Text → ScanItem S E
  unfolding scan_found
  scan_named m opt attached = elim (get_action opt m) [
    | none ↦ item unknown_option opt [] none
    | some action ↦ scan_found opt action (has_arg action) attached
  ]

  -- `optarg[1] == '-'`.
  scan_long : Actions S E → Text → ScanItem S E
  unfolding scan_named
  scan_long m optarg = elim (split_at b'=' optarg) [
    | none ↦ scan_named m optarg none
    | some (opt, a) ↦ scan_named m opt (some a)
  ]

  -- The last option of a cluster that may take an argument; `rest` is what stands behind it.
  scan_last : Text → Action S E → HasArg → Text → ScanItem S E
  scan_last opt action ha (c ∷ rest) = item option_arg opt (c ∷ rest) (some action)
  scan_last opt action opt_arg [] = item option opt [] (some action)
  scan_last opt action _ [] = item need_next_arg opt [] (some action)

  -- The loop over the letters of a cluster of short options.
  scan_short : Actions S E → Text → List (ScanItem S E)
  unfolding scan_last
  scan_short m [] = []
  scan_short m (c ∷ rest) =
      let opt = b'-' ∷ c ∷ [] in
      elim (get_action opt m) [
        | none ↦ item unknown_option opt [] none ∷ []
        | some action ↦ elim (has_arg action) [
          | no_arg ↦ item option opt [] (some action) ∷ scan_short m rest
          | ha ↦ scan_last opt action ha rest ∷ []
        ]
      ]

  unfoldable pub scan_arg : Actions S E → Text → List (ScanItem S E)
  unfolding scan_long scan_short
  scan_arg m [] = item positional_here [] [] none ∷ []
  scan_arg m (a ∷ []) = item positional_here [] [] none ∷ []
  scan_arg m (a ∷ b ∷ rest) =
      if text_eq (a ∷ b ∷ rest) (codes "--")
      then item positional_next [] [] none ∷ []
      else if not (a == b'-')
      then item positional_here [] [] none ∷ []
      else if b == b'-'
      then scan_long m (a ∷ b ∷ rest) ∷ []
      else scan_short m (b ∷ rest)

  abbrev stopped : List (ScanItem S E) → ℕ → Flow S E
  stopped scan positional = returned (record { scan = scan; positional = positional })

  -- The body of the inner loop at an item of the argument at `i`; `rest` is `args` behind `i`, and
  -- `size` is `args.size()`.
  item_step : Kind → ℕ → ScanItem S E → ℕ → List Text → List (ScanItem S E) → Flow S E
  item_step positional_here size it i rest scan = stopped scan i
  item_step positional_next size it i rest scan = stopped scan (i + 1)
  item_step need_next_arg size it i (v ∷ rest) scan =
      continues (i + 1) rest (scan ++ record it { kind = option_arg; value = v } ∷ [])
  item_step option size it i rest scan = continues i rest (scan ++ it ∷ [])
  item_step option_arg size it i rest scan = continues i rest (scan ++ it ∷ [])
  item_step _ size it i rest scan = stopped (scan ++ it ∷ []) size

  items_loop : ℕ → List (ScanItem S E) → ℕ → List Text → List (ScanItem S E) → Flow S E
  unfolding item_step
  items_loop size [] i rest scan = continues i rest scan
  items_loop size (it ∷ items) i rest scan = elim (item_step it.kind size it i rest scan) [
    | returned r ↦ returned r
    | continues i' rest' scan' ↦ items_loop size items i' rest' scan'
  ]

  -- The outer loop, on fuel.
  pub scan_loop : ℕ → Actions S E → ℕ → ℕ → List Text → List (ScanItem S E) → ScanArgsResult S E
  scan_loop zero m size i args scan = record { scan = scan; positional = size }
  scan_loop (suc f) m size i [] scan = record { scan = scan; positional = size }
  scan_loop (suc f) m size i (a ∷ rest) scan = elim (items_loop size (scan_arg m a) i rest scan) [
    | returned r ↦ r
    | continues i' rest' scan' ↦ scan_loop f m size (i' + 1) rest' scan'
  ]

  unfoldable pub scan_args : Actions S E → List Text → ScanArgsResult S E
  unfolding scan_loop items_loop
  scan_args m args = scan_loop (length args) m (length args) 0 args []
