-- ===== src/Options/File.antt =====
-- `Options::parse_file` of options.cc: configuration files.
pub mod Quoting
pub mod Entries
pub mod RoundTrip
pub mod Ends
use mathlib.Core.List.{reverse}
use jaim.Prelude.{
  ℕ, zero, suc, ◌+◌, ◌-◌, Bool, true, false, not, ◌&&◌, List, [], ◌∷◌, ◌++◌, Option, none, some,
  Result, ok, err, ◌==◌, if◌then◌else◌, Text, codes, length, is_empty, contains_byte, take,
  drop_while, take_while,
}
use jaim.Options.Action.{Actions, Error, failed, logic, unreachable}
use jaim.Options.Parse.{parse_argspan}

-- The sets `ws`, `wsnl` and `wsnleq`.
abbrev pub ws : ℕ → Bool
ws c = contains_byte c (codes " \t\r")

abbrev pub wsnl : ℕ → Bool
wsnl c = contains_byte c (codes " \t\r\n")

abbrev pub wsnleq : ℕ → Bool
wsnleq c = contains_byte c (codes " \t\r\n=")

-- The variables of the loop over the value of an option.
pub record Value : Type 0 where
  pub optarg : Text
  pub escape : Bool
  pub last_escaped : Bool

abbrev append : Value → ℕ → Value
append v c = record v { optarg = v.optarg ++ c ∷ [] }

-- The switch behind a backslash: `s` is the text behind the byte `c`.
unescape : Value → ℕ → Text → Value × Text
unescape v c s =
    if c == b't'
    then (append v b'\t', s)
    else if c == b'r'
    then (append v b'\r', s)
    else if c == b'n'
    then (append v b'\n', s)
    else if c == b'\n'
    then (v, drop_while ws s)
    else (append v c, s)

-- One round of the loop at the byte `c`.
value_step : Value → ℕ → Text → Value × Text
unfolding unescape
value_step v c s =
    if c == b'\r'
    then (v, s)
    else if v.escape
    then unescape (record v { escape = false; last_escaped = true }) c s
    else if c == b'\\'
    then (record v { last_escaped = false; escape = true }, s)
    else (append (record v { last_escaped = false }) c, s)

-- The loop, on fuel; it returns with the text from the newline that ends the value.
pub value_loop : ℕ → Value → Text → Value × Text
value_loop zero v s = (v, s)
value_loop (suc f) v [] = (v, [])
value_loop (suc f) v (c ∷ s) = elim (not v.escape && c == b'\n') [
  | true ↦ (v, c ∷ s)
  | false ↦ let (v', rest) = value_step v c s in value_loop f v' rest
]

-- `while (wsnl.contains(optarg.back())) optarg.resize(optarg.size() - 1)`.
pub strip : Text → Text
strip s = reverse (drop_while wsnl (reverse s))

-- One round of the outer loop: nothing is left, a comment was skipped, or an option was read;
-- with the text from the position that the round ends at.
pub data Round : Type 0 where
  finished : Round
  comment : Text → Round
  option_line : Text → Text → Round

-- An option whose value starts at `s`, which is not empty.
read_value : Text → Text → Round
unfolding value_loop value_step strip
read_value name s =
    let (v, rest) =
      value_loop (length s) (record { optarg = name; escape = false; last_escaped = false }) s in
    option_line (if v.last_escaped then v.optarg else strip v.optarg) rest

-- Behind the name of an option.
read_option : Text → Text → Round
unfolding read_value
read_option optarg [] = option_line optarg []
read_option optarg (c ∷ s) =
    if c == b'\n'
    then option_line optarg (c ∷ s)
    else read_value (if c == b'=' then optarg else optarg ++ b'=' ∷ []) (c ∷ s)

read_line : Text → Round
unfolding read_option
read_line [] = finished
read_line (c ∷ s) =
    if c == b'#'
    then comment (drop_while (λ x. not (x == b'\n')) (c ∷ s))
    else read_option (codes "--" ++ take_while (λ x. not (wsnleq x)) (c ∷ s))
        (drop_while ws (drop_while (λ x. not (wsnleq x)) (c ∷ s)))

unfoldable pub round : Text → Round
unfolding read_line
round s = read_line (drop_while wsnl s)

-- `std::count(text.begin(), text.begin() + clamp(pos), '\n')`.
unfoldable pub newlines : Text → ℕ
newlines [] = 0
newlines (c ∷ s) = (if c == b'\n' then 1 else 0) + newlines s

-- The text before the position where `rest` starts.
abbrev pub before : Text → Text → Text
before text rest = take (length text - length rest) text

-- An error as it leaves `parse_file`: as it was thrown, or with its line.
pub data FileError (E : Type 0) : Type 0 where
  thrown : Error E → FileError E
  located : ℕ → Error E → FileError E

module _ {E : Type 0} where
  -- Whether `catch (const Error &)` catches; `is_option_error` says it of what actions throw.
  is_caught : (E → Bool) → Error E → Bool
  is_caught is_option_error (failed e) = is_option_error e
  is_caught is_option_error logic = false
  is_caught is_option_error unreachable = false
  is_caught is_option_error _ = true

  -- The handler, at line `n`: `has_errpath` is `!errpath.empty()`.
  pub relocate : (E → Bool) → Bool → ℕ → Error E → FileError E
  unfolding is_caught
  relocate is_option_error has_errpath n e =
      if is_caught is_option_error e && has_errpath then located n e else thrown e

  pub rethrow : (E → Bool) → Bool → Text → Text → Error E → FileError E
  unfolding newlines
  rethrow is_option_error has_errpath text rest e =
      relocate is_option_error has_errpath (newlines (before text rest) + 1) e

module _ {S E : Type 0} where
  -- `parse_argspan(std::span{&optarg, 1})`.
  pub run_line : (E → Bool) → Bool → Actions S E → Text → Text → Text → S → Result (FileError E) S
  unfolding rethrow
  run_line is_option_error has_errpath m text optarg rest s =
      elim (parse_argspan m (optarg ∷ []) s) [
        | ok (s', operands) ↦ ok s'
        | err e ↦ err (rethrow is_option_error has_errpath text rest e)
      ]

  infixl 5 ◌then_do◌
  abbrev pub ◌then_do◌ :
      Result (FileError E) S → (S → Result (FileError E) S) → Result (FileError E) S
  ok s then_do k = k s
  err e then_do k = err e

  pub file_loop : (E → Bool) → Bool → ℕ → Actions S E → Text → Text → S → Result (FileError E) S
  unfolding run_line
  file_loop caught path zero m text rest s = ok s
  file_loop caught path (suc f) m text rest s = elim (round rest) [
    | finished ↦ ok s
    | comment rest' ↦ file_loop caught path f m text rest' s
    | option_line optarg rest' ↦
        run_line caught path m text optarg rest' s then_do file_loop caught path f m text rest'
  ]

  unfoldable pub parse_file : (E → Bool) → Bool → Actions S E → Text → S → Result (FileError E) S
  unfolding file_loop round
  parse_file caught path m text s = file_loop caught path (suc (length text)) m text text s
