-- ===== src/Options/Action.antt =====
-- `Action`, `ActionImpl` and `Options::operator()` of options.h.
use jaim.Prelude.{
  Bool, true, false, List, [], ◌∷◌, Option, none, some, Result, ok, err, ◌==◌, ltb, if◌then◌else◌,
  Text, text_eq,
}

pub data HasArg : Type 0 where
  no_arg arg opt_arg : HasArg

-- What parsing may throw. `failed` is an exception of an action; `logic` is the `std::logic_error`
-- of an action that is called the wrong way; `unreachable` is `std::unreachable()` or a call
-- through a null pointer, which C++ leaves undefined.
pub data Error (E : Type 0) : Type 0 where
  requires_argument : Text → Error E
  unknown_option : Text → Error E
  takes_no_argument : Text → Error E
  failed : E → Error E
  logic : Error E
  unreachable : Error E

-- A lambda that takes no argument, one argument, or an optional one. The conversion of the
-- argument is part of the lambda.
pub data Action (S E : Type 0) : Type 0 where
  plain : (S → Result E S) → Action S E
  with_arg : (Text → S → Result E S) → Action S E
  with_opt_arg : (S → Result E S) → (Text → S → Result E S) → Action S E

module _ {S E : Type 0} where
  unfoldable pub has_arg : Action S E → HasArg
  has_arg (plain f) = no_arg
  has_arg (with_arg g) = arg
  has_arg (with_opt_arg f g) = opt_arg

  abbrev pub lift : Result E S → Result (Error E) S
  lift (ok s) = ok s
  lift (err e) = err (failed e)

  -- `operator()()`.
  unfoldable pub call : Action S E → S → Result (Error E) S
  call (plain f) s = lift (f s)
  call (with_arg g) s = err logic
  call (with_opt_arg f g) s = lift (f s)

  -- `operator()(std::string_view)`.
  unfoldable pub call_with : Action S E → Text → S → Result (Error E) S
  call_with (plain f) a s = err logic
  call_with (with_arg g) a s = lift (g a s)
  call_with (with_opt_arg f g) a s = lift (g a s)

-- The order of the keys of a `std::map`: by bytes.
unfoldable pub text_lt : Text → Text → Bool
text_lt [] [] = false
text_lt [] (y ∷ b) = true
text_lt (x ∷ a) [] = false
text_lt (x ∷ a) (y ∷ b) = if x == y then text_lt a b else ltb x y

-- `actions_`, in the order of its keys.
abbrev pub Actions : Type 0 → Type 0 → Type 0
Actions S E = List (Text × Action S E)

module _ {S E : Type 0} where
  -- `get_action_ptr`.
  unfoldable pub get_action : Text → Actions S E → Option (Action S E)
  get_action opt [] = none
  get_action opt ((k, a) ∷ m) = if text_eq k opt then some a else get_action opt m

  -- `actions_[opt] = action`.
  unfoldable pub assign : Text → Action S E → Actions S E → Actions S E
  assign opt a [] = (opt, a) ∷ []
  assign opt a ((k, b) ∷ m) =
      let later = assign opt a m in
      if text_eq k opt
      then (k, a) ∷ m
      else if text_lt opt k
      then (opt, a) ∷ (k, b) ∷ m
      else (k, b) ∷ later

  -- `erase`.
  unfoldable pub erase : Text → Actions S E → Actions S E
  erase opt [] = []
  erase opt ((k, b) ∷ m) = let later = erase opt m in if text_eq k opt then m else (k, b) ∷ later
