-- ===== src/Options/Complete.antt =====
-- `Options::complete_args` of options.cc: what may follow a command line that is being typed.
pub mod Extends
use jaim.Prelude.{
  ℕ, ◌+◌, Bool, true, false, not, ◌&&◌, ◌||◌, ltb, ◌==◌, List, [], ◌∷◌, ◌++◌, length, is_empty,
  drop_while, take_while, map, Option, none, some, if◌then◌else◌, Text, codes, text_eq, starts_with,
  split_at,
}
use jaim.Options.Action.{
  HasArg, no_arg, arg, opt_arg, Action, Actions, has_arg, get_action, text_lt,
}
use jaim.Options.Scan.{Kind, option, option_arg, need_next_arg, ScanItem, ScanArgsResult, scan_args}

-- `Completions`: none, the index of the first argument that is no option, whole words, or an
-- option's argument, as the option, what has been typed of its argument, and what stands before that.
pub data Completions : Type 0 where
  no_completions : Completions
  position : ℕ → Completions
  raw : List Text → Completions
  arg_completions : Text → Text → Text → Completions

module _ {S E : Type 0} where
  option_word : Text × Action S E → Text
  option_word (k, a) = elim (has_arg a) [
    | opt_arg ↦ if ltb 2 (length k) then k ++ codes "=" else k
    | _ ↦ k ++ codes " "
  ]

  -- The lambda `opt`: from `lower_bound` on, as long as the keys begin with the prefix.
  complete_option : Actions S E → Text → Completions
  unfolding option_word
  complete_option m prefix = raw (
      map option_word (
        take_while (λ (ka : Text × Action S E). starts_with prefix ka.0)
          (drop_while (λ (ka : Text × Action S E). text_lt ka.0 prefix) m)))

  -- The loop over a cluster of short options: `seen` is `optarg.substr(0, j)`.
  short_loop : Actions S E → Text → Text → Completions
  short_loop m seen [] = raw ((seen ++ codes " ") ∷ [])
  short_loop m seen (c ∷ s) =
      let opt = b'-' ∷ c ∷ [] in
      let onward = short_loop m (seen ++ c ∷ []) s in
      elim (get_action opt m) [
        | none ↦ no_completions
        | some a ↦ elim (has_arg a) [
          | opt_arg ↦ arg_completions opt s (seen ++ c ∷ [])
          | arg ↦ if is_empty s then onward else arg_completions opt s (seen ++ c ∷ [])
          | no_arg ↦ onward
        ]
      ]

  complete_long : Actions S E → Text → Completions
  unfolding complete_option
  complete_long m optarg = elim (split_at b'=' optarg) [
    | none ↦ complete_option m optarg
    | some (opt, v) ↦ elim (get_action opt m) [
      | none ↦ no_completions
      | some a ↦ elim (has_arg a) [
        | no_arg ↦ no_completions
        | _ ↦ arg_completions opt v (opt ++ b'=' ∷ [])
      ]
    ]
  ]

  -- The word that is being typed, at index `here`, where no option before it needs it.
  complete_word : Actions S E → ℕ → Text → Completions
  unfolding complete_option complete_long short_loop
  complete_word m here [] = position here
  complete_word m here (c ∷ []) = if c == b'-' then complete_option m (c ∷ []) else position here
  complete_word m here (c ∷ d ∷ s) =
      if text_eq (c ∷ d ∷ s) (codes "--")
      then complete_option m (c ∷ d ∷ s)
      else if not (c == b'-')
      then position here
      else if d == b'-'
      then complete_long m (c ∷ d ∷ s)
      else short_loop m (c ∷ []) (d ∷ s)

  -- By the last option before the word.
  complete_behind : Actions S E → List (ScanItem S E) → ℕ → Text → Completions
  unfolding complete_word
  complete_behind m [] here word = complete_word m here word
  complete_behind m (it ∷ []) here word = elim it.kind [
    | need_next_arg ↦ arg_completions it.opt word []
    | option ↦ complete_word m here word
    | option_arg ↦ complete_word m here word
    | _ ↦ no_completions
  ]
  complete_behind m (it ∷ next ∷ items) here word = complete_behind m (next ∷ items) here word

  -- `before` is the arguments from `optind` up to the last one, `word`.
  unfoldable pub complete_args : Actions S E → ℕ → List Text → Text → Completions
  unfolding complete_behind
  complete_args m optind before word =
      let scanned = scan_args m before in
      if not (scanned.positional == length before)
      then position (optind + scanned.positional)
      else complete_behind m scanned.scan (optind + length before) word
