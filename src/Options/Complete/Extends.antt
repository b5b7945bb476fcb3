-- ===== src/Options/Complete/Extends.antt =====
-- What is completed goes on from what has been typed.
use jaim.Prelude.{
  ℕ, ◌+◌, Bool, true, false, not, ltb, ◌==◌, List, [], ◌∷◌, ◌++◌, length, is_empty, drop_while,
  take_while, map, Option, none, some, if◌then◌else◌, Text, codes, text_eq, starts_with, split_at,
  ◌≡◌, refl, sym, ap, ◌∙◌, All, append_assoc, append-nil, arith, Bool-cases, Option-cases, inl, inr,
  ==_iff,
}
use jaim.Options.Action.{
  HasArg, no_arg, arg, opt_arg, Action, Actions, has_arg, get_action, text_lt,
}
use jaim.Options.Scan.{
  Kind, option, option_arg, need_next_arg, positional_here, positional_next, unknown_option,
  unexpected_arg, ScanItem, scan_args,
}
use jaim.Options.Complete.{
  Completions, no_completions, position, raw, arg_completions, option_word, complete_option,
  short_loop, complete_long, complete_word, complete_behind, complete_args,
}

-- A completion of a word: whole words begin with it, and what has been typed of an argument ends it.
abbrev pub Extends : Text → Completions → Type 0
Extends word no_completions = Unit {0}
Extends word (position i) = Unit {0}
Extends word (raw words) = All (λ w. starts_with word w ≡ true) words
Extends word (arg_completions opt typed stem) = stem ++ typed ≡ word

Extends-if :
    (word : Text) (b : Bool) (x y : Completions)
    → Extends word x
    → Extends word y
    → Extends word (if b then x else y)
Extends-if word true x y h k = h
Extends-if word false x y h k = k

starts_with-longer : (p s t : Text) → starts_with p s ≡ true → starts_with p (s ++ t) ≡ true
unfolding starts_with
starts_with-longer [] s t h = refl
starts_with-longer (x ∷ p) [] t h = cc
starts_with-longer (x ∷ p) (c ∷ s) t h = ground (arith, starts_with-longer p s t)

starts_with_self : (p : Text) → starts_with p p ≡ true
unfolding starts_with
starts_with_self [] = refl
starts_with_self (x ∷ p) = ground (arith, starts_with_self p)

split_at-join : (c : ℕ) (s a b : Text) → split_at c s ≡ some (a, b) → a ++ (c ∷ b) ≡ s
unfolding split_at
split_at-join c [] a b h = cc
split_at-join c (x ∷ s) a b h = elim (Bool-cases (x == c)) [
  | inl e ↦ ground (arith, ==_iff x c)
  | inr e ↦ elim (Option-cases (split_at c s)) [
    | inl missing ↦ ground arith
    | inr (ab, found) ↦ ground (arith, split_at-join c s ab.0 ab.1 found)
  ]
]

module _ {S E : Type 0} where
  option_word-begins :
      (p k : Text) (a : Action S E)
      → starts_with p k ≡ true
      → starts_with p (option_word (k, a)) ≡ true
  unfolding option_word
  option_word-begins p k a h = by_arg (has_arg a)
    where
      by_arg :
          (x : HasArg)
          → starts_with p (elim x [
            | opt_arg ↦ if ltb 2 (length k) then k ++ codes "=" else k
            | _ ↦ k ++ codes " "
          ])
            ≡ true
      by_arg no_arg = starts_with-longer p k (codes " ") h
      by_arg arg = starts_with-longer p k (codes " ") h
      by_arg opt_arg = elim (Bool-cases (ltb 2 (length k))) [
        | inl e ↦ rw e (starts_with-longer p k (codes "=") h)
        | inr e ↦ rw e h
      ]

  words-begin :
      (p : Text) (m : Actions S E)
      → All
          (λ w. starts_with p w ≡ true)
          (map option_word (take_while (λ (ka : Text × Action S E). starts_with p ka.0) m))
  words-begin p [] = tt
  words-begin p ((k, a) ∷ m) = elim (Bool-cases (starts_with p k)) [
    | inl e ↦ rw (e, take_while) (option_word-begins p k a e, words-begin p m)
    | inr e ↦ rw (e, take_while) tt
  ]

  -- Leaving out keys at the front leaves out only such as the loop would not have come to.
  complete_option-Extends : (m : Actions S E) (word : Text) → Extends word (complete_option m word)
  unfolding complete_option
  complete_option-Extends m word =
      words-begin word (drop_while (λ (ka : Text × Action S E). text_lt ka.0 word) m)

  short_step-Extends :
      (o : Option (Action S E)) (opt stem s word : Text) (onward : Completions)
      → stem ++ s ≡ word
      → Extends word onward
      → Extends word (elim o [
        | none ↦ no_completions
        | some a ↦ elim (has_arg a) [
          | opt_arg ↦ arg_completions opt s stem
          | arg ↦ if is_empty s then onward else arg_completions opt s stem
          | no_arg ↦ onward
        ]
      ])
  short_step-Extends none opt stem s word onward h k = tt
  short_step-Extends (some a) opt stem s word onward h k = by_arg (has_arg a) (is_empty s)
    where
      by_arg :
          (x : HasArg) (b : Bool)
          → Extends word (elim x [
            | opt_arg ↦ arg_completions opt s stem
            | arg ↦ if b then onward else arg_completions opt s stem
            | no_arg ↦ onward
          ])
      by_arg no_arg b = k
      by_arg arg true = k
      by_arg arg false = h
      by_arg opt_arg b = h

  short_loop-Extends :
      (m : Actions S E) (seen s word : Text) → seen ++ s ≡ word → Extends word (short_loop m seen s)
  unfolding short_loop
  short_loop-Extends m seen [] word h = (
    ap (λ p. starts_with p (seen ++ codes " ")) (sym h ∙ append-nil seen)
        ∙ starts_with-longer seen seen (codes " ") (starts_with_self seen),
    tt,
  )
  short_loop-Extends m seen (c ∷ s) word h =
      let joined = append_assoc seen (c ∷ []) s ∙ h in
      short_step-Extends (get_action (b'-' ∷ c ∷ []) m) (b'-' ∷ c ∷ []) (seen ++ c ∷ []) s word
        (short_loop m (seen ++ c ∷ []) s) joined
        (short_loop-Extends m (seen ++ c ∷ []) s word joined)

  complete_long-Extends : (m : Actions S E) (word : Text) → Extends word (complete_long m word)
  unfolding complete_long
  complete_long-Extends m word = by_split (split_at b'=' word) refl
    where
      by_action :
          (o : Option (Action S E)) (opt v : Text)
          → split_at b'=' word ≡ some (opt, v)
          → Extends word (elim o [
            | none ↦ no_completions
            | some a ↦ elim (has_arg a) [
              | no_arg ↦ no_completions
              | _ ↦ arg_completions opt v (opt ++ b'=' ∷ [])
            ]
          ])
      by_action none opt v e = tt
      by_action (some a) opt v e = by_arg (has_arg a)
        where
          by_arg :
              (x : HasArg)
              → Extends word (elim x [
                | no_arg ↦ no_completions
                | _ ↦ arg_completions opt v (opt ++ b'=' ∷ [])
              ])
          by_arg no_arg = tt
          by_arg arg = append_assoc opt (b'=' ∷ []) v ∙ split_at-join b'=' word opt v e
          by_arg opt_arg = append_assoc opt (b'=' ∷ []) v ∙ split_at-join b'=' word opt v e

      by_split :
          (r : Option (Text × Text))
          → split_at b'=' word ≡ r
          → Extends word (elim r [
            | none ↦ complete_option m word
            | some (opt, v) ↦ elim (get_action opt m) [
              | none ↦ no_completions
              | some a ↦ elim (has_arg a) [
                | no_arg ↦ no_completions
                | _ ↦ arg_completions opt v (opt ++ b'=' ∷ [])
              ]
            ]
          ])
      by_split none e = complete_option-Extends m word
      by_split (some (opt, v)) e = by_action (get_action opt m) opt v e

  complete_word-Extends :
      (m : Actions S E) (here : ℕ) (word : Text) → Extends word (complete_word m here word)
  unfolding complete_word
  complete_word-Extends m here [] = tt
  complete_word-Extends m here (c ∷ []) =
      Extends-if (c ∷ []) (c == b'-') (complete_option m (c ∷ [])) (position here)
        (complete_option-Extends m (c ∷ [])) tt
  complete_word-Extends m here (c ∷ d ∷ s) =
      let word = c ∷ d ∷ s in
      Extends-if word (text_eq word (codes "--")) _ _ (complete_option-Extends m word) (
        Extends-if word (not (c == b'-')) _ _ tt (
          Extends-if word (d == b'-') _ _ (complete_long-Extends m word)
            (short_loop-Extends m (c ∷ []) (d ∷ s) word refl)))

  complete_behind-Extends :
      (m : Actions S E) (items : List (ScanItem S E)) (here : ℕ) (word : Text)
      → Extends word (complete_behind m items here word)
  unfolding complete_behind
  complete_behind-Extends m [] here word = complete_word-Extends m here word
  complete_behind-Extends m (it ∷ []) here word = by_kind it.kind
    where
      by_kind :
          (k : Kind)
          → Extends word (elim k [
            | need_next_arg ↦ arg_completions it.opt word []
            | option ↦ complete_word m here word
            | option_arg ↦ complete_word m here word
            | _ ↦ no_completions
          ])
      by_kind need_next_arg = refl
      by_kind option = complete_word-Extends m here word
      by_kind option_arg = complete_word-Extends m here word
      by_kind positional_here = tt
      by_kind positional_next = tt
      by_kind unknown_option = tt
      by_kind unexpected_arg = tt
  complete_behind-Extends m (it ∷ next ∷ items) here word =
      complete_behind-Extends m (next ∷ items) here word

  -- Whatever has been typed, the whole words that `complete_args` offers begin with the word that is
  -- being typed; where it completes an option's argument, what stands before the argument and what
  -- has been typed of it are that word.
  pub complete_args-Extends :
      (m : Actions S E) (optind : ℕ) (before : List Text) (word : Text)
      → Extends word (complete_args m optind before word)
  unfolding complete_args
  complete_args-Extends m optind before word =
      Extends-if word (not ((scan_args m before).positional == length before)) _ _ tt
        (complete_behind-Extends m (scan_args m before).scan (optind + length before) word)
