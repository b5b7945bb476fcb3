-- ===== src/Options/Parse/Safe.antt =====
-- `parse_argspan` never leaves C++'s defined behaviour, and never calls an action the wrong way.
use jaim.Prelude.{
  List, [], ◌∷◌, Result, ok, err, ◌>>=◌, ◌≢◌, Text, refl, All, drop, Option-cases, inl, inr,
}
use jaim.Options.Action.{
  no_arg, arg, Action, Actions, Error, logic, unreachable, has_arg, call, call_with, lift, plain,
  with_arg, with_opt_arg,
}
use jaim.Options.Scan.{Kind, ScanItem, scan_args}
use jaim.Options.Scan.Sound.{IsCallable, IsOption, Listed, scan_args-Listed}
use jaim.Options.Parse.{run_item, run_items, parse_argspan}

module _ {E : Type 0} where
  -- An error that the user can cause.
  abbrev pub IsReported : Error E → Type 0
  IsReported logic = ⊥
  IsReported unreachable = ⊥
  IsReported _ = Unit

  abbrev pub IsSafe : {A : Type 0} → Result (Error E) A → Type 0
  IsSafe (ok a) = Unit
  IsSafe (err e) = IsReported e

  bind-IsSafe :
      {A B : Type 0} (r : Result (Error E) A) (f : A → Result (Error E) B)
      → IsSafe r
      → ((a : A) → IsSafe (f a))
      → IsSafe (r >>= f)
  bind-IsSafe (ok a) f h k = k a
  bind-IsSafe (err e) f h k = h

module _ {S E : Type 0} where
  lift-IsSafe : (r : Result E S) → IsSafe (lift r)
  lift-IsSafe (ok s) = tt
  lift-IsSafe (err e) = tt

  call-IsSafe : (a : Action S E) (s : S) → has_arg a ≢ arg → IsSafe (call a s)
  unfolding call has_arg
  call-IsSafe (plain f) s h = lift-IsSafe (f s)
  call-IsSafe (with_arg g) s h = absurd (h refl)
  call-IsSafe (with_opt_arg f g) s h = lift-IsSafe (f s)

  call_with-IsSafe :
      (a : Action S E) (v : Text) (s : S) → has_arg a ≢ no_arg → IsSafe (call_with a v s)
  unfolding call_with has_arg
  call_with-IsSafe (plain f) v s h = absurd (h refl)
  call_with-IsSafe (with_arg g) v s h = lift-IsSafe (g v s)
  call_with-IsSafe (with_opt_arg f g) v s h = lift-IsSafe (g v s)

  run_item-IsSafe :
      (k : Kind) (it : ScanItem S E) (s : S)
      → IsCallable k it.action
      → IsOption k
      → IsSafe (run_item k it s)
  unfolding run_item
  run_item-IsSafe Kind.option it s w o = elim (Option-cases it.action) [
    | inl missing ↦ absurd (rw missing at w)
    | inr (a, found) ↦ rw (found, run_item) (call-IsSafe a s (rw found at w))
  ]
  run_item-IsSafe Kind.option_arg it s w o = elim (Option-cases it.action) [
    | inl missing ↦ absurd (rw missing at w)
    | inr (a, found) ↦ rw (found, run_item) (call_with-IsSafe a it.value s (rw found at w))
  ]
  run_item-IsSafe Kind.need_next_arg it s w o = tt
  run_item-IsSafe Kind.unknown_option it s w o = tt
  run_item-IsSafe Kind.unexpected_arg it s w o = tt
  run_item-IsSafe Kind.positional_here it s w o = absurd o
  run_item-IsSafe Kind.positional_next it s w o = absurd o

  run_items-IsSafe :
      (items : List (ScanItem S E)) (s : S) → All Listed items → IsSafe (run_items items s)
  unfolding run_items
  run_items-IsSafe [] s h = tt
  run_items-IsSafe (it ∷ items) s h =
      bind-IsSafe (run_item it.kind it s) (run_items items)
        (run_item-IsSafe it.kind it s h.0.0 h.0.1) (λ s'. run_items-IsSafe items s' h.1)

  -- Whatever the registered actions and the arguments, `parse_argspan` never reaches
  -- `std::unreachable()`, never calls through a null action, and never calls an action with an
  -- argument that it does not take or without one that it needs: it succeeds, or it throws one of
  -- the three syntax errors or what an action throws.
  pub parse_argspan-IsSafe :
      (m : Actions S E) (args : List Text) (s : S) → IsSafe (parse_argspan m args s)
  unfolding parse_argspan
  parse_argspan-IsSafe m args s =
      bind-IsSafe (run_items (scan_args m args).scan s)
        (λ s'. ok (s', drop (scan_args m args).positional args))
        (run_items-IsSafe (scan_args m args).scan s (scan_args-Listed m args)) (λ s'. tt)
