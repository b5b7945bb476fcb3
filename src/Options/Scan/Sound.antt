-- ===== src/Options/Scan/Sound.antt =====
-- Every item of a scan carries an action that can be called the way its kind says.
use jaim.Prelude.{
  ℕ, zero, suc, ◌+◌, List, [], ◌∷◌, ◌++◌, Option, none, some, ◌≡◌, ◌≢◌, refl, sym, ◌∙◌, ◌⊎◌, Text,
  length, split_at, arith, All, All-append, Option-cases, inl, inr,
}
use jaim.Options.Action.{HasArg, no_arg, arg, opt_arg, Action, Actions, has_arg, get_action}
use jaim.Options.Scan.{
  Kind, option, option_arg, need_next_arg, positional_here, positional_next, unknown_option,
  unexpected_arg, ScanItem, ScanArgsResult, item, scan_found, scan_named, scan_long, scan_last,
  scan_short, scan_arg, Flow, returned, continues, item_step, items_loop, scan_loop, scan_args,
}

abbrev pub IsOption : Kind → Type 0
IsOption positional_here = ⊥
IsOption positional_next = ⊥
IsOption _ = Unit

HasArg-cases : (h : HasArg) → (h ≡ no_arg) ⊎ (h ≢ no_arg)
HasArg-cases no_arg = inl refl
HasArg-cases arg = inr (λ e. cc)
HasArg-cases opt_arg = inr (λ e. cc)

module _ {S E : Type 0} where
  -- An action for which `P` holds of what it takes.
  abbrev pub Has : (HasArg → Type 0) → Option (Action S E) → Type 0
  Has P none = ⊥
  Has P (some a) = P (has_arg a)

  abbrev pub IsCallable : Kind → Option (Action S E) → Type 0
  IsCallable option o = Has (λ h. h ≢ arg) o
  IsCallable option_arg o = Has (λ h. h ≢ no_arg) o
  IsCallable need_next_arg o = Has (λ h. h ≡ arg) o
  IsCallable _ o = Unit

  abbrev pub Sound : ScanItem S E → Type 0
  Sound it = IsCallable it.kind it.action

  -- An item of the result: sound, and no mark of an operand.
  abbrev pub Listed : ScanItem S E → Type 0
  Listed it = Sound it × IsOption it.kind

  scan_found-Sound :
      (opt : Text) (a : Action S E) (h : HasArg) (v : Option Text)
      → has_arg a ≡ h
      → Sound (scan_found opt a h v)
  unfolding scan_found
  scan_found-Sound opt a arg none e = e
  scan_found-Sound opt a no_arg none e = λ f. cc
  scan_found-Sound opt a opt_arg none e = λ f. cc
  scan_found-Sound opt a no_arg (some v) e = tt
  scan_found-Sound opt a arg (some v) e = λ f. cc
  scan_found-Sound opt a opt_arg (some v) e = λ f. cc

  scan_named-Sound : (m : Actions S E) (opt : Text) (v : Option Text) → Sound (scan_named m opt v)
  unfolding scan_named
  scan_named-Sound m opt v = elim (Option-cases (get_action opt m)) [
    | inl missing ↦ rw (missing, scan_named) tt
    | inr (a, found) ↦ rw (found, scan_named) (scan_found-Sound opt a (has_arg a) v refl)
  ]

  scan_long-Sound : (m : Actions S E) (a : Text) → Sound (scan_long m a)
  unfolding scan_long
  scan_long-Sound m a = elim (Option-cases (split_at b'=' a)) [
    | inl missing ↦ rw (missing, scan_long) (scan_named-Sound m a none)
    | inr (p, found) ↦ rw (found, scan_long) (scan_named-Sound m p.0 (some p.1))
  ]

  scan_last-Sound :
      (opt : Text) (a : Action S E) (h : HasArg) (rest : Text)
      → has_arg a ≡ h
      → h ≢ no_arg
      → Sound (scan_last opt a h rest)
  unfolding scan_last
  scan_last-Sound opt a h (c ∷ rest) e k = λ f. k (sym e ∙ f)
  scan_last-Sound opt a opt_arg [] e k = λ f. cc
  scan_last-Sound opt a no_arg [] e k = absurd (k refl)
  scan_last-Sound opt a arg [] e k = e

  scan_taken :
      (m : Actions S E) (c : ℕ) (rest : Text) (a : Action S E) (h : HasArg)
      → has_arg a ≡ h
      → h ≢ no_arg
      → All Sound (elim h [
        | no_arg ↦ item option (b'-' ∷ c ∷ []) [] (some a) ∷ scan_short m rest
        | ha ↦ scan_last (b'-' ∷ c ∷ []) a ha rest ∷ []
      ])
  scan_taken m c rest a no_arg e k = absurd (k refl)
  scan_taken m c rest a arg e k = (scan_last-Sound (b'-' ∷ c ∷ []) a arg rest e k, tt)
  scan_taken m c rest a opt_arg e k = (scan_last-Sound (b'-' ∷ c ∷ []) a opt_arg rest e k, tt)

  scan_short-Sound : (m : Actions S E) (s : Text) → All Sound (scan_short m s)
  unfolding scan_short
  scan_short-Sound m [] = tt
  scan_short-Sound m (c ∷ rest) = elim (Option-cases (get_action (b'-' ∷ c ∷ []) m)) [
    | inl missing ↦ rw (missing, scan_short) (tt, tt)
    | inr (a, found) ↦ elim (HasArg-cases (has_arg a)) [
      | inl none_taken ↦
          rw (found, scan_short)
            (rw (none_taken, scan_short) (rw none_taken (λ e. cc), scan_short-Sound m rest))
      | inr taken ↦ rw (found, scan_short) (scan_taken m c rest a (has_arg a) refl taken)
    ]
  ]

  scan_arg-Sound : (m : Actions S E) (a : Text) → All Sound (scan_arg m a)
  unfolding scan_arg
  scan_arg-Sound m [] = (tt, tt)
  scan_arg-Sound m (a ∷ []) = (tt, tt)
  scan_arg-Sound m (a ∷ b ∷ rest) =
      ground (arith, scan_long-Sound m (a ∷ b ∷ rest), scan_short-Sound m (b ∷ rest))

  -- The loops keep the items listed.
  abbrev FlowListed : Flow S E → Type 0
  FlowListed (returned r) = All Listed r.scan
  FlowListed (continues i rest scan) = All Listed scan

  needed-Has : (o : Option (Action S E)) → IsCallable need_next_arg o → IsCallable option_arg o
  needed-Has none w = w
  needed-Has (some a) w = λ e. cc

  pushed :
      (it : ScanItem S E) (scan : List (ScanItem S E))
      → All Listed scan
      → Listed it
      → All Listed (scan ++ it ∷ [])
  pushed it scan h w = All-append Listed scan (it ∷ []) h (w, tt)

  item_step-Listed :
      (k : Kind) (size : ℕ) (it : ScanItem S E) (i : ℕ) (rest : List Text)
      (scan : List (ScanItem S E))
      → it.kind ≡ k
      → IsCallable k it.action
      → All Listed scan
      → FlowListed (item_step k size it i rest scan)
  unfolding item_step
  item_step-Listed positional_here size it i rest scan e w h = h
  item_step-Listed positional_next size it i rest scan e w h = h
  item_step-Listed need_next_arg size it i (v ∷ rest) scan e w h =
      pushed (record it { kind = option_arg; value = v }) scan h (needed-Has it.action w, tt)
  item_step-Listed need_next_arg size it i [] scan e w h = pushed it scan h (rw e (w, tt))
  item_step-Listed option size it i rest scan e w h = pushed it scan h (rw e (w, tt))
  item_step-Listed option_arg size it i rest scan e w h = pushed it scan h (rw e (w, tt))
  item_step-Listed unknown_option size it i rest scan e w h = pushed it scan h (rw e (w, tt))
  item_step-Listed unexpected_arg size it i rest scan e w h = pushed it scan h (rw e (w, tt))

  items_loop-Listed :
      (size : ℕ) (items : List (ScanItem S E)) (i : ℕ) (rest : List Text)
      (scan : List (ScanItem S E))
      → All Sound items
      → All Listed scan
      → FlowListed (items_loop size items i rest scan)
  unfolding items_loop
  items_loop-Listed size [] i rest scan w h = h
  items_loop-Listed size (it ∷ items) i rest scan w h =
      next (item_step it.kind size it i rest scan)
        (item_step-Listed it.kind size it i rest scan refl w.0 h)
        (λ i' rest' scan'. items_loop-Listed size items i' rest' scan' w.1)
    where
      next :
          (fl : Flow S E)
          → FlowListed fl
          → ((i' : ℕ) (rest' : List Text) (scan' : List (ScanItem S E))
              → All Listed scan'
              → FlowListed (items_loop size items i' rest' scan'))
          → FlowListed (elim fl [
            | returned r ↦ returned r
            | continues i' rest' scan' ↦ items_loop size items i' rest' scan'
          ])
      next (returned r) g k = g
      next (continues i' rest' scan') g k = k i' rest' scan' g

  scan_loop-Listed :
      (f : ℕ) (m : Actions S E) (size i : ℕ) (args : List Text) (scan : List (ScanItem S E))
      → All Listed scan
      → All Listed (scan_loop f m size i args scan).scan
  unfolding scan_loop
  scan_loop-Listed zero m size i args scan h = h
  scan_loop-Listed (suc f) m size i [] scan h = h
  scan_loop-Listed (suc f) m size i (a ∷ rest) scan h =
      next (items_loop size (scan_arg m a) i rest scan)
        (items_loop-Listed size (scan_arg m a) i rest scan (scan_arg-Sound m a) h)
        (λ i' rest' scan'. scan_loop-Listed f m size (i' + 1) rest' scan')
    where
      next :
          (fl : Flow S E)
          → FlowListed fl
          → ((i' : ℕ) (rest' : List Text) (scan' : List (ScanItem S E))
              → All Listed scan'
              → All Listed (scan_loop f m size (i' + 1) rest' scan').scan)
          → All Listed (
              unfold scan_loop in
              let r : ScanArgsResult S E = elim fl [
                | returned r ↦ r
                | continues i' rest' scan' ↦ scan_loop f m size (i' + 1) rest' scan'
              ] in
              r.scan)
      next (returned r) g k = g
      next (continues i' rest' scan') g k = k i' rest' scan' g

  -- Every item that a scan lists carries an action of its kind, and none marks an operand.
  pub scan_args-Listed : (m : Actions S E) (args : List Text) → All Listed (scan_args m args).scan
  unfolding scan_args
  scan_args-Listed m args = scan_loop-Listed (length args) m (length args) 0 args [] tt
