-- ===== src/Options/File/RoundTrip.antt =====
-- A configuration file that is written out is read back.
use jaim.Prelude.{
  ℕ, zero, suc, ◌+◌, ◌<◌, Bool, List, [], ◌∷◌, ◌++◌, ◌≡◌, refl, sym, ap, ◌∙◌, arith, Text, length,
  length-append, append_assoc, All, Result, ok, err,
}
use jaim.Options.Action.{Actions, Error}
use jaim.Options.Parse.{parse_argspan}
use jaim.Options.File.{
  newlines, before, option_line, read_line, round, FileError, relocate, rethrow, run_line,
  ◌then_do◌, file_loop, parse_file,
}
use jaim.Options.File.Entries.{
  Entry, IsName, line, format, argument, round-line, round-newline, newlines-line, before-append,
  before-split, newlines-behind, length-format, round_end,
}

-- The options of a file, run one by one from line `n` on.
module _ {S E : Type 0} (caught : E → Bool) (has_errpath : Bool) (m : Actions S E) where
  pub run_entries : ℕ → List Entry → S → Result (FileError E) S
  run_entries n [] s = ok s
  run_entries n (e ∷ es) s = elim (parse_argspan m (argument e ∷ []) s) [
    | ok (s', operands) ↦ run_entries (n + 1) es s'
    | err x ↦ err (relocate caught has_errpath n x)
  ]

  abbrev HasNames : List Entry → Type 0
  HasNames es = All (λ e. IsName e.name) es

  -- A round that reads an entry, with what is left of the file behind it.
  file_loop-entry :
      (f n : ℕ) (e : Entry) (es : List Entry) (text rest : Text) (s : S)
      → round rest ≡ option_line (argument e) (b'\n' ∷ format es)
      → newlines (before text (b'\n' ∷ format es)) + 1 ≡ n
      → ((s' : S)
          → file_loop caught has_errpath f m text (b'\n' ∷ format es) s'
            ≡ run_entries (n + 1) es s')
      → file_loop caught has_errpath (suc f) m text rest s ≡ run_entries n (e ∷ es) s
  unfolding file_loop run_line rethrow run_entries
  file_loop-entry f n e es text rest s read here later =
      rw (read, file_loop) (join (parse_argspan m (argument e ∷ []) s))
    where
      join :
          (r : Result (Error E) (S × List Text))
          → (elim r [
            | ok (s', operands) ↦ ok s'
            | err x ↦ err (rethrow caught has_errpath text (b'\n' ∷ format es) x)
          ]
              then_do file_loop caught has_errpath f m text (b'\n' ∷ format es))
            ≡ elim r [
              | ok (s', operands) ↦ run_entries (n + 1) es s'
              | err x ↦ err (relocate caught has_errpath n x)
            ]
      join (ok (s', operands)) = later s'
      join (err x) = ap (λ k. err (relocate caught has_errpath k x)) here

  file_loop-entries :
      (es : List Entry) (f n : ℕ) (pre text : Text) (s : S)
      → HasNames es
      → text ≡ pre ++ (b'\n' ∷ format es)
      → newlines pre + 2 ≡ n
      → length es < f
      → file_loop caught has_errpath f m text (b'\n' ∷ format es) s ≡ run_entries n es s
  unfolding file_loop run_entries format
  file_loop-entries [] zero n pre text s h split here enough = absurd (omega arith)
  file_loop-entries [] (suc f) n pre text s h split here enough = rw (round_end, file_loop)
  file_loop-entries (e ∷ es) zero n pre text s h split here enough = absurd (omega arith)
  file_loop-entries (e ∷ es) (suc f) n pre text s h split here enough =
      let split' = split ∙ sym (append_assoc pre (b'\n' ∷ line e) (b'\n' ∷ format es)) in
      let counted = newlines-behind pre e h.0 in
      file_loop-entry f n e es text (b'\n' ∷ format (e ∷ es)) s
        (round-newline (format (e ∷ es)) ∙ round-line e (format es) h.0)
        (ap (λ t. newlines t + 1)
            (before-split text (pre ++ b'\n' ∷ line e) (b'\n' ∷ format es) split')
          ∙ omega arith)
        (λ s'.
          file_loop-entries es f (n + 1) (pre ++ b'\n' ∷ line e) text s' h.1 split' (omega arith)
            (omega arith))

  -- A file that is written as `name=value` lines, with names that hold no white space and no `=` and
  -- do not begin with `#`, and with white space and backslashes of the values escaped, runs the options `--name=value` in order, each as one argument; an error carries the
  -- number of the line that its option stands on.
  pub parse_file-format :
      (es : List Entry) (s : S)
      → HasNames es
      → parse_file caught has_errpath m (format es) s ≡ run_entries 1 es s
  unfolding parse_file format run_entries file_loop read_line
  parse_file-format [] s h = refl
  parse_file-format (e ∷ es) s h =
      let text = line e ++ (b'\n' ∷ format es) in
      let counted = newlines-line e h.0 in
      file_loop-entry (length text) 1 e es text text s (round-line e (format es) h.0)
        (ap (λ t. newlines t + 1) (before-append (line e) (b'\n' ∷ format es)) ∙ omega arith)
        (λ s'.
          file_loop-entries es (length text) 2 (line e) text s' h.1 refl (omega arith)
            (omega (arith, length-append (line e) (b'\n' ∷ format es), length-format es)))
