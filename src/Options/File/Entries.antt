-- ===== src/Options/File/Entries.antt =====
-- A configuration file written as one option a line, and how `parse_file` takes it apart.
use jaim.Prelude.{
  ℕ, zero, suc, ◌+◌, ◌-◌, ◌≤◌, false, not, List, [], ◌∷◌, ◌++◌, ◌≡◌, refl, ap, ◌∙◌, arith, ◌==◌,
  Text, codes, length, length-append, contains_byte, take, drop_while, take_while, append_assoc,
  All,
}
use jaim.Options.File.{
  ws, wsnl, wsnleq, Value, value_loop, newlines, before, finished, option_line, read_value,
  read_option, read_line, round,
}
use jaim.Options.File.Quoting.{
  quote, final, value_loop-quote, value_loop-equals, newlines-append, newlines-quote,
}

-- An option of a file: its name without the dashes, and its value.
pub record Entry : Type 0 where
  pub name : Text
  pub value : Text

abbrev pub IsWord : Text → Type 0
IsWord s = All (λ c. wsnleq c ≡ false) s

-- A name that a line can start with.
abbrev pub IsName : Text → Type 0
IsName [] = ⊥
IsName (c ∷ s) = ((c == b'#') ≡ false) × (wsnleq c ≡ false) × IsWord s

unfoldable pub line : Entry → Text
line e = e.name ++ (b'=' ∷ quote e.value)

unfoldable pub format : List Entry → Text
format [] = []
format (e ∷ es) = line e ++ (b'\n' ∷ format es)

-- The argument that the command line has for it.
unfoldable pub argument : Entry → Text
argument e = codes "--" ++ e.name ++ b'=' ∷ e.value

take_while-word : (s t : Text) → IsWord s → take_while (λ x. not (wsnleq x)) (s ++ b'=' ∷ t) ≡ s
take_while-word [] t h = unfold contains_byte in refl
take_while-word (c ∷ s) t h = rw (h.0, take_while) (ap (◌∷◌ c) (take_while-word s t h.1))

drop_while-word :
    (s t : Text) → IsWord s → drop_while (λ x. not (wsnleq x)) (s ++ b'=' ∷ t) ≡ b'=' ∷ t
drop_while-word [] t h = unfold contains_byte in refl
drop_while-word (c ∷ s) t h = rw (h.0, drop_while) (drop_while-word s t h.1)

wsnl-wsnleq : (c : ℕ) → wsnleq c ≡ false → wsnl c ≡ false
unfolding contains_byte
wsnl-wsnleq c h = ground arith

read_value-quote :
    (name w rest : Text)
    → (v : Value) × (final v ≡ name ++ b'=' ∷ w)
      × (read_value name (b'=' ∷ (quote w ++ b'\n' ∷ rest)) ≡ option_line (final v) (b'\n' ∷ rest))
unfolding read_value value_loop
read_value-quote name w rest =
    let body = quote w ++ b'\n' ∷ rest in
    let (v, ready, first) = value_loop-equals (length body) name body in
    let (v', same, later) =
      value_loop-quote w (length body) v (name ++ b'=' ∷ []) rest ready
        (omega (arith, length-append (quote w) (b'\n' ∷ rest))) in
    (
      v',
      same ∙ append_assoc name (b'=' ∷ []) w,
      ap (λ r. option_line (final r.0) r.1) (first ∙ later),
    )

round-name :
    (c : ℕ) (s : Text)
    → (c == b'#') ≡ false
    → wsnl c ≡ false
    → round (c ∷ s)
      ≡ read_option
          (codes "--" ++ take_while (λ x. not (wsnleq x)) (c ∷ s))
          (drop_while ws (drop_while (λ x. not (wsnleq x)) (c ∷ s)))
unfolding round read_line
round-name c s h k = rw (k, drop_while) (rw h)

read_option-equals :
    (optarg s : Text) → read_option optarg (drop_while ws (b'=' ∷ s)) ≡ read_value optarg (b'=' ∷ s)
unfolding read_option contains_byte
read_option-equals optarg s = refl

round-word :
    (name w rest : Text)
    → IsName name
    → round (name ++ (b'=' ∷ (quote w ++ b'\n' ∷ rest)))
      ≡ option_line (codes "--" ++ name ++ b'=' ∷ w) (b'\n' ∷ rest)
round-word [] w rest h = absurd h
round-word (c ∷ s) w rest h =
    let body = quote w ++ b'\n' ∷ rest in
    let (v, same, read) = read_value-quote (codes "--" ++ c ∷ s) w rest in
    round-name c (s ++ b'=' ∷ body) h.0 (wsnl-wsnleq c h.1)
    ∙ ap
        (λ n.
          read_option (codes "--" ++ n)
            (drop_while ws (drop_while (λ x. not (wsnleq x)) (c ∷ (s ++ b'=' ∷ body)))))
        (take_while-word (c ∷ s) body (h.1, h.2))
    ∙ ap (λ t. read_option (codes "--" ++ c ∷ s) (drop_while ws t))
        (drop_while-word (c ∷ s) body (h.1, h.2))
    ∙ read_option-equals (codes "--" ++ c ∷ s) body
    ∙ read
    ∙ ap (λ o. option_line o (b'\n' ∷ rest)) same

pub round-line :
    (e : Entry) (rest : Text)
    → IsName e.name
    → round (line e ++ (b'\n' ∷ rest)) ≡ option_line (argument e) (b'\n' ∷ rest)
unfolding line argument
round-line e rest h =
    ap round (append_assoc e.name (b'=' ∷ quote e.value) (b'\n' ∷ rest))
    ∙ round-word e.name e.value rest h

-- White space in front of a line changes nothing.
pub round-newline : (s : Text) → round (b'\n' ∷ s) ≡ round s
unfolding round contains_byte
round-newline s = refl

newlines-word : (s : Text) → IsWord s → newlines s ≡ 0
unfolding newlines contains_byte
newlines-word [] h = refl
newlines-word (c ∷ s) h = ground (arith, newlines-word s h.1)

newlines_value : (w : Text) → newlines (b'=' ∷ quote w) ≡ 0
unfolding newlines
newlines_value w = omega (arith, newlines-quote w)

IsName-IsWord : (s : Text) → IsName s → IsWord s
IsName-IsWord [] h = absurd h
IsName-IsWord (c ∷ s) h = (h.1, h.2)

pub newlines-line : (e : Entry) → IsName e.name → newlines (line e) ≡ 0
unfolding line
newlines-line e h =
    newlines-append e.name (b'=' ∷ quote e.value)
    ∙ omega (arith, newlines-word e.name (IsName-IsWord e.name h), newlines_value e.value)

take-append : (n : ℕ) (a b : Text) → n ≡ length a → take n (a ++ b) ≡ a
take-append zero [] b h = refl
take-append zero (c ∷ a) b h = absurd (omega arith)
take-append (suc n) [] b h = absurd (omega arith)
take-append (suc n) (c ∷ a) b h = ap (◌∷◌ c) (take-append n a b (omega arith))

pub before-append : (a b : Text) → before (a ++ b) b ≡ a
before-append a b = take-append (length (a ++ b) - length b) a b (omega (arith, length-append a b))

pub before-split : (text a b : Text) → text ≡ a ++ b → before text b ≡ a
before-split text a b e = rw e (before-append a b)

pub newlines-behind :
    (pre : Text) (e : Entry) → IsName e.name → newlines (pre ++ b'\n' ∷ line e) ≡ newlines pre + 1
newlines-behind pre e h =
    newlines-append pre (b'\n' ∷ line e) ∙ unfold newlines in omega (arith, newlines-line e h)

pub length-format : (es : List Entry) → length es ≤ length (format es)
unfolding format
length-format [] = omega arith
length-format (e ∷ es) = omega (arith, length-append (line e) (b'\n' ∷ format es), length-format es)

pub round_end : round (b'\n' ∷ []) ≡ finished
unfolding round read_line contains_byte
round_end = refl
