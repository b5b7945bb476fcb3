-- ===== src/Options/File/Quoting.antt =====
-- The loop over a value reads back a value that was written with escapes.
use mathlib.Core.List.{reverse, reverse-append, reverse-reverse}
use jaim.Prelude.{
  ℕ, zero, suc, ◌+◌, ◌-◌, ◌≤◌, ◌<◌, Bool, true, false, ◌||◌, [], ◌∷◌, ◌++◌, ◌≡◌, refl, sym, ap, ◌∙◌,
  arith, ◌==◌, if◌then◌else◌, Text, length, length-append, contains_byte, drop_while, append_assoc,
  append-nil, Bool-cases, inl, inr,
}
use jaim.Options.File.{wsnl, Value, unescape, value_step, value_loop, strip, newlines}

-- The byte behind the backslash where `c` is escaped.
letter : ℕ → ℕ
letter c = if c == b'\t' then b't' else if c == b'\r' then b'r' else if c == b'\n' then b'n' else c

-- A byte of a value as it is written: white space and backslashes are escaped.
pub quote_byte : ℕ → Text
unfolding letter
quote_byte c = if wsnl c || c == b'\\' then b'\\' ∷ letter c ∷ [] else c ∷ []

pub quote : Text → Text
quote [] = []
quote (c ∷ s) = quote_byte c ++ quote s

-- What `read_value` makes of the variables behind the loop.
abbrev pub final : Value → Text
final v = if v.last_escaped then v.optarg else strip v.optarg

strip-concat : (s : Text) (c : ℕ) → wsnl c ≡ false → strip (s ++ c ∷ []) ≡ s ++ c ∷ []
unfolding strip
strip-concat s c h = rw (reverse-append s (c ∷ [])) (
    rw (h, drop_while)
      (ap reverse (sym (reverse-append s (c ∷ []))) ∙ reverse-reverse (s ++ c ∷ [])))

-- Between two bytes of a value that stands for `s` so far.
abbrev pub Ready : Value → Text → Type 0
Ready v s = (v.escape ≡ false) × (v.optarg ≡ s) × (final v ≡ s)

abbrev after_escape : Value → ℕ → Value
after_escape v c = record { optarg = v.optarg ++ c ∷ []; escape = false; last_escaped = true }

value_loop-escape :
    (f : ℕ) (v : Value) (x c : ℕ) (rest : Text)
    → v.escape ≡ false
    → (x == b'\r') ≡ false
    → unescape (record v { escape = false; last_escaped = true }) x rest ≡ (after_escape v c, rest)
    → value_loop (suc (suc f)) v (b'\\' ∷ x ∷ rest) ≡ value_loop f (after_escape v c) rest
unfolding value_loop value_step
value_loop-escape f v x c rest e h k = ground arith

value_loop-plain :
    (f : ℕ) (v : Value) (c : ℕ) (rest : Text)
    → v.escape ≡ false
    → (wsnl c || c == b'\\') ≡ false
    → value_loop (suc f) v (c ∷ rest)
      ≡ value_loop f (record v { optarg = v.optarg ++ c ∷ []; last_escaped = false }) rest
unfolding value_loop value_step contains_byte
value_loop-plain f v c rest e h = ground arith

letter_plain : (c : ℕ) → (letter c == b'\r') ≡ false
unfolding letter
letter_plain c = ground arith

unescape-letter :
    (v : Value) (c : ℕ) (rest : Text)
    → (wsnl c || c == b'\\') ≡ true
    → unescape (record v { escape = false; last_escaped = true }) (letter c) rest
      ≡ (after_escape v c, rest)
unfolding unescape letter contains_byte
unescape-letter v c rest h = ground arith

Ready-plain :
    (v : Value) (c : ℕ) (s : Text)
    → Ready v s
    → wsnl c ≡ false
    → Ready (record v { optarg = v.optarg ++ c ∷ []; last_escaped = false }) (s ++ c ∷ [])
Ready-plain v c s r h =
    (r.0, ap (λ t. t ++ c ∷ []) r.1, strip-concat v.optarg c h ∙ ap (λ t. t ++ c ∷ []) r.1)

or_false : (a b : Bool) → (a || b) ≡ false → a ≡ false
or_false a b h = ground arith

-- One byte of a value, as it is written, adds that byte.
value_loop-byte :
    (f : ℕ) (v : Value) (c : ℕ) (s rest : Text)
    → Ready v s
    → length (quote_byte c) ≤ f
    → (f' : ℕ) × (v' : Value) × Ready v' (s ++ c ∷ [])
      × (f ≡ f' + length (quote_byte c))
      × (value_loop f v (quote_byte c ++ rest) ≡ value_loop f' v' rest)
unfolding quote_byte
value_loop-byte f v c s rest r h = elim (Bool-cases (wsnl c || c == b'\\')) [
  | inl special ↦
      let two : 2 ≤ f = rw special at h in
      let fuel : f ≡ suc (suc (f - 2)) = omega arith in
      (
        f - 2,
        after_escape v c,
        (refl, ap (λ t. t ++ c ∷ []) r.1, ap (λ t. t ++ c ∷ []) r.1),
        rw special (omega arith),
        rw special (
            ap (λ n. value_loop n v (b'\\' ∷ letter c ∷ rest)) fuel
            ∙ value_loop-escape (f - 2) v (letter c) c rest r.0 (letter_plain c)
                (unescape-letter v c rest special)),
      )
  | inr ordinary ↦
      let one : 1 ≤ f = rw ordinary at h in
      let fuel : f ≡ suc (f - 1) = omega arith in
      (
        f - 1,
        record v { optarg = v.optarg ++ c ∷ []; last_escaped = false },
        Ready-plain v c s r (or_false (wsnl c) (c == b'\\') ordinary),
        rw ordinary (omega arith),
        rw ordinary (
            ap (λ n. value_loop n v (c ∷ rest)) fuel
            ∙ value_loop-plain (f - 1) v c rest r.0 ordinary),
      )
]

-- The loop reads a written value up to the newline behind it.
pub value_loop-quote :
    (w : Text) (f : ℕ) (v : Value) (s rest : Text)
    → Ready v s
    → length (quote w) < f
    → (v' : Value) × (final v' ≡ s ++ w)
      × (value_loop f v (quote w ++ b'\n' ∷ rest) ≡ (v', b'\n' ∷ rest))
unfolding quote value_loop
value_loop-quote [] zero v s rest r h = absurd (omega arith)
value_loop-quote [] (suc f) v s rest r h = (v, r.2 ∙ sym (append-nil s), rw r.0)
value_loop-quote (c ∷ w) f v s rest r h =
    let total = length-append (quote_byte c) (quote w) in
    let (f', v', r', enough, step) =
      value_loop-byte f v c s (quote w ++ b'\n' ∷ rest) r (omega arith) in
    let (v'', same, later) = value_loop-quote w f' v' (s ++ c ∷ []) rest r' (omega arith) in
    (
      v'',
      same ∙ append_assoc s (c ∷ []) w,
      ap (value_loop f v) (append_assoc (quote_byte c) (quote w) (b'\n' ∷ rest)) ∙ step ∙ later,
    )

-- An equals sign is an ordinary byte, and no white space.
pub value_loop-equals :
    (f : ℕ) (name s : Text)
    → (v : Value) × Ready v (name ++ b'=' ∷ [])
      × (value_loop
            (suc f)
            (record { optarg = name; escape = false; last_escaped = false })
            (b'=' ∷ s)
          ≡ value_loop f v s)
unfolding contains_byte
value_loop-equals f name s = (
  record { optarg = name ++ b'=' ∷ []; escape = false; last_escaped = false },
  (refl, refl, strip-concat name b'=' refl),
  value_loop-plain f (record { optarg = name; escape = false; last_escaped = false }) b'=' s refl
      refl,
)

newlines-letter : (c : ℕ) → (letter c == b'\n') ≡ false
unfolding letter
newlines-letter c = ground arith

pub newlines-append : (s t : Text) → newlines (s ++ t) ≡ newlines s + newlines t
unfolding newlines
newlines-append [] t = omega arith
newlines-append (c ∷ s) t = omega (arith, newlines-append s t)

newlines-quote_byte : (c : ℕ) → newlines (quote_byte c) ≡ 0
unfolding newlines quote_byte contains_byte
newlines-quote_byte c = ground (arith, newlines-letter c)

-- A written value stands on one line.
pub newlines-quote : (w : Text) → newlines (quote w) ≡ 0
unfolding quote newlines
newlines-quote [] = refl
newlines-quote (c ∷ w) =
    newlines-append (quote_byte c) (quote w)
    ∙ omega (arith, newlines-quote_byte c, newlines-quote w)
