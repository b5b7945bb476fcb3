-- ===== src/Fs/Glob/Meaning.antt =====
-- What a pattern of `glob` denotes: a list of tokens, each a byte or a wildcard.
use mathlib.Core.Option
use jaim.Prelude.{
  ℕ, Bool, true, List, [], ◌∷◌, ◌++◌, ◌≡◌, ◌↔◌, inl, inr, refl, ap, arith, ◌==◌, if◌then◌else◌,
  Bool-cases, Option, none, some, Text,
}
use jaim.Fs.Glob.{literal_byte, star, glob}

pub data Token : Type 0 where
  byte : ℕ → Token
  wild : Token

-- A backslash makes the next byte an ordinary one; at the end of a pattern it denotes nothing.
pub tokens : Text → Option (List Token)
tokens [] = some []
tokens (c ∷ []) =
    if c == b'\\' then none else if c == b'*' then some (wild ∷ []) else some (byte c ∷ [])
tokens (c ∷ d ∷ p) =
    if c == b'\\'
    then Option.map (◌∷◌ (byte d)) (tokens p)
    else Option.map (◌∷◌ (if c == b'*' then wild else byte c)) (tokens (d ∷ p))

-- The texts of a list of tokens: a wildcard stands for any run of bytes.
abbrev pub Denotes : List Token → Text → Type 0
Denotes [] t = t ≡ []
Denotes (byte c ∷ ts) t = (u : Text) × (t ≡ c ∷ u) × Denotes ts u
Denotes (wild ∷ ts) t = (skipped : Text) × (u : Text) × (t ≡ skipped ++ u) × Denotes ts u

abbrev pub Accepts : Option (List Token) → Text → Type 0
Accepts none t = ⊥
Accepts (some ts) t = Denotes ts t

literal_iff :
    (c : ℕ) (rest : Text → Bool) (t : Text)
    → (literal_byte c rest t ≡ true) ↔ ((u : Text) × (t ≡ c ∷ u) × (rest u ≡ true))
literal_iff c rest [] = (λ e. cc, λ w. cc (w.1))
literal_iff c rest (x ∷ t) = (λ e. (t, ground arith, ground arith), λ w. ground (arith, w.1, w.2))

abbrev Skips : (Text → Bool) → Text → Type 0
Skips rest t = (skipped : Text) × (u : Text) × (t ≡ skipped ++ u) × (rest u ≡ true)

star_sound : (rest : Text → Bool) (t : Text) → star rest t ≡ true → Skips rest t
unfolding star
star_sound rest [] h = ([], [], refl, ground arith)
star_sound rest (x ∷ t) h = elim (Bool-cases (rest (x ∷ t))) [
  | inl here ↦ ([], x ∷ t, refl, here)
  | inr later ↦
      let (skipped, u, split, accepted) = star_sound rest t (ground arith) in
      (x ∷ skipped, u, ap (◌∷◌ x) split, accepted)
]

star_complete :
    (rest : Text → Bool) (skipped u : Text) → rest u ≡ true → star rest (skipped ++ u) ≡ true
unfolding star
star_complete rest [] [] h = ground arith
star_complete rest [] (x ∷ u) h = ground arith
star_complete rest (x ∷ skipped) u h = ground (arith, star_complete rest skipped u h)

star_iff : (rest : Text → Bool) (t : Text) → (star rest t ≡ true) ↔ Skips rest t
star_iff rest t = (star_sound rest t, λ w. rw (w.2) (star_complete rest (w.0) (w.1) (w.3)))

-- A token in front of a pattern that is understood.
module _ (rest : Text → Bool) where
  literal_byte-Accepts :
      (c : ℕ) (o : Option (List Token))
      → ((u : Text) → (rest u ≡ true) ↔ Accepts o u)
      → (t : Text) → (literal_byte c rest t ≡ true) ↔ Accepts (Option.map (◌∷◌ (byte c)) o) t
  literal_byte-Accepts c none ih t =
      (λ e. let w = (literal_iff c rest t).0 e in (ih w.0).0 w.2, λ w. absurd w)
  literal_byte-Accepts c (some ts) ih t = (
    λ e. let w = (literal_iff c rest t).0 e in (w.0, w.1, (ih w.0).0 w.2),
    λ w. (literal_iff c rest t).1 (w.0, w.1, (ih w.0).1 w.2),
  )

  star-Accepts :
      (o : Option (List Token))
      → ((u : Text) → (rest u ≡ true) ↔ Accepts o u)
      → (t : Text) → (star rest t ≡ true) ↔ Accepts (Option.map (◌∷◌ wild) o) t
  star-Accepts none ih t = (λ e. let w = (star_iff rest t).0 e in (ih w.1).0 w.3, λ w. absurd w)
  star-Accepts (some ts) ih t = (
    λ e. let w = (star_iff rest t).0 e in (w.0, w.1, w.2, (ih w.1).0 w.3),
    λ w. (star_iff rest t).1 (w.0, w.1, w.2, (ih w.1).1 w.3),
  )

glob-nil : (t : Text) → (glob [] t ≡ true) ↔ (t ≡ [])
unfolding glob
glob-nil [] = (λ e. refl, λ e. refl)
glob-nil (x ∷ t) = (λ e. cc, λ e. cc)

-- `glob` accepts exactly the texts that the pattern denotes: each `*` stands for any run of bytes,
-- a backslash makes the byte behind it stand for itself, any other byte stands for itself, and a
-- pattern that ends in a backslash which escapes nothing accepts nothing.
pub glob-Accepts : (p t : Text) → (glob p t ≡ true) ↔ Accepts (tokens p) t
unfolding glob tokens
glob-Accepts [] t = glob-nil t
glob-Accepts (c ∷ []) t = elim (Bool-cases (c == b'\\')) [
  | inl escape ↦ rw (escape, glob, tokens) (λ e. cc, λ w. absurd w)
  | inr plain ↦ elim (Bool-cases (c == b'*')) [
    | inl any ↦ rw plain (rw any (star-Accepts (glob []) (some []) glob-nil t))
    | inr other ↦ rw plain (rw other (literal_byte-Accepts (glob []) c (some []) glob-nil t))
  ]
]
glob-Accepts (c ∷ d ∷ p) t = elim (Bool-cases (c == b'\\')) [
  | inl escape ↦ rw escape (literal_byte-Accepts (glob p) d (tokens p) (glob-Accepts p) t)
  | inr plain ↦ elim (Bool-cases (c == b'*')) [
    | inl any ↦
        rw plain (rw any (star-Accepts (glob (d ∷ p)) (tokens (d ∷ p)) (glob-Accepts (d ∷ p)) t))
    | inr other ↦
        rw plain (
          rw other
            (literal_byte-Accepts (glob (d ∷ p)) c (tokens (d ∷ p)) (glob-Accepts (d ∷ p)) t))
  ]
]
