-- ===== src/Overlay/Start/Apart.antt =====
-- The test on canonical paths by which `main` of overlay.cc refuses nested layers.
use jaim.Prelude.{
  true, false, List, [], ◌∷◌, ◌++◌, length, length-append, ◌≡◌, ◌≢◌, ◌⊎◌, inl, inr, refl, sym, ap,
  ◌∙◌, Text, text_eq_self, text_eq_iff, append-nil, starts_with, append_assoc, arith,
}
use jaim.Overlay.Posix.{FilePath}
use jaim.Overlay.Start.{slash_at, below, is_nested}

cons-head : {c d : Text} {p q : List Text} → c ∷ p ≡ d ∷ q → c ≡ d
cons-head e = cc

cons-tail : {c d : Text} {p q : List Text} → c ∷ p ≡ d ∷ q → p ≡ q
cons-tail e = cc

-- A canonical path below the root, as text.
unfoldable pub render : FilePath → Text
render [] = []
render (c ∷ p) = b'/' ∷ (c ++ render p)

render-append : (p q : FilePath) → render (p ++ q) ≡ render p ++ render q
unfolding render
render-append [] q = refl
render-append (c ∷ p) q =
    ap (λ s. b'/' ∷ s)
      (ap (λ s. c ++ s) (render-append p q) ∙ sym (append_assoc c (render p) (render q)))

starts_with-append : (s t : Text) → starts_with s (s ++ t) ≡ true
unfolding starts_with
starts_with-append [] t = refl
starts_with-append (c ∷ s) t = ground (arith, starts_with-append s t)

slash_at-append : (s t : Text) → slash_at (s ++ (b'/' ∷ t)) (length s) ≡ true
slash_at-append [] t = refl
slash_at-append (c ∷ s) t = slash_at-append s t

below-append : (s t : Text) → below (s ++ (b'/' ∷ t)) s ≡ true
below-append s t =
    ground (arith, starts_with-append s (b'/' ∷ t), length-append s (b'/' ∷ t), slash_at-append s t)

below-render :
    (p : FilePath) (c : Text) (q : FilePath) → below (render (p ++ (c ∷ q))) (render p) ≡ true
unfolding render
below-render p c q =
    ap (λ s. below s (render p)) (render-append p (c ∷ q)) ∙ below-append (render p) (c ++ render q)

-- One of two paths with a common extension begins with the other.
one-begins :
    (p q x y : FilePath)
    → p ++ x ≡ q ++ y
    → ((z : FilePath) × (p ≡ q ++ z)) ⊎ ((z : FilePath) × (q ≡ p ++ z))
one-begins [] q x y e = inr (q, refl)
one-begins (c ∷ p) [] x y e = inl (c ∷ p, refl)
one-begins (c ∷ p) (d ∷ q) x y e = elim (one-begins p q x y (cons-tail e)) [
  | inl (z, same) ↦ inl (z, ap (λ h. h ∷ p) (cons-head e) ∙ ap (λ t. d ∷ t) same)
  | inr (z, same) ↦ inr (z, ap (λ h. h ∷ q) (sym (cons-head e)) ∙ ap (λ t. c ∷ t) same)
]

is_nested-extends : (l z : FilePath) → is_nested (render l) (render (l ++ z)) ≡ true
unfolding is_nested
is_nested-extends l [] =
    ap (λ p. is_nested (render l) (render p)) (append-nil l)
    ∙ ground (arith, text_eq_self (render l))
is_nested-extends l (c ∷ z) = ground (arith, below-render l c z)

is_nested-sym : (a b : Text) → is_nested a b ≡ true → is_nested b a ≡ true
unfolding is_nested
is_nested-sym a b h = ground (arith, text_eq_iff a b, text_eq_iff b a)

-- Where `main` finds two canonical paths below the root not to be nested, no path lies in both of
-- the directories.
pub is_nested-Apart :
    (l u : FilePath) → is_nested (render l) (render u) ≡ false → (q r : FilePath) → u ++ q ≢ l ++ r
is_nested-Apart l u h q r e = elim (one-begins u l q r e) [
  | inl (z, same) ↦ cc (h, is_nested-extends l z, ap (λ p. is_nested (render l) (render p)) same)
  | inr (z, same) ↦ cc (
    h,
    is_nested-sym (render u) (render l)
        (ap (λ p. is_nested (render u) (render p)) same ∙ is_nested-extends u z),
  )
]
