-- ===== src/Fs/Paths/Order.antt =====
-- The order of `PathLess` keeps each subtree together.
use jaim.Prelude.{
  Bool-cases, inl, inr, true, false, List, [], ◌∷◌, ◌≡◌, refl, arith, Text, text_eq_self,
  text_eq_iff,
}
use jaim.Fs.Paths.{
  elements, is_prefix, contains, text_less, is_absolute, element_less, elements_less, path_less,
}

pub text_less-equal : (s t : Text) → text_less s t ≡ false → text_less t s ≡ false → s ≡ t
unfolding text_less
text_less-equal [] [] h k = refl
text_less-equal [] (d ∷ t) h k = cc
text_less-equal (c ∷ s) [] h k = cc
text_less-equal (c ∷ s) (d ∷ t) h k = ground (arith, text_less-equal s t)

pub element_less-equal : (s t : Text) → element_less s t ≡ false → element_less t s ≡ false → s ≡ t
unfolding element_less
element_less-equal s t h k = elim (Bool-cases (is_absolute s)) [
  | inl root ↦ ground (arith, text_less-equal s t)
  | inr name ↦ ground (arith, text_less-equal s t)
]

between :
    (d a b c : List Text)
    → is_prefix d a ≡ true
    → is_prefix d c ≡ true
    → elements_less b a ≡ false
    → elements_less c b ≡ false
    → is_prefix d b ≡ true
unfolding is_prefix elements_less
between [] a b c h k low high = refl
between (x ∷ d) [] b c h k low high = cc
between (x ∷ d) (y ∷ a) b [] h k low high = cc
between (x ∷ d) (y ∷ a) [] (z ∷ c) h k low high = cc
between (x ∷ d) (y ∷ a) (w ∷ b) (z ∷ c) h k low high = ground (
  arith,
  element_less-equal w y,
  element_less-equal x w,
  element_less-equal w x,
  text_eq_iff x y,
  text_eq_iff x z,
  text_eq_self x,
  between d a b c,
)

-- `PathLess` keeps subtrees together: what stands between two paths below a directory, or at one of
-- them, is below that directory too.
pub contains-between :
    (dir a b c : Text)
    → contains dir a ≡ true
    → contains dir c ≡ true
    → path_less b a ≡ false
    → path_less c b ≡ false
    → contains dir b ≡ true
unfolding contains path_less
contains-between dir a b c h k low high =
    between (elements dir) (elements a) (elements b) (elements c) h k low high
