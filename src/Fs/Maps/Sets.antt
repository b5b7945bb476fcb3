-- ===== src/Fs/Maps/Sets.antt =====
-- Sets of paths: what is put in is found and can be taken out again.
use jaim.Prelude.{
  inl, inr, Bool-cases, ℕ, suc, ◌≤◌, ◌<◌, true, false, ◌||◌, if◌then◌else◌, List, [], ◌∷◌, length,
  All, ◌≡◌, refl, arith, Text,
}
use jaim.Fs.Paths.{elements, is_absolute, element_less, elements_less, path_less, text_less}
use jaim.Fs.Maps.{same_path, has_path, set_emplace, set_erase}
use jaim.Fs.Maps.Laws.{same_path-swap, same_path-sym, set_emplace-has}

text_less_self : (s : Text) → text_less s s ≡ false
unfolding text_less
text_less_self [] = refl
text_less_self (c ∷ s) = ground (arith, text_less_self s)

element_less_self : (s : Text) → element_less s s ≡ false
unfolding element_less
element_less_self s = elim (Bool-cases (is_absolute s)) [
  | inl root ↦ rw root (text_less_self s)
  | inr name ↦ rw name (text_less_self s)
]

elements_less_self : (p : List Text) → elements_less p p ≡ false
unfolding elements_less
elements_less_self [] = refl
elements_less_self (x ∷ p) = ground (arith, element_less_self x, elements_less_self p)

pub same_path_self : (a : Text) → same_path a a ≡ true
unfolding same_path path_less
same_path_self a = rw (elements_less_self (elements a)) refl

unordered : (x k : Text) → path_less k x ≡ false → path_less x k ≡ false → same_path x k ≡ true
unfolding same_path
unordered x k h l = ground arith

set_erase-absent : (k : Text) (s : List Text) → has_path k s ≡ false → set_erase k s ≡ s
unfolding has_path set_erase
set_erase-absent k [] h = refl
set_erase-absent k (x ∷ s) h = ground (arith, set_erase-absent k s)

pub set_erase-set_emplace :
    (k : Text) (s : List Text) → has_path k s ≡ false → set_erase k (set_emplace k s) ≡ s
unfolding has_path set_erase set_emplace
set_erase-set_emplace k [] h = ground (arith, same_path_self k)
set_erase-set_emplace k (x ∷ s) h =
    ground (arith, same_path_self k, set_erase-absent k s, set_erase-set_emplace k s, unordered x k)

swaps :
    (k u : Text) (s : List Text) → All (λ a. same_path a k ≡ true → same_path a u ≡ same_path k u) s
swaps k u [] = tt
swaps k u (x ∷ s) = ((λ h. same_path-swap x k u h), swaps k u s)

pub has_path-set_emplace :
    (u k : Text) (s : List Text) → has_path u (set_emplace k s) ≡ (same_path k u || has_path u s)
unfolding has_path
has_path-set_emplace u k s = set_emplace-has (λ x. same_path x u) k s (swaps k u s)

has_path-swap : (u k : Text) (s : List Text) → same_path u k ≡ true → has_path u s ≡ has_path k s
unfolding has_path
has_path-swap u k [] h = refl
has_path-swap u k (x ∷ s) h =
    ground
      (arith, same_path-sym x u, same_path-sym x k, same_path-swap u k x, has_path-swap u k s h)

-- How many paths of a list are not in a set.
unfoldable pub free : List Text → List Text → ℕ
free [] s = 0
free (u ∷ us) s = let rest = free us s in if has_path u s then rest else suc rest

free-set_emplace : (k : Text) (us s : List Text) → free us (set_emplace k s) ≤ free us s
unfolding free
free-set_emplace k [] s = omega arith
free-set_emplace k (u ∷ us) s = ground (arith, has_path-set_emplace u k s, free-set_emplace k us s)

has_path-nil : (k : Text) → has_path k [] ≡ false
unfolding has_path
has_path-nil k = refl

has_path-cons :
    (k u : Text) (us : List Text) → has_path k (u ∷ us) ≡ (same_path u k || has_path k us)
unfolding has_path
has_path-cons k u us = refl

pub free-less :
    (k : Text) (us s : List Text)
    → has_path k us ≡ true
    → has_path k s ≡ false
    → free us (set_emplace k s) < free us s
unfolding free
free-less k [] s h absent = cc (h, has_path-nil k)
free-less k (u ∷ us) s h absent = ground (
  arith,
  has_path-cons k u us,
  has_path-set_emplace u k s,
  same_path-sym k u,
  has_path-swap u k s,
  free-set_emplace k us s,
  free-less k us s,
)

pub free-length : (us s : List Text) → free us s ≤ length us
unfolding free
free-length [] s = omega arith
free-length (u ∷ us) s = ground (arith, free-length us s)
