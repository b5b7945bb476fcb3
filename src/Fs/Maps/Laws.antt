-- ===== src/Fs/Maps/Laws.antt =====
-- What is found in a map of paths after it has changed.
use jaim.Prelude.{
  Bool, true, false, not, ◌&&◌, ◌||◌, if◌then◌else◌, List, [], ◌∷◌, any, All, none, ◌≡◌, refl, ap,
  arith, Text,
}
use jaim.Fs.Paths.Order.{element_less-equal}
use jaim.Fs.Paths.{elements, elements_less, path_less}
use jaim.Fs.Maps.{same_path, path_find, path_emplace, path_erase, set_emplace}

elements_less-equal :
    (p q : List Text) → elements_less p q ≡ false → elements_less q p ≡ false → p ≡ q
unfolding elements_less
elements_less-equal [] [] h k = refl
elements_less-equal [] (y ∷ q) h k = cc
elements_less-equal (x ∷ p) [] h k = cc
elements_less-equal (x ∷ p) (y ∷ q) h k =
    ground (arith, element_less-equal x y, elements_less-equal p q)

same_path-elements : (a b : Text) → same_path a b ≡ true → elements a ≡ elements b
unfolding same_path path_less
same_path-elements a b h = ground (arith, elements_less-equal (elements a) (elements b))

-- A path may be put for the same one.
pub same_path-swap : (x q k : Text) → same_path x q ≡ true → same_path x k ≡ same_path q k
unfolding same_path path_less
same_path-swap x q k h =
    ap (λ e. not (elements_less e (elements k)) && not (elements_less (elements k) e))
      (same_path-elements x q h)

module _ {V : Type 0} where
  pub path_find-path_erase :
      (q k : Text) (m : List (Text × V))
      → path_find q (path_erase k m) ≡ (if same_path q k then none else path_find q m)
  unfolding path_find path_erase
  path_find-path_erase q k [] = ground arith
  path_find-path_erase q k ((x, v) ∷ m) =
      ground (arith, same_path-swap x q k, path_find-path_erase q k m)

  pub path_find-path_emplace :
      (q k : Text) (v : V) (m : List (Text × V))
      → same_path k q ≡ false
      → path_find q (path_emplace k v m) ≡ path_find q m
  unfolding path_find path_emplace
  path_find-path_emplace q k v [] h = ground arith
  path_find-path_emplace q k v ((x, w) ∷ m) h = ground (arith, path_find-path_emplace q k v m)

-- A path is in the set that it has been put into, and what was in the set still is.
pub set_emplace-has :
    (p : Text → Bool) (k : Text) (s : List Text)
    → All (λ a. same_path a k ≡ true → p a ≡ p k) s
    → any p (set_emplace k s) ≡ (p k || any p s)
unfolding set_emplace same_path
set_emplace-has p k [] h = refl
set_emplace-has p k (x ∷ s) h = ground (arith, h.0, set_emplace-has p k s h.1)

pub same_path-sym : (a b : Text) → same_path a b ≡ same_path b a
unfolding same_path
same_path-sym a b = ground arith
