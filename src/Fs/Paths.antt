-- ===== src/Fs/Paths.antt =====
-- The operations on paths of fs.h, with what `std::filesystem::path` does for them: a path is its
-- text, and its elements are read off it.
pub mod Order
use jaim.Prelude.{
  ℕ, ◌==◌, ltb, Bool, true, false, not, ◌&&◌, ◌||◌, if◌then◌else◌, List, [], ◌∷◌, ◌++◌, is_empty,
  drop_while, length, Text, text_eq, codes,
}

abbrev is_slash : ℕ → Bool
is_slash c = c == b'/'

abbrev pub put_first : ℕ → List Text → List Text
put_first c [] = (c ∷ []) ∷ []
put_first c (s ∷ rest) = (c ∷ s) ∷ rest

-- What stands between the slashes.
unfoldable pub segments : Text → List Text
segments [] = [] ∷ []
segments (c ∷ s) = let rest = segments s in if is_slash c then [] ∷ rest else put_first c rest

-- Slashes in a row count once; a slash at the end gives an empty last element.
unfoldable pub names : List Text → List Text
names [] = []
names (s ∷ []) = s ∷ []
names (s ∷ t ∷ rest) = let later = names (t ∷ rest) in if is_empty s then later else s ∷ later

unfoldable pub relative_elements : Text → List Text
relative_elements [] = []
relative_elements (c ∷ s) = names (segments (c ∷ s))

-- The elements that the iterator of a path gives: of an absolute path, the root comes first.
unfoldable pub elements : Text → List Text
elements [] = []
elements (c ∷ s) =
    if is_slash c
    then (b'/' ∷ []) ∷ relative_elements (drop_while is_slash s)
    else relative_elements (c ∷ s)

abbrev pub is_absolute : Text → Bool
is_absolute [] = false
is_absolute (c ∷ s) = is_slash c

-- `path::has_filename`: there is a path, and it does not end in a slash.
unfoldable pub has_filename : Text → Bool
has_filename [] = false
has_filename (c ∷ []) = not (is_slash c)
has_filename (c ∷ d ∷ s) = has_filename (d ∷ s)

-- `left / right`.
unfoldable pub join : Text → Text → Text
join left right =
    if is_absolute right
    then right
    else if has_filename left
    then left ++ b'/' ∷ right
    else left ++ right

-- `cat`, which is `left += right`.
unfoldable pub cat : Text → Text → Text
cat left right = left ++ right

unfoldable pub components : Text → ℕ
components p = length (elements p)

unfoldable pub is_prefix : List Text → List Text → Bool
is_prefix [] q = true
is_prefix (x ∷ p) [] = false
is_prefix (x ∷ p) (y ∷ q) = text_eq x y && is_prefix p q

unfoldable pub contains : Text → Text → Bool
contains dir subpath = is_prefix (elements dir) (elements subpath)

-- The order of `std::string`.
unfoldable pub text_less : Text → Text → Bool
text_less s [] = false
text_less [] (d ∷ t) = true
text_less (c ∷ s) (d ∷ t) = ltb c d || (c == d && text_less s t)

-- The order of `path` on two elements: a name comes before the root.
unfoldable pub element_less : Text → Text → Bool
element_less x y =
    if is_absolute x then is_absolute y && text_less x y else is_absolute y || text_less x y

unfoldable pub elements_less : List Text → List Text → Bool
elements_less p [] = false
elements_less [] (y ∷ q) = true
elements_less (x ∷ p) (y ∷ q) = element_less x y || (not (element_less y x) && elements_less p q)

-- `PathLess`.
unfoldable pub path_less : Text → Text → Bool
path_less a b = elements_less (elements a) (elements b)
