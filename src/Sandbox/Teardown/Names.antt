-- ===== src/Sandbox/Teardown/Names.antt =====
-- The names that `Config::teardown` of jaim.cc takes from a directory hold no slash.
use jaim.Prelude.{
  zero, suc, Bool, take, length, ◌-◌, ◌||◌, not, contains_byte, if◌then◌else◌, arith, ℕ, true,
  false, List, [], ◌∷◌, All, Option, none, some, Text, ◌≡◌, inl, inr, refl, Bool-cases,
}
use jaim.Fs.Maps.{set_emplace}
use jaim.Fs.Paths.{path_less}
use jaim.Config.Files.{ends_with}
use jaim.Sandbox.Teardown.System.{DirKind}
use jaim.Sandbox.Teardown.{base_name, collect, add_name, is_self_or_parent, may_be_dir}

abbrev pub IsName : Text → Type 0
IsName n = contains_byte b'/' n ≡ false

abbrev pub AreNames : List (Text × DirKind) → Type 0
AreNames entries = All (λ (e : Text × DirKind). contains_byte b'/' e.0 ≡ false) entries

IsName-take : (k : ℕ) (s : Text) → IsName s → IsName (take k s)
unfolding contains_byte
IsName-take zero s h = refl
IsName-take (suc k) [] h = refl
IsName-take (suc k) (c ∷ s) h = ground (arith, IsName-take k s)

if-All :
    (b : Bool) (l m : List Text) → All IsName l → All IsName m → All IsName (if b then l else m)
if-All true l m h k = h
if-All false l m h k = k

-- A name that is found, if one is.
abbrev IsNamed : Option Text → Type 0
IsNamed none = Unit
IsNamed (some n) = IsName n

pub All-map : {P Q : Text → Type 0} (l : List Text) → ((n : Text) → P n → Q n) → All P l → All Q l
All-map [] f h = tt
All-map (n ∷ l) f h = (f n h.0, All-map l f h.1)

All-set_emplace :
    (n : Text) (names : List Text) → IsName n → All IsName names → All IsName (set_emplace n names)
unfolding set_emplace
All-set_emplace n [] h k = (h, tt)
All-set_emplace n (x ∷ names) h k =
    if-All (path_less n x) _ _ (h, k)
      (if-All (path_less x n) _ _ (k.0, All-set_emplace n names h k.1) k)

base_name-IsName : (suffixes : List Text) (nm : Text) → IsName nm → IsNamed (base_name suffixes nm)
unfolding base_name
base_name-IsName [] nm h = tt
base_name-IsName (s ∷ suffixes) nm h = elim (Bool-cases (ends_with s nm)) [
  | inl fits ↦ rw fits (IsName-take (length nm - length s) nm h)
  | inr other ↦ rw other (base_name-IsName suffixes nm h)
]

add_name-All :
    (o : Option Text) (names : List Text)
    → IsNamed o
    → All IsName names
    → All IsName (add_name o names)
add_name-All none names h k = k
add_name-All (some n) names h k = All-set_emplace n names h k

pub collect-All :
    (suffixes : List Text) (entries : List (Text × DirKind)) (names : List Text)
    → AreNames entries
    → All IsName names
    → All IsName (collect suffixes entries names)
unfolding collect
collect-All suffixes [] names h k = k
collect-All suffixes ((nm, kind) ∷ entries) names h k = collect-All suffixes entries _ h.1 (
    if-All (is_self_or_parent nm || not (may_be_dir kind)) _ _ k
      (add_name-All (base_name suffixes nm) names (base_name-IsName suffixes nm h.0) k))
