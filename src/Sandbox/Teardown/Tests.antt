-- ===== src/Sandbox/Teardown/Tests.antt =====
-- A run of the clean-up, on a set of paths.
use jaim.Prelude.{
  All, Option, ◌==◌, subst, ◌++◌, contains_byte, Bool, true, false, if◌then◌else◌, any, List, [],
  ◌∷◌, none, some, ok, Text, codes, text_eq, text_eq_iff, ◌≡◌, refl, arith, inl, inr, Bool-cases,
  ap, ◌∙◌,
}
use jaim.Fs.Paths.{
  is_absolute, text_less, elements_less, path_less, contains, elements, relative_elements, segments,
  names, is_prefix, join, cat, has_filename,
}
use jaim.Sandbox.Teardown.System.{TeardownSystem, owned_by, absent, DirKind, dir_kind}
use jaim.Sandbox.Teardown.{Jail, teardown, home_suffixes}
use jaim.Sandbox.Teardown.Spared.{IsBeside, teardown-Spares}

abbrev remove : Text → List Text → List Text
remove p [] = []
remove p (x ∷ l) = let rest = remove p l in if contains p x then rest else x ∷ rest

abbrev present : List Text → Text → Bool
present l q = any (λ x. text_eq x q) l

remove_beside :
    (p q : Text) (l : List Text) → contains p q ≡ false → present (remove p l) q ≡ present l q
remove_beside p q [] h = refl
remove_beside p q (x ∷ l) h = elim (Bool-cases (text_eq x q)) [
  | inl same ↦
      let kept : contains p x ≡ false = ap (contains p) ((text_eq_iff x q).0 same) ∙ h in
      rw kept (rw same refl)
  | inr other ↦ ground (arith, remove_beside p q l h)
]

abbrev listing : Text → Option (List (Text × DirKind))
listing p =
    if text_eq p (codes "/h/.jaim")
    then some ((codes "..", dir_kind) ∷ (codes "x.home", dir_kind) ∷ (codes "notes", dir_kind) ∷ [])
    else none

abbrev HasNames : Option (List (Text × DirKind)) → Type 0
HasNames none = Unit
HasNames (some entries) = All (λ (e : Text × DirKind). contains_byte b'/' e.0 ≡ false) entries

listing-HasNames : (p : Text) → HasNames (listing p)
unfolding contains_byte
listing-HasNames p = elim (Bool-cases (text_eq p (codes "/h/.jaim"))) [
  | inl home ↦ rw home (refl, (refl, (refl, tt)))
  | inr other ↦ rw other tt
]

abbrev system : TeardownSystem
system = record {
  World = List Text;
  state_dir = ok (codes "/c/jaim");
  temp_directory = none;
  open_dir = λ p w. if present w p then owned_by 501 else absent;
  list_dir = λ p w. listing p;
  list_dir-names = λ p w entries e. subst HasNames e (listing-HasNames p);
  device = λ p w. some 1;
  parent_device = λ p w. some 1;
  unmount = λ force p w. (true, w);
  remove_all = remove;
  lstat = λ p w. none;
  exists = present;
  remove_all-beside = remove_beside;
  unmount-beside = λ force p q w h. refl;
}

abbrev jail : Jail
jail = record { sandbox_name = codes "x"; homejaimpath = codes "/h/.jaim"; user = 501 }

abbrev left : List Text
left =
    codes "/h/.jaim"
    ∷ codes "/h/.jaim/x.home"
    ∷ codes "/h/.jaim/x.home/a"
    ∷ codes "/h/.jaim/y.home"
    ∷ codes "/h/notes"
    ∷ []

removed :
    (teardown system jail left).1
    ≡ codes "/h/.jaim" ∷ codes "/h/.jaim/y.home" ∷ codes "/h/notes" ∷ []
unfolding teardown jaim.Sandbox.Teardown.sweep_dir text_eq jaim.Sandbox.Teardown.sweep_root
    jaim.Sandbox.Teardown.remove_suffixes jaim.Sandbox.Teardown.remove_one
    jaim.Sandbox.Teardown.detach contains is_prefix elements join cat has_filename relative_elements
    names segments
removed = refl

-- Without -j: the directory has a jail's home, and another directory that ends alike is elsewhere.
abbrev any_jail : Jail
any_jail = record { sandbox_name = []; homejaimpath = codes "/h/.jaim"; user = 501 }

abbrev work : Text
work = codes "/h/proj/x.home/f"

abbrev with_work : List Text
with_work = work ∷ codes "/h/.jaim" ∷ codes "/h/.jaim/x.home" ∷ codes "/c/jaim" ∷ []

all_removed :
    (teardown system any_jail with_work).1 ≡ work ∷ codes "/h/.jaim" ∷ codes "/c/jaim" ∷ []
unfolding teardown jaim.Sandbox.Teardown.sweep_dir text_eq jaim.Sandbox.Teardown.sweep_root
    jaim.Sandbox.Teardown.remove_names jaim.Sandbox.Teardown.collect jaim.Sandbox.Teardown.base_name
    jaim.Config.Files.ends_with jaim.Fs.Maps.set_emplace jaim.Sandbox.Teardown.remove_suffixes
    jaim.Sandbox.Teardown.remove_one jaim.Sandbox.Teardown.detach contains is_prefix elements join
    cat elements_less has_filename names path_less relative_elements segments text_less
    jaim.Prelude.starts_with
all_removed = refl

segments-cons : (s : Text) → (t : Text) × (rest : List Text) × (segments s ≡ t ∷ rest)
unfolding segments
segments-cons [] = ([], [], refl)
segments-cons (c ∷ s) =
    let (t, rest, e) = segments-cons s in
    elim (Bool-cases (c == b'/')) [
      | inl slash ↦ ([], t ∷ rest, rw (slash, e) refl)
      | inr other ↦ (c ∷ t, rest, rw (other, e) refl)
    ]

join-name :
    (base n s : Text)
    → contains_byte b'/' n ≡ false
    → is_absolute s ≡ false
    → has_filename base ≡ true
    → join base (cat n s) ≡ base ++ b'/' ∷ (n ++ s)
unfolding join cat contains_byte
join-name base [] s h k l = ground arith
join-name base (c ∷ n) s h k l = ground arith

home_is_elsewhere : (s : Text) → contains (codes "/h/.jaim" ++ b'/' ∷ s) work ≡ false
unfolding contains is_prefix elements text_eq relative_elements names segments
home_is_elsewhere s = let (t, rest, e) = segments-cons s in rw e refl

state_is_elsewhere : (s : Text) → contains (codes "/c/jaim" ++ b'/' ∷ s) work ≡ false
unfolding contains is_prefix elements text_eq relative_elements names segments
state_is_elsewhere s = refl

IsBeside-home : IsBeside any_jail (codes "/h/.jaim") home_suffixes work
unfolding has_filename contains_byte
IsBeside-home n (inr e) = (
  rw e (
      ap (λ p. contains p work) (join-name (codes "/h/.jaim") [] (codes ".home") refl refl refl)
      ∙ home_is_elsewhere (codes ".home")),
  tt,
)
IsBeside-home n (inl (e, name)) = (
  ap (λ p. contains p work) (join-name (codes "/h/.jaim") n (codes ".home") name refl refl)
      ∙ home_is_elsewhere (n ++ codes ".home"),
  tt,
)

IsBeside-one :
    (n s : Text)
    → contains_byte b'/' n ≡ false
    → is_absolute s ≡ false
    → contains (join (codes "/c/jaim") (cat n s)) work ≡ false
unfolding has_filename
IsBeside-one n s name k =
    ap (λ p. contains p work) (join-name (codes "/c/jaim") n s name k refl)
    ∙ state_is_elsewhere (n ++ s)

IsBeside-state : IsBeside any_jail (codes "/c/jaim") jaim.Sandbox.Teardown.overlay_suffixes work
unfolding contains_byte
IsBeside-state n (inr e) =
    rw e (
      IsBeside-one [] (codes ".mount") refl refl,
      (IsBeside-one [] (codes ".changes") refl refl, tt),
    )
IsBeside-state n (inl (e, name)) =
    (IsBeside-one n (codes ".mount") name refl, (IsBeside-one n (codes ".changes") name refl, tt))

teardown-Spares_example :
    present (teardown system any_jail with_work).1 work ≡ present with_work work
teardown-Spares_example =
    teardown-Spares system work any_jail with_work IsBeside-home IsBeside-state tt
