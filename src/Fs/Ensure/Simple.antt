-- ===== src/Fs/Ensure/Simple.antt =====
-- A directory where each write takes one byte.
use jaim.Prelude.{
  take, ℕ, ◌≤◌, ◌<◌, if◌then◌else◌, [], ◌∷◌, ◌++◌, length, Option, none, some, Result, ok, err, ◌≡◌,
  ◌≢◌, inl, inr, refl, sym, ap, subst, ◌∙◌, arith, Bool-cases, Text, text_eq, text_eq_iff,
  text_eq_self,
}
use jaim.Fs.Ensure.{Opened, regular, absent, FileDirectory}

abbrev pub Files : Type 0
Files = Text → Option Text

abbrev pub store : Text → Option Text → Files → Files
store p o fs q = if text_eq q p then o else fs q

abbrev open_kind : Option Text → Opened
open_kind none = absent
open_kind (some w) = regular

unfoldable pub append_byte : Text → Text → Option Text → Files → Result ℕ (ℕ × Files)
append_byte p [] o fs = err 22
append_byte p (c ∷ s) none fs = err 9
append_byte p (c ∷ s) (some w) fs = ok (1, store p (some (w ++ (c ∷ []))) fs)

state_of : Files → Result ℕ Files → Files
state_of d (ok fs) = fs
state_of d (err e) = d

written_of : Files → Result ℕ (ℕ × Files) → ℕ × Files
written_of d (ok w) = w
written_of d (err e) = (0, d)

pub store_self : (p : Text) (o : Option Text) (fs : Files) → store p o fs p ≡ o
store_self p o fs = rw (text_eq_self p) refl

pub store_other : (p q : Text) (o : Option Text) (fs : Files) → q ≢ p → store p o fs q ≡ fs q
store_other p q o fs differ = elim (Bool-cases (text_eq q p)) [
  | inl same ↦ absurd (differ ((text_eq_iff q p).0 same))
  | inr other ↦ rw other refl
]

pub is_stored :
    (p : Text) (o : Option Text) (fs after : Files)
    → ◌≡◌ {A = Result ℕ Files} (ok (store p o fs)) (ok after)
    → store p o fs ≡ after
unfolding state_of
is_stored p o fs after e = ap (state_of fs) e

pub created :
    (p : Text) (mode : ℕ) (fs after : Files)
    → ◌≡◌ {A = Result ℕ Files} (ok (store p (some []) fs)) (ok after)
    → (after p ≡ some []) × ((q : Text) → q ≢ p → after q ≡ fs q)
created p mode fs after e =
    let same = is_stored p (some []) fs after e in
    (
      ap (λ f. f p) (sym same) ∙ store_self p (some []) fs,
      λ q differ. ap (λ f. f q) (sym same) ∙ store_other p q (some []) fs differ,
    )

pub appended :
    (p s w : Text) (n : ℕ) (fs after : Files)
    → append_byte p s (fs p) fs ≡ ok (n, after)
    → fs p ≡ some w
    → s ≢ []
    → (0 < n)
      × (n ≤ length s)
      × (after p ≡ some (w ++ take n s))
      × ((q : Text) → q ≢ p → after q ≡ fs q)
unfolding append_byte written_of
appended p [] w n fs after e h full = absurd (full refl)
appended p (c ∷ s) w n fs after e h full =
    let now = ap (written_of fs) (rw h at e) in
    let one = ap (λ r. r.0) now in
    let same = ap (λ r. r.1) now in
    (
      subst (λ m. 0 < m) one (omega arith),
      subst (λ m. m ≤ length (c ∷ s)) one (omega arith),
      subst (λ m. after p ≡ some (w ++ take m (c ∷ s))) one
          (ap (λ f. f p) (sym same) ∙ store_self p _ fs),
      λ q differ. ap (λ f. f q) (sym same) ∙ store_other p q _ fs differ,
    )

pub renamed :
    (p q : Text) (fs after : Files)
    → ◌≡◌ {A = Result ℕ Files} (ok (store q (fs p) fs)) (ok after)
    → after q ≡ fs p
renamed p q fs after e =
    ap (λ f. f q) (sym (is_stored q (fs p) fs after e)) ∙ store_self q (fs p) fs

abbrev pub small_directory : FileDirectory
small_directory = record {
  Files = Files;
  content = λ fs p. fs p;
  open_read = λ fs p. open_kind (fs p);
  unlink = λ p fs. store p none fs;
  create_excl = λ p mode fs. ok (store p (some []) fs);
  write = λ p s fs. append_byte p s (fs p) fs;
  fsync = λ p fs. none;
  rename = λ p q fs. ok (store q (fs p) fs);
  unlink-other = λ p q fs differ. store_other p q none fs differ;
  create-content = created;
  write-content = appended;
  rename-content = renamed;
}

abbrev pub empty : Files
empty p = none
