-- ===== src/Acl/Removing.antt =====
-- What `remove_user_entries` and `add_allow_user` leave in the list of a file.
use jaim.Prelude.Stateful.{feed, ◌>>=◌}
use jaim.Prelude.{
  ℕ, zero, suc, ◌==◌, ◌<◌, Bool, true, false, ◌||◌, if◌then◌else◌, List, [], ◌∷◌, ◌++◌, length,
  Option, none, some, Result, ok, err, ◌≡◌, ◌≢◌, inl, inr, refl, sym, ap, ◌∙◌, arith, Bool-cases,
  ==_self, Text,
}
use jaim.Acl.{
  new_entry, to_uuid, remove_user_entries, get_failed, write_back, enoent, out_of_fuel, lift_set,
  write_acl, Answer, do_remove_user_entries, entries_of, memory_failed, delete_entry, delete_call,
  proceed, is_of, Fault, delete_first, sweep,
}
use jaim.Acl.System.{list, null, Entry, AclSystem}

-- The entries that are not the target's, in their order.
unfoldable pub others : ℕ → List Entry → List Entry
others target [] = []
others target (e ∷ l) = let rest = others target l in if is_of target e then rest else e ∷ rest

pub others-append :
    (target : ℕ) (l m : List Entry) → others target (l ++ m) ≡ others target l ++ others target m
unfolding others
others-append target [] m = refl
others-append target (e ∷ l) m = ground (arith, others-append target l m)

pub others-new :
    (target perms : ℕ) (is_dir : Bool) → others target (new_entry target perms is_dir ∷ []) ≡ []
unfolding others is_of
others-new target perms is_dir = rw (==_self target) refl

others_miss :
    (target : ℕ) (e : Entry) (l : List Entry)
    → is_of target e ≡ false
    → others target (e ∷ l) ≡ e ∷ others target l
unfolding others
others_miss target e l miss = rw miss refl

pub others-others :
    (target : ℕ) (l : List Entry) → others target (others target l) ≡ others target l
unfolding others
others-others target [] = refl
others-others target (e ∷ l) = elim (Bool-cases (is_of target e)) [
  | inl hit ↦ rw hit (others-others target l)
  | inr miss ↦
      rw miss
        (others_miss target e (others target l) miss ∙ ap (λ r. e ∷ r) (others-others target l))
]

abbrev IsDeleted : ℕ → List Entry → Option (List Entry) → Type 0
IsDeleted target l none = others target l ≡ l
IsDeleted target l (some r) = (others target r ≡ others target l) × (length l ≡ suc (length r))

IsDeleted-miss :
    (target : ℕ) (e : Entry) (l : List Entry) (later : Option (List Entry))
    → is_of target e ≡ false
    → IsDeleted target l later
    → IsDeleted target (e ∷ l) (elim later [ none ↦ none | some r ↦ some (e ∷ r) ])
unfolding others
IsDeleted-miss target e l none miss h = rw miss (ap (λ r. e ∷ r) h)
IsDeleted-miss target e l (some r) miss h = rw miss (ap (λ t. e ∷ t) h.0, ap suc h.1)

IsDeleted-hit :
    (target : ℕ) (e : Entry) (l : List Entry)
    → is_of target e ≡ true
    → IsDeleted target (e ∷ l) (some l)
unfolding others
IsDeleted-hit target e l hit = rw hit (refl, refl)

delete_first-IsDeleted : (target : ℕ) (l : List Entry) → IsDeleted target l (delete_first target l)
unfolding delete_first others
delete_first-IsDeleted target [] = refl
delete_first-IsDeleted target (e ∷ l) = elim (Bool-cases (is_of target e)) [
  | inl hit ↦ rw hit (IsDeleted-hit target e l hit)
  | inr miss ↦
      let later =
        IsDeleted-miss target e l (delete_first target l) miss (delete_first-IsDeleted target l) in
      rw miss later
]

module _ (sys : AclSystem) where
  -- How the loop ends: it has left out the target's entries and nothing else, and has told a change
  -- where there was one, or a deletion has failed.
  abbrev pub IsSwept : ℕ → List Entry → Bool → Result Fault (List Entry × Bool) → Type 0
  IsSwept target l changed (ok (r, c)) =
      (r ≡ others target l) × (c ≡ false → (changed ≡ false) × (others target l ≡ l))
  IsSwept target l changed (err e) =
      (m : List Entry) × (e ≡ memory_failed (delete_entry m)) × (sys.fails (delete_entry m) ≡ true)

  IsSwept-again :
      (target : ℕ) (l m : List Entry) (changed : Bool) (r : Result Fault (List Entry × Bool))
      → others target m ≡ others target l
      → IsSwept target m true r
      → IsSwept target l changed r
  IsSwept-again target l m changed (ok (r, c)) same h = (h.0 ∙ same, λ e. cc ((h.1 e).0))
  IsSwept-again target l m changed (err e) same h = h

  IsSwept-proceed :
      (target : ℕ) (l : List Entry) (changed : Bool) (r : Result Fault (List Entry × Bool))
      → IsSwept target l changed r
      → IsSwept target l changed (proceed sys (delete_call sys l) r)
  IsSwept-proceed target l changed r h = elim (Bool-cases (sys.fails (delete_entry l))) [
    | inl failed ↦ rw failed (l, refl, failed)
    | inr done ↦ rw done h
  ]

  IsSwept-step :
      (fuel target : ℕ) (l : List Entry) (changed : Bool) (o : Option (List Entry))
      → IsDeleted target l o
      → length l < suc fuel
      → ((r : List Entry) → length r < fuel → IsSwept target r true (sweep sys fuel target r true))
      → IsSwept target l changed (elim o [
        | none ↦ ok (l, changed)
        | some r ↦ proceed sys (delete_call sys l) (sweep sys fuel target r true)
      ])
  IsSwept-step fuel target l changed none h enough later = (sym h, λ e. (e, h))
  IsSwept-step fuel target l changed (some r) h enough later =
      IsSwept-proceed target l changed _
        (IsSwept-again target l r changed _ h.0 (later r (omega (arith, h.1))))

  pub sweep-IsSwept :
      (fuel target : ℕ) (l : List Entry) (changed : Bool)
      → length l < fuel
      → IsSwept target l changed (sweep sys fuel target l changed)
  unfolding sweep
  sweep-IsSwept zero target l changed h = absurd (omega arith)
  sweep-IsSwept (suc fuel) target l changed h =
      IsSwept-step fuel target l changed (delete_first target l) (delete_first-IsDeleted target l) h
        (λ r small. sweep-IsSwept fuel target r true small)

  abbrev pub IsRemoved : Text → ℕ → sys.Files → Result Fault (Unit {0}) × sys.Files → Type 0
  IsRemoved p target fs (ok u, after) =
      entries_of (sys.get_file after p) ≡ others target (entries_of (sys.get_file fs p))
  IsRemoved p target fs (err e, after) = (after ≡ fs) × (e ≢ out_of_fuel)

  IsRemoved-write :
      (p : Text) (target : ℕ) (l : List Entry) (fs : sys.Files) (r : Result ℕ sys.Files)
      → sys.set_file p (others target l) fs ≡ r
      → entries_of (sys.get_file fs p) ≡ l
      → IsRemoved p target fs (lift_set sys p fs r)
  IsRemoved-write p target l fs (ok after) e same =
      sys.get_file-set_file p (others target l) fs after e ∙ ap (others target) (sym same)
  IsRemoved-write p target l fs (err e) f same = (refl, λ g. cc)

  IsRemoved-swept :
      (p : Text) (target : ℕ) (l : List Entry) (fs : sys.Files)
      (r : Result Fault (List Entry × Bool))
      → entries_of (sys.get_file fs p) ≡ l
      → IsSwept target l false r
      → IsRemoved p target fs (feed (r, fs) (write_back sys p))
  unfolding write_acl
  IsRemoved-swept p target l fs (err e) same (m, failed, broken) = (refl, λ f. cc)
  IsRemoved-swept p target l fs (ok (r, true)) same h =
      rw (h.0) (IsRemoved-write p target l fs _ refl same)
  IsRemoved-swept p target l fs (ok (r, false)) same h =
      same ∙ sym ((h.1 refl).1) ∙ ap (others target) (sym same)

  IsRemoved-answer :
      (p : Text) (target : ℕ) (fs : sys.Files) (a : Answer)
      → sys.get_file fs p ≡ a
      → IsRemoved p target fs (elim a [
        | null e ↦ if e == enoent || e == 0 then (ok tt, fs) else (err (get_failed p e), fs)
        | list l ↦ ((λ s. (sweep sys (suc (length l)) target l false, s)) >>= write_back sys p) fs
      ])
  unfolding others
  IsRemoved-answer p target fs (list l) e =
      IsRemoved-swept p target l fs _ (ap entries_of e)
        (sweep-IsSwept (suc (length l)) target l false (omega arith))
  IsRemoved-answer p target fs (null e) f = elim (Bool-cases (e == enoent || e == 0)) [
    | inl none_yet ↦ rw none_yet (rw f refl)
    | inr broken ↦ rw broken (refl, λ g. cc)
  ]

  pub do_remove_user_entries-IsRemoved :
      (p : Text) (target : ℕ) (fs : sys.Files)
      → IsRemoved p target fs (do_remove_user_entries sys p target fs)
  unfolding do_remove_user_entries
  do_remove_user_entries-IsRemoved p target fs =
      IsRemoved-answer p target fs (sys.get_file fs p) refl

  -- Where `remove_user_entries` returns, the file keeps exactly the entries that are not the user's,
  -- in their order; where it throws, nothing has changed. Its loop, which begins again behind each
  -- deletion, ends on every list.
  pub remove_user_entries-IsRemoved :
      (p : Text) (uid target : ℕ) (fs : sys.Files)
      → sys.uid_to_uuid uid ≡ ok target
      → IsRemoved p target fs (remove_user_entries sys p uid fs)
  unfolding remove_user_entries to_uuid
  remove_user_entries-IsRemoved p uid target fs e =
      rw e (do_remove_user_entries-IsRemoved p target fs)
