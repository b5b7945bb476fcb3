-- ===== src/Acl/Simple.antt =====
-- Files that are told apart by their paths, on which runs are made.
use jaim.Prelude.{
  ℕ, ◌+◌, false, if◌then◌else◌, List, [], Result, ok, err, ◌≡◌, ◌⊎◌, inl, inr, refl, sym, ap, ◌∙◌,
  Bool-cases, Text, text_eq, text_eq_self,
}
use jaim.Acl.System.{AclSystem, Entry, Answer, list}

abbrev pub Files : Type 0
Files = Text → List Entry

abbrev pub store : Text → List Entry → Files → Files
store p l fs q = if text_eq q p then l else fs q

pub value : Files → Result ℕ Files → Files
value d (ok fs) = fs
value d (err e) = d

pub stored :
    (p q : Text) (l : List Entry) (fs after : Files)
    → ◌≡◌ {A = Result ℕ Files} (ok (store p l fs)) (ok after)
    → after q ≡ store p l fs q
unfolding value
stored p q l fs after e = sym (ap (λ r. value fs r q) e)

pub store_self :
    (p : Text) (l : List Entry) (fs after : Files)
    → ◌≡◌ {A = Result ℕ Files} (ok (store p l fs)) (ok after)
    → after p ≡ l
store_self p l fs after e = stored p p l fs after e ∙ rw (text_eq_self p) refl

pub store_other :
    (p q : Text) (l : List Entry) (fs after : Files)
    → ◌≡◌ {A = Result ℕ Files} (ok (store p l fs)) (ok after)
    → (◌≡◌ {A = Answer} (list (after q)) (list (fs q))) ⊎ (after q ≡ l)
store_other p q l fs after e = elim (Bool-cases (text_eq q p)) [
  | inl same ↦ inr (stored p q l fs after e ∙ rw same refl)
  | inr other ↦ inl (ap list (stored p q l fs after e ∙ rw other refl))
]

abbrev pub simple : AclSystem
simple = record {
  Files = Files;
  get_file = λ fs p. list (fs p);
  set_file = λ p l fs. ok (store p l fs);
  fails = λ m. false;
  uid_to_uuid = λ uid. ok (uid + 1000);
  get_file-set_file = store_self;
  get_file-other = store_other;
}

abbrev pub no_entries : Files
no_entries q = []
