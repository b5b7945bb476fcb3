-- ===== src/Overlay/Start/Checked.antt =====
-- What `main` of overlay.cc has made sure of before it mounts the layers.
use jaim.Prelude.{
  subst, Bool, true, false, not, ◌||◌, ◌++◌, List, Option, some, is_empty, ◌≡◌, ◌≢◌, refl, Text,
  Result, ok, err, ◌>>=◌, Option-cases, inl, inr,
}
use jaim.Overlay.Posix.{FilePath}
use jaim.Overlay.Start.{
  Stop, both_required, not_directory, not_writable, nested, Extracted, extract_args, is_nested,
  canonicalise, require, layers, start,
}
use jaim.Overlay.Start.Apart.{render, is_nested-Apart}

bind-ok :
    {A B : Type 0} (r : Result Stop A) (f : A → Result Stop B) (b : B)
    → (r >>= f) ≡ ok b
    → (a : A) × (r ≡ ok a) × (f a ≡ ok b)
bind-ok (ok a) f b e = (a, refl, e)
bind-ok (err s) f b e = cc

not-false : (b : Bool) → not b ≡ true → b ≡ false
not-false true e = cc
not-false false e = refl

module _ (realpath : Text → Option Text) (is_directory writable : Text → Bool) where
  require-ok :
      (b : Bool) (s : Stop) (u : Unit {0})
      → require realpath is_directory writable b s ≡ ok u
      → b ≡ true
  unfolding require
  require-ok true s u e = refl
  require-ok false s u e = cc

  canonicalise-ok :
      (p q : Text) → canonicalise realpath is_directory writable p ≡ ok q → realpath p ≡ some q
  unfolding canonicalise
  canonicalise-ok p q e = elim (Option-cases (realpath p)) [
    | inl failed ↦ cc (e, failed)
    | inr (q', found) ↦ cc (e, found)
  ]

  -- The two texts are what `realpath` has made of the arguments, they are directories, and upper is
  -- writable.
  abbrev pub IsReal : Extracted → Text → Text → Type 0
  IsReal x lower upper =
      (realpath x.lower ≡ some lower)
      × (realpath x.upper ≡ some upper)
      × (is_directory lower ≡ true)
      × (is_directory upper ≡ true)
      × (writable upper ≡ true)

  layers-IsReal :
      (x : Extracted) (lower upper : Text)
      → layers realpath is_directory writable x ≡ ok (lower, upper)
      → IsReal x lower upper × (is_nested lower upper ≡ false)
  unfolding layers
  layers-IsReal x lower upper e =
      let (given, given_ok, e1) =
        bind-ok
          (require realpath is_directory writable (not (is_empty x.lower || is_empty x.upper))
            both_required)
          _ (lower, upper) e in
      let (l, l_ok, e2) = bind-ok (canonicalise realpath is_directory writable x.lower) _ _ e1 in
      let (u, u_ok, e3) = bind-ok (canonicalise realpath is_directory writable x.upper) _ _ e2 in
      let (a, a_ok, e4) =
        bind-ok (require realpath is_directory writable (is_directory l) (not_directory l)) _ _
          e3 in
      let (b, b_ok, e5) =
        bind-ok (require realpath is_directory writable (is_directory u) (not_directory u)) _ _
          e4 in
      let (c, c_ok, e6) =
        bind-ok (require realpath is_directory writable (writable u) (not_writable u)) _ _ e5 in
      let (d, d_ok, e7) =
        bind-ok (require realpath is_directory writable (not (is_nested l u)) nested) _ _ e6 in
      let same : ◌≡◌ {A = Text × Text} (l, u) (lower, upper) = cc e7 in
      subst (λ (r : Text × Text). IsReal x r.0 r.1 × (is_nested r.0 r.1 ≡ false)) same
        (
          (
            canonicalise-ok x.lower l l_ok,
            canonicalise-ok x.upper u u_ok,
            require-ok (is_directory l) _ _ a_ok,
            require-ok (is_directory u) _ _ b_ok,
            require-ok (writable u) _ _ c_ok,
          ),
          not-false (is_nested l u) (require-ok (not (is_nested l u)) _ _ d_ok),
        )

  -- Where layers below the root are mounted, they are what `realpath` makes of the arguments that
  -- the command line gives for them, both are directories, upper is writable, and no path lies in
  -- both.
  pub start-IsChecked :
      (program : Text) (args : List Text) (l u : FilePath)
      → start realpath is_directory writable program args ≡ ok (render l, render u)
      → ((x : Extracted) × (extract_args program args ≡ ok x) × IsReal x (render l) (render u))
        × ((q r : FilePath) → u ++ q ≢ l ++ r)
  unfolding start
  start-IsChecked program args l u e =
      let (x, extracted, mounted) =
        bind-ok (extract_args program args) (layers realpath is_directory writable)
          (render l, render u) e in
      let (real, apart) = layers-IsReal x (render l) (render u) mounted in
      ((x, extracted, real), is_nested-Apart l u apart)
