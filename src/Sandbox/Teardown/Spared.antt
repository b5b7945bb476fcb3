-- ===== src/Sandbox/Teardown/Spared.antt =====
-- What `Config::teardown` of jaim.cc leaves alone.
use jaim.Prelude.{
  contains_byte, ℕ, ◌==◌, true, false, ◌&&◌, List, [], ◌∷◌, is_empty, All, Option, none, some,
  Result, ok, err, Text, codes, text_eq, starts_with, ◌≡◌, ◌⊎◌, inl, inr, refl, ◌∙◌, Bool-cases,
}
use jaim.Prelude.Stateful.{feed}
use jaim.Fs.Paths.{join, cat, contains}
use jaim.Sandbox.Teardown.Names.{IsName, AreNames, All-map, collect-All}
use jaim.Sandbox.Teardown.System.{DirKind, OpenedDir, owned_by, absent, failed, TeardownSystem}
use jaim.Sandbox.Teardown.{
  Fault, Jail, mount_suffix, home_suffixes, overlay_suffixes, may_be_dir, listed, is_crossed,
  detached, detach, remove_one, remove_suffixes, remove_names, sweep_root, sweep_opened, sweep_dir,
  sweep_state, is_own_dir, victims, remove_each, sweep_listed, sweep_tmp, teardown,
}

-- A jail that is in question: the one that is named, or any whose name is that of a directory.
abbrev pub IsMeant : Jail → Text → Type 0
IsMeant j n = ((j.sandbox_name ≡ []) × (contains_byte b'/' n ≡ false)) ⊎ (n ≡ j.sandbox_name)

-- A path lies at or below no directory with one of the suffixes of a jail in question.
abbrev pub IsBeside : Jail → Text → List Text → Text → Type 0
IsBeside j root suffixes q =
    (n : Text) → IsMeant j n → All (λ s. contains (join root (cat n s)) q ≡ false) suffixes

abbrev pub IsBesideState : Jail → Result ℕ Text → Text → Type 0
IsBesideState j (ok root) q = IsBeside j root overlay_suffixes q
IsBesideState j (err e) q = Unit {0}

abbrev pub IsBesideTmp : Option Text → Text → Type 0
IsBesideTmp none q = Unit {0}
IsBesideTmp (some base) q =
    (n : Text)
    → starts_with (codes "jaim.") n ≡ true
    → contains_byte b'/' n ≡ false
    → contains (join base n) q ≡ false

module _ (sys : TeardownSystem) (q : Text) where
  abbrev Same : sys.World → sys.World → Type 0
  Same w after = sys.exists after q ≡ sys.exists w q

  detached-Same : (p : Text) (w : sys.World) → contains p q ≡ false → Same w (detached sys p w)
  detached-Same p w h = elim (Bool-cases (sys.unmount false p w).0) [
    | inl done ↦ rw done (sys.unmount-beside false p q w h)
    | inr busy ↦
        rw busy (
          sys.unmount-beside true p q (sys.unmount false p w).1 h
          ∙ sys.unmount-beside false p q w h)
  ]

  detach-Same : (s p : Text) (w : sys.World) → contains p q ≡ false → Same w (detach sys s p w)
  unfolding detach
  detach-Same s p w h =
      elim (Bool-cases
        (text_eq s mount_suffix && is_crossed sys (sys.device p w) (sys.parent_device p w))) [
          | inl mounted ↦ rw mounted (detached-Same p w h)
          | inr plain ↦ rw plain refl
        ]

  remove_one-Same :
      (root n s : Text) (w : sys.World)
      → contains (join root (cat n s)) q ≡ false
      → Same w (remove_one sys root n s w)
  unfolding remove_one
  remove_one-Same root n s w h =
      sys.remove_all-beside (join root (cat n s)) q (detach sys s (join root (cat n s)) w) h
      ∙ detach-Same s (join root (cat n s)) w h

  remove_suffixes-Same :
      (root n : Text) (suffixes : List Text) (w : sys.World)
      → All (λ s. contains (join root (cat n s)) q ≡ false) suffixes
      → Same w (remove_suffixes sys root n suffixes w)
  unfolding remove_suffixes
  remove_suffixes-Same root n [] w h = refl
  remove_suffixes-Same root n (s ∷ suffixes) w h =
      remove_suffixes-Same root n suffixes (remove_one sys root n s w) h.1
      ∙ remove_one-Same root n s w h.0

  remove_names-Same :
      (root : Text) (names suffixes : List Text) (w : sys.World)
      → All (λ n. All (λ s. contains (join root (cat n s)) q ≡ false) suffixes) names
      → Same w (remove_names sys root names suffixes w)
  unfolding remove_names
  remove_names-Same root [] suffixes w h = refl
  remove_names-Same root (n ∷ names) suffixes w h =
      remove_names-Same root names suffixes (remove_suffixes sys root n suffixes w) h.1
      ∙ remove_suffixes-Same root n suffixes w h.0

  empty-eq : (s : Text) → is_empty s ≡ true → s ≡ []
  empty-eq [] h = refl
  empty-eq (c ∷ s) h = cc

  listed-All :
      (suffixes : List Text) (l : Option (List (Text × DirKind)))
      → ((entries : List (Text × DirKind)) → l ≡ some entries → AreNames entries)
      → All IsName (listed sys suffixes l)
  listed-All suffixes none h = tt
  listed-All suffixes (some entries) h = collect-All suffixes entries [] (h entries refl) tt

  sweep_root-Same :
      (j : Jail) (root : Text) (suffixes : List Text) (w : sys.World)
      → IsBeside j root suffixes q
      → Same w (sweep_root sys j.sandbox_name root suffixes w)
  unfolding sweep_root
  sweep_root-Same j root suffixes w h = elim (Bool-cases (is_empty j.sandbox_name)) [
    | inl unnamed ↦ rw unnamed (
        remove_names-Same root (listed sys suffixes (sys.list_dir root w)) suffixes w (
          All-map (listed sys suffixes (sys.list_dir root w))
            (λ n name. h n (inl (empty-eq j.sandbox_name unnamed, name)))
            (listed-All suffixes (sys.list_dir root w)
              (λ entries e. sys.list_dir-names root w entries e))))
    | inr named ↦
        rw named (remove_suffixes-Same root j.sandbox_name suffixes w (h j.sandbox_name (inr refl)))
  ]

  sweep_opened-Same :
      (j : Jail) (root : Text) (suffixes : List Text) (o : OpenedDir) (w : sys.World)
      → IsBeside j root suffixes q
      → Same w (sweep_opened sys j root suffixes o w).1
  sweep_opened-Same j root suffixes absent w h = refl
  sweep_opened-Same j root suffixes (failed e) w h = refl
  sweep_opened-Same j root suffixes (owned_by u) w h = elim (Bool-cases (u == j.user)) [
    | inl own ↦ rw own (sweep_root-Same j root suffixes w h)
    | inr other ↦ rw other refl
  ]

  sweep_dir-Same :
      (j : Jail) (root : Text) (suffixes : List Text) (w : sys.World)
      → IsBeside j root suffixes q
      → Same w (sweep_dir sys j root suffixes w).1
  unfolding sweep_dir
  sweep_dir-Same j root suffixes w h = sweep_opened-Same j root suffixes (sys.open_dir root w) w h

  sweep_state-Same :
      (j : Jail) (r : Result ℕ Text) (w : sys.World)
      → IsBesideState j r q
      → Same w (sweep_state sys j r w).1
  sweep_state-Same j (ok root) w h = sweep_dir-Same j root overlay_suffixes w h
  sweep_state-Same j (err e) w h = refl

  abbrev AreApart : List Text → Type 0
  AreApart paths = All (λ p. contains p q ≡ false) paths

  victims-AreApart :
      (j : Jail) (base : Text) (entries : List (Text × DirKind)) (w : sys.World)
      → IsBesideTmp (some base) q
      → AreNames entries
      → AreApart (victims sys j base entries w)
  unfolding victims
  victims-AreApart j base [] w h k = tt
  victims-AreApart j base ((nm, kind) ∷ entries) w h k =
      elim (Bool-cases (starts_with (codes "jaim.") nm)) [
        | inr other ↦ rw other (victims-AreApart j base entries w h k.1)
        | inl ours ↦
            elim (Bool-cases
              (may_be_dir kind && is_own_dir sys j.user (sys.lstat (join base nm) w))) [
                | inl own ↦ rw (ours, own) (h nm ours k.0, victims-AreApart j base entries w h k.1)
                | inr foreign ↦ rw (ours, foreign) (victims-AreApart j base entries w h k.1)
              ]
      ]

  remove_each-Same :
      (paths : List Text) (w : sys.World) → AreApart paths → Same w (remove_each sys paths w)
  unfolding remove_each
  remove_each-Same [] w h = refl
  remove_each-Same (p ∷ paths) w h =
      remove_each-Same paths (sys.remove_all p w) h.1 ∙ sys.remove_all-beside p q w h.0

  sweep_listed-Same :
      (j : Jail) (base : Text) (l : Option (List (Text × DirKind))) (w : sys.World)
      → IsBesideTmp (some base) q
      → ((entries : List (Text × DirKind)) → l ≡ some entries → AreNames entries)
      → Same w (sweep_listed sys j base l w)
  sweep_listed-Same j base none w h k = refl
  sweep_listed-Same j base (some entries) w h k =
      remove_each-Same (victims sys j base entries w) w
        (victims-AreApart j base entries w h (k entries refl))

  sweep_tmp-Same :
      (j : Jail) (tmp : Option Text) (w : sys.World)
      → IsBesideTmp tmp q
      → Same w (sweep_tmp sys j tmp w)
  sweep_tmp-Same j none w h = refl
  sweep_tmp-Same j (some base) w h =
      sweep_listed-Same j base (sys.list_dir base w) w h
        (λ entries e. sys.list_dir-names base w entries e)

  feed-Same :
      (w : sys.World) (r : Result Fault (Unit {0}) × sys.World)
      (f : sys.World → Result Fault (Unit {0}) × sys.World)
      → Same w r.1
      → ((v : sys.World) → Same v (f v).1)
      → Same w (feed r (λ u. f)).1
  feed-Same w (ok u, v) f h k = k v ∙ h
  feed-Same w (err e, v) f h k = h

  -- A path that lies at or below no <jail>.home of the configuration directory, no <jail>.mount or
  -- <jail>.changes of the state directory and no jaim.* of the temporary directory is there after
  -- `jaim -u` exactly if it was before, whatever fails; with -j only the named jail's directories
  -- count, and without it those with any name that holds no slash. No part of the paths may be a
  -- symbolic link.
  pub teardown-Spares :
      (j : Jail) (w : sys.World)
      → IsBeside j j.homejaimpath home_suffixes q
      → IsBesideState j sys.state_dir q
      → IsBesideTmp sys.temp_directory q
      → sys.exists (teardown sys j w).1 q ≡ sys.exists w q
  unfolding teardown
  teardown-Spares j w h k l =
      feed-Same w (sweep_dir sys j j.homejaimpath home_suffixes w)
        (λ v.
          feed (sweep_state sys j sys.state_dir v)
            (λ u v. (ok tt, sweep_tmp sys j sys.temp_directory v)))
        (sweep_dir-Same j j.homejaimpath home_suffixes w h)
        (λ v.
          feed-Same v (sweep_state sys j sys.state_dir v)
            (λ v. (ok tt, sweep_tmp sys j sys.temp_directory v))
            (sweep_state-Same j sys.state_dir v k) (λ v. sweep_tmp-Same j sys.temp_directory v l))
