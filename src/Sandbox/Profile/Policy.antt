-- ===== src/Sandbox/Profile/Policy.antt =====
-- What a profile allows, said without its rules.
use jaim.Prelude.{
  subst, ℕ, Bool, true, false, not, ◌&&◌, ◌||◌, List, [], ◌∷◌, ◌++◌, any, ◌≡◌, refl, ap, arith,
  Text, codes, Result, ok, err, ◌>>=◌, Bool-cases, inl, inr, is_empty,
}
use jaim.Fs.Paths.{contains, join}
use jaim.Sandbox.Escape.{sbpl_regex_escape}
use jaim.Sandbox.Rules.{
  Access, file_read, file_all, Filter, subpath, literal, regex, allow, Item, plain, rule, covers,
  under_any, rule_permits, permits,
}
use jaim.Sandbox.Static.{static_items, device_items, system_files, device_files}
use jaim.Sandbox.Profile.{
  Mode, casual, bare, strict, Settings, Fault, require, overlay_mount_unset, private_home_unset,
  private_tmp_unset, masked_in, scoped_rule, emit_home_rule, emit_ssh_carveouts, in_set, ssh_items,
  casual_items, bare_items, home_items, check_cwd, cwd_items, grant_access, directory_items,
  siblings, file_items, generate_sandbox_profile,
}

or_false : (b : Bool) → (b || false) ≡ b
or_false true = refl
or_false false = refl

module _ (matches : Filter → Text → Bool) (s : Settings) (write : Bool) (q : Text) where
  -- Below a directory, and below none of its masked parts.
  abbrev pub in_unmasked : Text → Text → Bool
  in_unmasked base home =
      matches (subpath base) q && not (under_any matches (masked_in home s.mask_files) q)

  -- What SSH clients need of a masked `.ssh`.
  abbrev pub is_ssh_file : Text → Bool
  is_ssh_file ssh =
      matches (subpath (ssh ++ codes "/agent")) q
      || matches (literal (ssh ++ codes "/known_hosts")) q
      || matches (literal (ssh ++ codes "/known_hosts.old")) q
      || matches (regex (codes "^" ++ sbpl_regex_escape ssh ++ codes "/[^/]+\\.pub$")) q

  abbrev pub static_policy : Bool
  static_policy =
      (not write && any (λ f. matches f q) system_files) || any (λ f. matches f q) device_files

  abbrev pub ssh_policy : Bool
  ssh_policy =
      in_set (codes ".ssh") s.mask_files
      && not write
      && (is_ssh_file (join s.homepath (codes ".ssh"))
          || is_ssh_file (join s.overlay_mount (codes ".ssh")))

  abbrev pub home_policy : Mode → Bool
  home_policy casual =
      (not write && in_unmasked s.homepath s.homepath)
      || in_unmasked s.overlay_mount s.overlay_mount
      || ssh_policy
  home_policy bare = matches (subpath s.private_home) q
  home_policy strict = false

  abbrev pub directory_policy : List (Text × ℕ) → Bool
  directory_policy = any (λ g. covers matches (grant_access g.1) write && matches (subpath g.0) q)

  abbrev pub file_policy : List (Text × ℕ) → Bool
  file_policy = any (λ g.
      covers matches (grant_access g.1) write
      && (matches (literal g.0) q || matches (regex (siblings g.0)) q))

  abbrev pub policy : Bool
  policy =
      static_policy
      || (matches (subpath s.private_tmp) q
          || (home_policy s.mode
              || ((s.grant_cwd && in_unmasked s.cwd s.homepath)
                  || (directory_policy s.grant_directories || file_policy s.grant_files))))

  permits-append :
      (a b : List Item)
      → permits matches (a ++ b) write q ≡ (permits matches a write q || permits matches b write q)
  unfolding permits
  permits-append [] b = refl
  permits-append (rule r ∷ a) b = ground (arith, permits-append a b)
  permits-append (plain t ∷ a) b = permits-append a b

  permits-devices :
      (fs : List Filter) (rest : List Item)
      → permits matches (device_items fs ++ rest) write q
        ≡ (any (λ f. matches f q) fs || permits matches rest write q)
  unfolding permits device_items rule_permits
  permits-devices [] rest = refl
  permits-devices (f ∷ fs) rest = ground (arith, permits-devices fs rest)

  permits-static : permits matches static_items write q ≡ static_policy
  unfolding permits static_items rule_permits
  permits-static = rw (permits-devices device_files (plain (codes "\n") ∷ [])) (
      ap (λ (b : Bool). (not write && any (λ f. matches f q) system_files) || b)
        (or_false (any (λ f. matches f q) device_files)))

  permits-scoped :
      (a : Access) (base : Text) (except : List Text)
      → permits matches (scoped_rule a base except ∷ []) write q
        ≡ (covers matches a write && (matches (subpath base) q && not (under_any matches except q)))
  unfolding permits rule_permits scoped_rule
  permits-scoped a base [] = ground arith
  permits-scoped a base (m ∷ except) = or_false _

  permits-directories :
      (gs : List (Text × ℕ)) → permits matches (directory_items gs) write q ≡ directory_policy gs
  unfolding permits directory_items rule_permits
  permits-directories [] = refl
  permits-directories ((d, flags) ∷ gs) = ground (arith, permits-directories gs)

  permits-files : (gs : List (Text × ℕ)) → permits matches (file_items gs) write q ≡ file_policy gs
  unfolding permits file_items rule_permits
  permits-files [] = refl
  permits-files ((f, flags) ∷ gs) = ground (arith, permits-files gs)

  permits-ssh : permits matches (ssh_items s) write q ≡ ssh_policy
  unfolding permits ssh_items rule_permits emit_ssh_carveouts
  permits-ssh = ground arith

  permits-casual :
      permits matches
        (emit_home_rule s.mask_files file_read s.homepath
          ∷ emit_home_rule s.mask_files file_all s.overlay_mount
          ∷ plain (codes "\n")
          ∷ ssh_items s)
        write
        q
      ≡ home_policy casual
  unfolding emit_home_rule permits
  permits-casual =
      let behind = plain (codes "\n") ∷ ssh_items s in
      let home = scoped_rule file_read s.homepath (masked_in s.homepath s.mask_files) in
      let overlay = scoped_rule file_all s.overlay_mount (masked_in s.overlay_mount s.mask_files) in
      ground (
        arith,
        permits-append (home ∷ []) (overlay ∷ behind),
        permits-append (overlay ∷ []) behind,
        permits-scoped file_read s.homepath (masked_in s.homepath s.mask_files),
        permits-scoped file_all s.overlay_mount (masked_in s.overlay_mount s.mask_files),
        permits-ssh,
      )

  -- The rules of a part are what is said of it, where the part has rules.
  abbrev IsPolicy : Bool → Result Fault (List Item) → Type 0
  IsPolicy b (ok items) = permits matches items write q ≡ b
  IsPolicy b (err fault) = Unit {0}

  IsPolicy-require :
      (b test : Bool) (fault : Fault) (r : Result Fault (List Item))
      → IsPolicy b r
      → IsPolicy b (require test fault >>= λ u. r)
  unfolding require
  IsPolicy-require b true fault r h = h
  IsPolicy-require b false fault r h = tt

  IsPolicy-home : (mode : Mode) → IsPolicy (home_policy mode) (home_items mode s)
  unfolding casual_items bare_items permits emit_home_rule rule_permits
  IsPolicy-home casual =
      IsPolicy-require _ (not (is_empty s.overlay_mount)) overlay_mount_unset _ permits-casual
  IsPolicy-home bare =
      IsPolicy-require _ (not (is_empty s.private_home)) private_home_unset _ (or_false _)
  IsPolicy-home strict = refl

  IsPolicy-check :
      (b : Bool) (c : Text) (ms : List Text) (r : Result Fault (List Item))
      → IsPolicy b r
      → IsPolicy b (check_cwd c ms >>= λ u. r)
  unfolding check_cwd
  IsPolicy-check b c [] r h = h
  IsPolicy-check b c (m ∷ ms) r h = elim (Bool-cases (contains m c)) [
    | inl inside ↦ rw inside tt
    | inr outside ↦ rw outside (IsPolicy-check b c ms r h)
  ]

  IsPolicy-cwd : IsPolicy (s.grant_cwd && in_unmasked s.cwd s.homepath) (cwd_items s)
  unfolding cwd_items
  IsPolicy-cwd = elim (Bool-cases s.grant_cwd) [
    | inr refused ↦ rw refused (unfold permits in refl)
    | inl granted ↦ rw granted (IsPolicy-check _ s.cwd _ _ (permits-scoped file_all s.cwd _))
  ]

  IsPolicy-bind :
      (b c : Bool) (r : Result Fault (List Item)) (f : List Item → Result Fault (List Item))
      → IsPolicy b r
      → ((items : List Item) → permits matches items write q ≡ b → IsPolicy c (f items))
      → IsPolicy c (r >>= f)
  IsPolicy-bind b c (ok items) f h k = k items h
  IsPolicy-bind b c (err fault) f h k = tt

  permits-tmp :
      permits matches
        (rule (allow file_all (subpath s.private_tmp)) ∷ plain (codes "\n") ∷ [])
        write
        q
      ≡ matches (subpath s.private_tmp) q
  unfolding permits rule_permits
  permits-tmp = or_false _

  permits-all :
      (home current : List Item)
      → permits matches home write q ≡ home_policy s.mode
      → permits matches current write q ≡ (s.grant_cwd && in_unmasked s.cwd s.homepath)
      → permits matches
          (static_items
            ++ ((rule (allow file_all (subpath s.private_tmp)) ∷ plain (codes "\n") ∷ [])
                ++ (home
                    ++ (current
                        ++ (directory_items s.grant_directories ++ file_items s.grant_files)))))
          write
          q
        ≡ policy
  permits-all home current h c =
      let files = file_items s.grant_files in
      let directories = directory_items s.grant_directories in
      let tmp = rule (allow file_all (subpath s.private_tmp)) ∷ plain (codes "\n") ∷ [] in
      rw
        (
          permits-append static_items (tmp ++ (home ++ (current ++ (directories ++ files)))),
          permits-append tmp (home ++ (current ++ (directories ++ files))),
          permits-append home (current ++ (directories ++ files)),
          permits-append current (directories ++ files),
          permits-append directories files,
          permits-static,
          h,
          c,
          permits-directories s.grant_directories,
          permits-files s.grant_files,
        )
        (ap
          (λ (b : Bool).
            static_policy
            || (b
                || (home_policy s.mode
                    || ((s.grant_cwd && in_unmasked s.cwd s.homepath)
                        || (directory_policy s.grant_directories || file_policy s.grant_files)))))
          permits-tmp)

  pub generate_sandbox_profile-policy :
      (items : List Item)
      → generate_sandbox_profile s ≡ ok items
      → permits matches items write q ≡ policy
  generate_sandbox_profile-policy items e = subst (IsPolicy policy) e whole
    where
      whole : IsPolicy policy (generate_sandbox_profile s)
      whole =
          unfold generate_sandbox_profile in
          IsPolicy-require policy (not (is_empty s.private_tmp)) private_tmp_unset _ (
            IsPolicy-bind _ policy (home_items s.mode s) _ (IsPolicy-home s.mode) (λ home h.
              IsPolicy-bind _ policy (cwd_items s) _ IsPolicy-cwd
                (λ current c. permits-all home current h c)))
