-- ===== src/Config/Grants/Masked.antt =====
-- What `--mask` means for the profile that is written.
use jaim.Prelude.{
  ℕ, Bool, true, false, ◌||◌, List, [], ◌∷◌, any, All, Option, Result, ok, err, ◌≡◌, inl, inr, refl,
  sym, ap, ◌∙◌, arith, Bool-cases, Text,
}
use jaim.Fs.Paths.{join}
use jaim.Fs.Maps.{same_path, set_emplace}
use jaim.Fs.Maps.Laws.{set_emplace-has}
use jaim.Config.Environment.{expand}
use jaim.Config.Grants.{is_absolute, Grants, Fault, Resolver, mask}
use jaim.Sandbox.Rules.{Filter, subpath, Item, permits, under_any}
use jaim.Sandbox.Profile.{Mode, casual, bare, strict, Settings, masked_in, generate_sandbox_profile}
use jaim.Sandbox.Profile.Policy.{
  in_unmasked, static_policy, ssh_policy, home_policy, directory_policy, file_policy, policy,
  generate_sandbox_profile-policy,
}

under_any-masked_in :
    (matches : Filter → Text → Bool) (home q : Text) (masks : List Text)
    → under_any matches (masked_in home masks) q
      ≡ any (λ m. matches (subpath (join home m)) q) masks
unfolding masked_in
under_any-masked_in matches home q [] = refl
under_any-masked_in matches home q (m ∷ masks) =
    ap (λ b. matches (subpath (join home m)) q || b) (under_any-masked_in matches home q masks)

masks_of : Result Fault Grants → List Text
masks_of (ok g) = g.mask_files
masks_of (err e) = []

module _ (matches : Filter → Text → Bool) (s : Settings) (write : Bool) (q : Text) where
  -- What does not come from the home directory, nor from the current one.
  abbrev pub other_home : Mode → Bool
  other_home casual =
      in_unmasked matches s write q s.overlay_mount s.overlay_mount || ssh_policy matches s write q
  other_home bare = matches (subpath s.private_home) q
  other_home strict = false

  abbrev pub elsewhere : Bool
  elsewhere =
      static_policy matches s write q
      || (matches (subpath s.private_tmp) q
          || (other_home s.mode
              || (directory_policy matches s write q s.grant_directories
                  || file_policy matches s write q s.grant_files)))

  home_masked :
      (mode : Mode)
      → under_any matches (masked_in s.homepath s.mask_files) q ≡ true
      → home_policy matches s write q mode ≡ true
      → other_home mode ≡ true
  home_masked casual h k = ground arith
  home_masked bare h k = k
  home_masked strict h k = k

  policy-masked :
      under_any matches (masked_in s.homepath s.mask_files) q ≡ true
      → policy matches s write q ≡ true
      → elsewhere ≡ true
  policy-masked h k = ground (arith, home_masked s.mode h)

  module _ (getenv : Text → Option Text) (canonical weakly_canonical : Resolver)
      (access : Text → Option ℕ) (parsing : Bool) (homepath homejaimpath : Text) where
    is_masked :
        (arg : Text) (g h : Grants)
        → mask getenv canonical weakly_canonical access parsing homepath homejaimpath arg g ≡ ok h
        → h.mask_files ≡ set_emplace (expand getenv parsing g.environment arg) g.mask_files
    unfolding mask masks_of
    is_masked arg g h e =
        elim (Bool-cases (is_absolute (expand getenv parsing g.environment arg))) [
          | inl absolute ↦ cc (rw absolute at e)
          | inr relative ↦ sym (ap masks_of (rw relative at e))
        ]

    -- Where `--mask` has returned and the profile is written with its masks, a path below the masked
    -- one of the home directory is allowed, for reading or for writing, only by what comes neither
    -- from the home nor from the current directory: the system's files, the temporary directory, the
    -- overlay or the private home, what SSH needs, or a grant of a directory or a file. Masks of
    -- which the elements are the same are taken to match alike.
    pub permits-mask :
        (arg f : Text) (g h : Grants) (items : List Item)
        → expand getenv parsing g.environment arg ≡ f
        → mask getenv canonical weakly_canonical access parsing homepath homejaimpath arg g ≡ ok h
        → s.mask_files ≡ h.mask_files
        → generate_sandbox_profile s ≡ ok items
        → All
            (λ a.
              same_path a f ≡ true
              → matches (subpath (join s.homepath a)) q ≡ matches (subpath (join s.homepath f)) q)
            g.mask_files
        → matches (subpath (join s.homepath f)) q ≡ true
        → permits matches items write q ≡ true
        → elsewhere ≡ true
    permits-mask arg f g h items name masked same written alike below allowed =
        policy-masked
          (under_any-masked_in matches s.homepath q s.mask_files
            ∙ ap (any (λ m. matches (subpath (join s.homepath m)) q))
                (same ∙ is_masked arg g h masked ∙ ap (λ t. set_emplace t g.mask_files) name)
            ∙ set_emplace-has (λ m. matches (subpath (join s.homepath m)) q) f g.mask_files alike
            ∙ ap
                (λ (b : Bool). b || any (λ m. matches (subpath (join s.homepath m)) q) g.mask_files)
                below)
          (sym (generate_sandbox_profile-policy matches s write q items written) ∙ allowed)
