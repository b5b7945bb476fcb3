-- ===== src/Config/Grants/Undo.antt =====
-- `--xdir` and `--xfile` take back what the other options have granted.
use jaim.Prelude.{
  ◌>>=◌, ℕ, Bool, if◌then◌else◌, List, Option, none, ok, ◌≡◌, inl, inr, refl, ◌∙◌, Bool-cases, Text,
}
use jaim.Fs.Maps.{same_path, path_find, path_emplace, path_erase}
use jaim.Fs.Maps.Laws.{same_path-sym, path_find-path_erase, path_find-path_emplace}
use jaim.Config.Grants.{Grants, Resolver, named_path, grant_directory, xdir}

erased :
    (q d : Text) (flags : ℕ) (m : List (Text × ℕ))
    → path_find q (path_erase d (path_emplace d flags m))
      ≡ (if same_path q d then none else path_find q m)
erased q d flags m = elim (Bool-cases (same_path q d)) [
  | inl same ↦ path_find-path_erase q d _ ∙ rw same refl
  | inr other ↦
      path_find-path_erase q d _
      ∙ rw other (path_find-path_emplace q d flags m (same_path-sym d q ∙ other))
]

module _ (getenv : Text → Option Text) (canonical weakly_canonical : Resolver)
    (access : Text → Option ℕ) (parsing : Bool) (homepath homejaimpath : Text) where
  named_path-same :
      (arg : Text) (g : Grants) (m : List (Text × ℕ))
      → named_path getenv canonical weakly_canonical access parsing homepath homejaimpath arg
          (record g { grant_directories = m })
        ≡ named_path getenv canonical weakly_canonical access parsing homepath homejaimpath arg g
  unfolding named_path
  named_path-same arg g m = refl

  -- A directory that any of the options has granted, and `--xdir` with the same argument behind it:
  -- the directory is granted no more, whether or not it had been before, every other one is as it
  -- was, and so is all else.
  pub xdir-grant_directory :
      (resolve : Resolver) (flags : ℕ) (arg d : Text) (g : Grants)
      → resolve
          (named_path getenv canonical weakly_canonical access parsing homepath homejaimpath arg g)
        ≡ ok d
      → canonical
          (named_path getenv canonical weakly_canonical access parsing homepath homejaimpath arg g)
        ≡ ok d
      → (h : Grants) × ((grant_directory getenv canonical weakly_canonical access parsing homepath
              homejaimpath resolve flags arg g
            >>= xdir getenv canonical weakly_canonical access parsing homepath homejaimpath arg)
          ≡ ok h)
        × (h ≡ record g { grant_directories = h.grant_directories })
        × ((q : Text)
            → path_find q h.grant_directories
              ≡ (if same_path q d then none else path_find q g.grant_directories))
  unfolding grant_directory xdir
  xdir-grant_directory resolve flags arg d g given again = (
    record g { grant_directories = path_erase d (path_emplace d flags g.grant_directories) },
    rw (given, named_path-same arg g (path_emplace d flags g.grant_directories), again) refl,
    refl,
    λ q. erased q d flags g.grant_directories,
  )
