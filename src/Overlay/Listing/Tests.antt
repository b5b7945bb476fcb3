-- ===== src/Overlay/Listing/Tests.antt =====
-- A listing on a small disk, whose lower layer has a directory "d" with a file "a".
use jaim.Prelude.{
  [], ◌∷◌, ◌++◌, none, some, ok, ◌≡◌, refl, codes, text_eq, text_eq_iff, arith, starts_with,
}
use jaim.Overlay.Posix.{FilePath, regular, directory}
use jaim.Overlay.Resolve.{Overlay, resolve, at}
use jaim.Overlay.Read.{op_getattr, op_readdir, member}
use jaim.Overlay.Listing.Names.{IsOrdinary}
use jaim.Overlay.Listing.Agree.{IsTidy, is_ok, op_readdir-op_getattr}
use jaim.Overlay.Disk.{Disk, node, put_at, status_of}
use jaim.Overlay.Disk.System.{disk, entries}

abbrev overlay : Overlay
overlay = record {
  os = disk (codes "a" ∷ codes "d" ∷ []);
  upper = codes "u" ∷ [];
  lower = codes "l" ∷ [];
}

abbrev d : FilePath
d = codes "d" ∷ []

unfoldable listed_disk : Disk
unfolding put_at
listed_disk = put_at (codes "u" ∷ []) (some (node directory 0o755 [])) (
    put_at (codes "l" ∷ []) (some (node directory 0o755 [])) (
      put_at (codes "l" ∷ codes "d" ∷ []) (some (node directory 0o700 [])) (
        put_at (codes "l" ∷ codes "d" ∷ codes "a" ∷ []) (some (node regular 0o644 []))
          (λ p. none))))

d-IsTidy : IsTidy overlay listed_disk (overlay.upper ++ d) (overlay.lower ++ d)
unfolding listed_disk status_of entries text_eq member
d-IsTidy = record {
  upper_listed = λ nm. refl;
  lower_listed = λ nm. ground (arith, text_eq_iff nm (codes "a"), text_eq_iff (codes "a") nm);
  no_directory = λ e. refl;
  sidecars = λ nm. refl;
  no_entry_beside = λ nm e. refl;
}

a-IsOrdinary : IsOrdinary (codes "a")
unfolding starts_with
a-IsOrdinary = (refl, λ e. cc)

d_listed : op_readdir overlay listed_disk d ≡ ok (codes "." ∷ codes ".." ∷ codes "a" ∷ [])
unfolding op_readdir resolve listed_disk status_of text_eq entries
d_listed = refl

op_readdir-op_getattr_example :
    member (codes "a") (codes "." ∷ codes ".." ∷ codes "a" ∷ [])
    ≡ is_ok (op_getattr overlay listed_disk (at d (codes "a")))
op_readdir-op_getattr_example =
    op_readdir-op_getattr overlay listed_disk (codes "d") [] (codes "a")
      (codes "." ∷ codes ".." ∷ codes "a" ∷ []) tt d-IsTidy a-IsOrdinary (unfold text_eq in refl)
      (unfold text_eq in refl) d_listed
