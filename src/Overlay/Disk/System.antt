-- ===== src/Overlay/Disk/System.antt =====
-- The small file system as a system that the overlay runs on.
use jaim.Prelude.{List, [], ◌∷◌, none, some, ok, err, ap, subst, ◌∙◌, if◌then◌else◌, Text}
use jaim.Overlay.Posix.{FilePath, enoent, HasKind, Posix}
use jaim.Overlay.Resolve.{at}
use jaim.Overlay.Disk.{Disk, present, perform_on, status_of, text_of}
use jaim.Overlay.Disk.Laws.{
  performed, apply-frame, apply-kind, disk-unlink, disk-rmdir, disk-mkdir, disk-creat,
  disk-mknod_whiteout,
}

-- The directories list those of the names that are there.
module _ (names : List Text) where
  unfoldable pub entries : Disk → FilePath → List Text → List Text
  unfolding present
  entries fs d [] = []
  entries fs d (nm ∷ rest) =
      let more = entries fs d rest in if present (fs (at d nm)) then nm ∷ more else more

  abbrev pub disk : Posix
  disk = record {
    Fs = Disk;
    lstat = λ fs p. status_of (fs p);
    readdir = λ fs p. if present (fs p) then some (entries fs p names) else none;
    contents = λ fs p. text_of (fs p);
    readlink = λ fs p. text_of (fs p);
    open_read = λ fs p. if present (fs p) then ok tt else err enoent;
    access = λ fs p mask. if present (fs p) then ok tt else err enoent;
    times = λ fs p. (0, 0);
    getxattr = λ fs p k. err enoent;
    listxattr = λ fs p. ok [];
    Alias = λ fs p q. ⊥;
    perform = perform_on;
    kind-frame = λ c k odd fs fs' q e h.
        apply-kind k odd c fs q (subst (λ x. HasKind k (status_of (x q))) (performed c fs fs' e) h);
    lstat-frame = λ c fs fs' q e f t a.
        ap (λ x. status_of (x q)) (performed c fs fs' e) ∙ ap status_of (apply-frame c fs q t);
    contents-frame = λ c fs fs' q e f t a.
        ap (λ x. text_of (x q)) (performed c fs fs' e) ∙ ap text_of (apply-frame c fs q t);
    alias-frame = λ c fs fs' p q e t l. absurd l;
    unlink-lstat = λ p fs fs' e. disk-unlink p fs fs' e;
    rmdir-lstat = λ p fs fs' e. disk-rmdir p fs fs' e;
    mkdir-lstat = λ p m fs fs' e. disk-mkdir p m fs fs' e;
    mknod-lstat = λ p fs fs' e. disk-mknod_whiteout p fs fs' e;
    creat-lstat = λ p m fs fs' plain e. disk-creat p m fs fs' e;
  }
