-- ===== src/Overlay/Disk/Laws.antt =====
-- What the calls of the small file system do to it.
use jaim.Prelude.{
  ℕ, Bool, true, false, Bool-cases, [], ◌++◌, append-nil, Option, none, some, ok, err, ◌≡◌, ◌⊎◌,
  inl, inr, refl, sym, ap, subst, ◌∙◌, if◌then◌else◌, Text,
}
use jaim.Overlay.Posix.{
  FilePath, regular, directory, symbolic_link, char_device, Stat, eperm, Syscall, mkdir, unlink,
  rmdir, mknod_whiteout, creat, create_excl, write_all, open_file, chmod, lchown, utimes, futimes,
  fchown, truncate, setxattr, removexattr, symlink, link, rename, Touches, MakesKind, IsOdd,
  FileKind, Brings, HasKind,
}
use jaim.Overlay.Disk.{
  Node, Disk, path_eq, path_eq_iff, put_at, put_at-same, put_at-other, node, refilled, apply,
  allowed, perform_on, status_of,
}

pub performed : (c : Syscall) (fs fs' : Disk) → perform_on c fs ≡ ok fs' → fs' ≡ apply c fs
unfolding perform_on
performed c fs fs' e = by_test (allowed c fs) e
  where
    by_test : (b : Bool) → (if b then ok (apply c fs) else err eperm) ≡ ok fs' → fs' ≡ apply c fs
    by_test true h = cc
    by_test false h = cc

Under-self : (a : FilePath) → (r : FilePath) × (a ≡ a ++ r)
Under-self a = ([], sym (append-nil a))

pub apply-frame : (c : Syscall) (fs : Disk) (q : FilePath) → ¬ (Touches c q) → apply c fs q ≡ fs q
unfolding apply
apply-frame (mkdir p m) fs q h = put_at-other p q (some (node directory m [])) fs h
apply-frame (unlink p) fs q h = put_at-other p q none fs h
apply-frame (rmdir p) fs q h = put_at-other p q none fs h
apply-frame (mknod_whiteout p) fs q h = put_at-other p q (some (node char_device 0 [])) fs h
apply-frame (creat p m) fs q h = put_at-other p q (some (node regular m [])) fs h
apply-frame (create_excl p m) fs q h = put_at-other p q (some (node regular m [])) fs h
apply-frame (write_all p s) fs q h = put_at-other p q (refilled s (fs p)) fs h
apply-frame (symlink t p) fs q h = put_at-other p q (some (node symbolic_link 0o777 t)) fs h
apply-frame (rename a b) fs q h =
    put_at-other a q none (put_at b (fs a) fs)
      (λ e. h (inl (subst (λ x. (r : FilePath) × (x ≡ a ++ r)) (sym e) (Under-self a))))
    ∙ put_at-other b q (fs a) fs
        (λ e. h (inr (subst (λ x. (r : FilePath) × (x ≡ b ++ r)) (sym e) (Under-self b))))
apply-frame (open_file p f m) fs q h = refl
apply-frame (chmod p m) fs q h = refl
apply-frame (lchown p u g) fs q h = refl
apply-frame (utimes p a m) fs q h = refl
apply-frame (futimes p a m) fs q h = refl
apply-frame (fchown p u g) fs q h = refl
apply-frame (truncate p n) fs q h = refl
apply-frame (setxattr p k v f) fs q h = refl
apply-frame (removexattr p k) fs q h = refl
apply-frame (link a b) fs q h = refl

module _ (k : FileKind) (odd : IsOdd k) where
  node-kind : (n : Node) → HasKind k (status_of (some n)) → n.status.kind ≡ k
  unfolding status_of
  node-kind n (sb, e, l) = cc

  plain-node : (n : Node) → ¬ (IsOdd n.status.kind) → ¬ (HasKind k (status_of (some n)))
  plain-node n even h = even (subst IsOdd (sym (node-kind n h)) odd)

  kind-put_at :
      (p q : FilePath) (v : Option Node) (fs : Disk)
      → HasKind k (status_of (put_at p v fs q))
      → HasKind k (status_of (fs q)) ⊎ ((q ≡ p) × HasKind k (status_of v))
  kind-put_at p q v fs h = elim (Bool-cases (path_eq p q)) [
    | inl e ↦
        let same = sym ((path_eq_iff p q).0 e) in
        inr (
          same,
          subst (λ x. HasKind k (status_of x)) (ap (put_at p v fs) same ∙ put_at-same p v fs) h,
        )
    | inr e ↦ inl (
        subst (λ x. HasKind k (status_of x))
          (put_at-other p q v fs (λ same. cc (e, (path_eq_iff p q).1 (sym same)))) h)
  ]

  abbrev Comes : Syscall → Disk → FilePath → Type 0
  Comes c fs q =
      HasKind k (status_of (fs q))
      ⊎ (MakesKind c k q ⊎ ((p : FilePath) × HasKind k (status_of (fs p)) × Brings c p q))

  old_only :
      (c : Syscall) (p q : FilePath) (v : Option Node) (fs : Disk)
      → ¬ (HasKind k (status_of v))
      → HasKind k (status_of (put_at p v fs q))
      → Comes c fs q
  old_only c p q v fs n h = elim (kind-put_at p q v fs h) [
    | inl old ↦ inl old
    | inr (e, new) ↦ absurd (n new)
  ]

  refilled-kind :
      (s : Text) (n : Option Node) → HasKind k (status_of (refilled s n)) → HasKind k (status_of n)
  unfolding refilled status_of
  refilled-kind s none h = h
  refilled-kind s (some n) h = h

  pub apply-kind :
      (c : Syscall) (fs : Disk) (q : FilePath) → HasKind k (status_of (apply c fs q)) → Comes c fs q
  unfolding apply status_of
  apply-kind (mkdir p m) fs q h =
      old_only (mkdir p m) p q (some (node directory m [])) fs
        (plain-node (node directory m []) (λ n. n)) h
  apply-kind (unlink p) fs q h = old_only (unlink p) p q (none) fs (λ (sb, e, l). cc) h
  apply-kind (rmdir p) fs q h = old_only (rmdir p) p q (none) fs (λ (sb, e, l). cc) h
  apply-kind (mknod_whiteout p) fs q h =
      elim (kind-put_at p q (some (node char_device 0 [])) fs h) [
        | inl old ↦ inl old
        | inr (e, new) ↦ inr (
            inl (
              subst (λ j. MakesKind (mknod_whiteout p) j q) (node-kind (node char_device 0 []) new)
                e))
      ]
  apply-kind (creat p m) fs q h =
      old_only (creat p m) p q (some (node regular m [])) fs
        (plain-node (node regular m []) (λ n. n)) h
  apply-kind (create_excl p m) fs q h =
      old_only (create_excl p m) p q (some (node regular m [])) fs
        (plain-node (node regular m []) (λ n. n)) h
  apply-kind (write_all p s) fs q h = elim (kind-put_at p q (refilled s (fs p)) fs h) [
    | inl old ↦ inl old
    | inr (e, new) ↦
        inl (subst (λ x. HasKind k (status_of (fs x))) (sym e) (refilled-kind s (fs p) new))
  ]
  apply-kind (symlink t p) fs q h =
      elim (kind-put_at p q (some (node symbolic_link 0o777 t)) fs h) [
        | inl old ↦ inl old
        | inr (e, new) ↦ inr (
            inl (
              subst (λ j. MakesKind (symlink t p) j q) (node-kind (node symbolic_link 0o777 t) new)
                e))
      ]
  apply-kind (rename a b) fs q h = elim (kind-put_at a q none (put_at b (fs a) fs) h) [
    | inl later ↦ elim (kind-put_at b q (fs a) fs later) [
      | inl old ↦ inl old
      | inr (e, new) ↦ inr (inr (a, new, ([], sym (append-nil a), e ∙ sym (append-nil b))))
    ]
    | inr (e, (sb, absent, l)) ↦ cc
  ]
  apply-kind (open_file p f m) fs q h = inl h
  apply-kind (chmod p m) fs q h = inl h
  apply-kind (lchown p u g) fs q h = inl h
  apply-kind (utimes p a m) fs q h = inl h
  apply-kind (futimes p a m) fs q h = inl h
  apply-kind (fchown p u g) fs q h = inl h
  apply-kind (truncate p n) fs q h = inl h
  apply-kind (setxattr p x v f) fs q h = inl h
  apply-kind (removexattr p x) fs q h = inl h
  apply-kind (link a b) fs q h = inl h

pub disk-unlink :
    (p : FilePath) (fs fs' : Disk) → perform_on (unlink p) fs ≡ ok fs' → status_of (fs' p) ≡ none
unfolding apply status_of
disk-unlink p fs fs' e =
    let there =
      ap (λ x. status_of (x p)) (performed (unlink p) fs fs' e)
      ∙ ap status_of (put_at-same p (none) fs) in
    there

pub disk-rmdir :
    (p : FilePath) (fs fs' : Disk) → perform_on (rmdir p) fs ≡ ok fs' → status_of (fs' p) ≡ none
unfolding apply status_of
disk-rmdir p fs fs' e =
    let there =
      ap (λ x. status_of (x p)) (performed (rmdir p) fs fs' e)
      ∙ ap status_of (put_at-same p (none) fs) in
    there

pub disk-mkdir :
    (p : FilePath) (m : ℕ) (fs fs' : Disk)
    → perform_on (mkdir p m) fs ≡ ok fs'
    → HasKind directory (status_of (fs' p))
unfolding apply status_of
disk-mkdir p m fs fs' e =
    let there =
      ap (λ x. status_of (x p)) (performed (mkdir p m) fs fs' e)
      ∙ ap status_of (put_at-same p (some (node directory m [])) fs) in
    ((node directory m []).status, there, refl)

pub disk-creat :
    (p : FilePath) (m : ℕ) (fs fs' : Disk)
    → perform_on (creat p m) fs ≡ ok fs'
    → HasKind regular (status_of (fs' p))
unfolding apply status_of
disk-creat p m fs fs' e =
    let there =
      ap (λ x. status_of (x p)) (performed (creat p m) fs fs' e)
      ∙ ap status_of (put_at-same p (some (node regular m [])) fs) in
    ((node regular m []).status, there, refl)

pub disk-mknod_whiteout :
    (p : FilePath) (fs fs' : Disk)
    → perform_on (mknod_whiteout p) fs ≡ ok fs'
    → (sb : Stat) × (status_of (fs' p) ≡ some sb)
      × (sb.kind ≡ char_device)
      × (sb.major ≡ 0)
      × (sb.minor ≡ 0)
unfolding apply status_of
disk-mknod_whiteout p fs fs' e =
    let there =
      ap (λ x. status_of (x p)) (performed (mknod_whiteout p) fs fs' e)
      ∙ ap status_of (put_at-same p (some (node char_device 0 [])) fs) in
    ((node char_device 0 []).status, there, refl, refl, refl)
