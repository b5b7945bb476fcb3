-- ===== src/Overlay/Monad/Keeps.antt =====
-- A computation that changes nothing in the lower layer: the rules by which one is recognised.
use jaim.Prelude.{
  Bool, true, false, Result, ok, err, ◌≡◌, ◌≢◌, refl, sym, subst, ◌∙◌, ◌++◌, inl, inr,
  if◌then◌else◌,
}
use jaim.Overlay.Posix.{
  FilePath, Errno, Syscall, Touches, Names, Follows, MakesLink, Brings, HasKind, symbolic_link,
}
use jaim.Overlay.Resolve.{Overlay}
use jaim.Overlay.Monad.{
  State, M, feed, settle, ◌>>=◌, ◌>>◌, pure, fail, look, stat, attempt, sys, of_result, read,
}

module _ (o : Overlay) where
  open o use {os, upper, lower}
  open os use {Fs, lstat, contents, Alias}

  -- Neither layer lies within the other.
  abbrev pub Apart : Type 0
  Apart = (q r : FilePath) → upper ++ q ≢ lower ++ r

  -- No file of the lower layer has a hard link in the upper one.
  abbrev pub NoSharing : Fs → Type 0
  NoSharing fs = (q r : FilePath) → ¬ (Alias fs (upper ++ q) (lower ++ r))

  -- None of the guarded paths is a symbolic link.
  abbrev pub NoLinks : (FilePath → Type 0) → Fs → Type 0
  NoLinks Guarded fs = (p : FilePath) → Guarded p → ¬ (HasKind symbolic_link (lstat fs p))

  -- All that `lstat` and `read` say of the lower layer is as it was.
  pub record SameLower (fs fs' : Fs) : Type 0 where
    pub same_stat : (r : FilePath) → lstat fs' (lower ++ r) ≡ lstat fs (lower ++ r)
    pub same_contents : (r : FilePath) → contents fs' (lower ++ r) ≡ contents fs (lower ++ r)

-- The paths that are guarded are those where a call may follow a link.
module _ (o : Overlay) (Guarded : FilePath → Type 0) where
  open o use {os, upper, lower}
  open os use {
    Fs, lstat, contents, perform, Alias, lstat-frame, contents-frame, alias-frame, kind-frame,
  }

  pub record Intact (fs fs' : Fs) : Type 0 where
    pub same : SameLower o fs fs'
    pub no_sharing : NoSharing o fs'
    pub no_links : NoLinks o Guarded fs'

  pub record Keeps {A : Type 0} (m : M o A) : Type 0 where
    pub keeps :
        (st : State o) → NoSharing o st.fs → NoLinks o Guarded st.fs → Intact st.fs (m st).1.fs

  pub Intact-refl : (fs : Fs) → NoSharing o fs → NoLinks o Guarded fs → Intact fs fs
  Intact-refl fs n l = record {
    same = record { same_stat = λ r. refl; same_contents = λ r. refl };
    no_sharing = n;
    no_links = l;
  }

  pub Intact-trans : {a b c : Fs} → Intact a b → Intact b c → Intact a c
  Intact-trans p q = record {
    same = record {
      same_stat = λ r. q.same.same_stat r ∙ p.same.same_stat r;
      same_contents = λ r. q.same.same_contents r ∙ p.same.same_contents r;
    };
    no_sharing = q.no_sharing;
    no_links = q.no_links;
  }

  pub Keeps-pure : {A : Type 0} {a : A} → Keeps (pure a)
  Keeps-pure = record { keeps = λ st n l. Intact-refl st.fs n l }

  pub Keeps-fail : (A : Type 0) {e : Errno} → Keeps (fail {A = A} e)
  Keeps-fail A = record { keeps = λ st n l. Intact-refl st.fs n l }

  pub Keeps-stat : {p : FilePath} → Keeps (stat p)
  Keeps-stat = record { keeps = λ st n l. Intact-refl st.fs n l }

  pub Keeps-look : {A : Type 0} (f : State o → A) → Keeps (look f)
  Keeps-look f = record { keeps = λ st n l. Intact-refl st.fs n l }

  -- A change of the flag alone.
  pub Keeps-flag : (b : Bool) → Keeps (λ st. (ok tt, record { fs = st.fs; can_mknod_whiteout = b }))
  Keeps-flag b = record { keeps = λ st n l. Intact-refl st.fs n l }

  feed-Keeps :
      {A B : Type 0} (fs : Fs) (r : Result Errno A × State o) (f : A → M o B)
      → Intact fs r.1.fs
      → ((a : A) → Keeps (f a))
      → Intact fs (feed r f).1.fs
  feed-Keeps fs (ok a, st) f h k = Intact-trans h ((k a).keeps st h.no_sharing h.no_links)
  feed-Keeps fs (err e, st) f h k = h

  pub Keeps-bind :
      {A B : Type 0} {m : M o A} {f : A → M o B}
      → Keeps m
      → ((a : A) → Keeps (f a))
      → Keeps (m >>= f)
  Keeps-bind {m} {f} h k = record { keeps = λ st n l. feed-Keeps st.fs (m st) f (h.keeps st n l) k }

  feed-Keeps-from :
      {A B : Type 0} (P : A → Type 0) (fs : Fs) (r : Result Errno A × State o) (f : A → M o B)
      → Intact fs r.1.fs
      → ((a : A) → r.0 ≡ ok a → P a)
      → ((a : A) → P a → Keeps (f a))
      → Intact fs (feed r f).1.fs
  feed-Keeps-from P fs (ok a, st) f h p k =
      Intact-trans h ((k a (p a refl)).keeps st h.no_sharing h.no_links)
  feed-Keeps-from P fs (err e, st) f h p k = h

  -- The second part may rely on what is known of the first one's value.
  pub Keeps-bind-from :
      {A B : Type 0} {m : M o A} {f : A → M o B} (P : A → Type 0)
      → Keeps m
      → ((st : State o) (a : A) → (m st).0 ≡ ok a → P a)
      → ((a : A) → P a → Keeps (f a))
      → Keeps (m >>= f)
  Keeps-bind-from {m} {f} P h p k = record {
    keeps = λ st n l. feed-Keeps-from P st.fs (m st) f (h.keeps st n l) (p st) k;
  }

  pub Keeps-then :
      {B : Type 0} {m : M o (Unit {0})} {k : M o B} → Keeps m → Keeps k → Keeps (m >> k)
  Keeps-then {m} {k} h l = Keeps-bind {m = m} {f = λ _. k} h (λ _. l)

  pub Keeps-if :
      {A : Type 0} (b : Bool) {m n : M o A} → Keeps m → Keeps n → Keeps (if b then m else n)
  Keeps-if true h k = h
  Keeps-if false h k = k

  abbrev InUpper : FilePath → Type 0
  InUpper p = (q : FilePath) × (p ≡ upper ++ q)

  -- A call that touches and names nothing but paths of the upper layer, follows links at guarded
  -- paths alone, makes none there, and brings to a guarded path only what was at one.
  pub record Spares (c : Syscall) : Type 0 where
    pub touched : (p : FilePath) → Touches c p → InUpper p
    pub named : (p : FilePath) → Names c p → InUpper p
    pub followed : (p : FilePath) → Follows c p → Guarded p
    pub unlinked : (p : FilePath) → MakesLink c p → ¬ (Guarded p)
    pub brought : (p q : FilePath) → Brings c p q → Guarded q → Guarded p

  untouched : (c : Syscall) → Apart o → Spares c → (r : FilePath) → ¬ (Touches c (lower ++ r))
  untouched c a h r t = let (q, e) = h.touched (lower ++ r) t in a q r (sym e)

  unaliased :
      (c : Syscall) (fs : Fs)
      → NoSharing o fs
      → Spares c
      → (r p : FilePath) → Touches c p
      → ¬ (Alias fs p (lower ++ r))
  unaliased c fs n h r p t l =
      let (q, e) = h.touched p t in n q r (subst (λ x. Alias fs x (lower ++ r)) e l)

  NoSharing-perform :
      (c : Syscall) (fs fs' : Fs)
      → Apart o
      → perform c fs ≡ ok fs'
      → Spares c
      → NoSharing o fs
      → NoSharing o fs'
  NoSharing-perform c fs fs' a e h n q r l =
      let (p, old, from) = alias-frame c fs fs' (upper ++ q) (lower ++ r) e (untouched c a h r) l in
      elim from [
        | inl same ↦ n q r (subst (λ x. Alias fs x (lower ++ r)) same old)
        | inr source ↦
            let (q', in_upper) = h.named p source in
            n q' r (subst (λ x. Alias fs x (lower ++ r)) in_upper old)
      ]

  settle-Keeps :
      (c : Syscall) (st : State o) (r : Result Errno Fs)
      → Apart o
      → perform c st.fs ≡ r
      → Spares c
      → NoSharing o st.fs
      → NoLinks o Guarded st.fs
      → Intact st.fs (settle st r).1.fs
  settle-Keeps c st (ok fs) a e h n l =
      let direct = λ (p : FilePath) (f : Follows c p). l p (h.followed p f) in
      record {
        same = record {
          same_stat = λ r.
              lstat-frame c st.fs fs (lower ++ r) e direct (untouched c a h r)
                (unaliased c st.fs n h r);
          same_contents = λ r.
              contents-frame c st.fs fs (lower ++ r) e direct (untouched c a h r)
                (unaliased c st.fs n h r);
        };
        no_sharing = NoSharing-perform c st.fs fs a e h n;
        no_links = λ p g k. elim (kind-frame c symbolic_link tt st.fs fs p e k) [
          | inl old ↦ l p g old
          | inr (inl made) ↦ h.unlinked p made g
          | inr (inr (q, old, moved)) ↦ l q (h.brought q p moved g) old
        ];
      }
  settle-Keeps c st (err x) a e h n l = Intact-refl st.fs n l

  pub Keeps-attempt : Apart o → (c : Syscall) → Spares c → Keeps (attempt c)
  unfolding attempt
  Keeps-attempt a c h = record {
    keeps = λ st n l. settle-Keeps c st (perform c st.fs) a refl h n l;
  }

  pub Keeps-of_result : {A : Type 0} (r : Result Errno A) → Keeps (of_result r)
  Keeps-of_result (ok a) = Keeps-pure
  Keeps-of_result {A} (err e) = Keeps-fail A

  pub Keeps-sys : Apart o → (c : Syscall) → Spares c → Keeps (sys c)
  unfolding sys
  Keeps-sys a c h = Keeps-bind (Keeps-attempt a c h) Keeps-of_result

  pub Keeps-read : {A : Type 0} (f : Fs → Result Errno A) → Keeps (read f)
  Keeps-read f = record { keeps = λ st n l. (Keeps-of_result (f st.fs)).keeps st n l }
