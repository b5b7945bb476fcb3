-- ===== src/Credentials/Door.antt =====
-- Leaving root for good by `enter_permanently` of cred.cc.
use jaim.Prelude.{
  ℕ, false, ◌≡◌, ◌≢◌, inl, inr, refl, sym, ◌∙◌, subst, arith, Result, ok, err, Bool-cases, ==_iff,
  ◌==◌,
}
use jaim.Prelude.Stateful.{Act, ◌>>◌, feed}
use jaim.Credentials.System.{Process, Call, setgroups, setgid, setuid, Kernel, IsOneOf, as_root}
use jaim.Credentials.{Fault, Credentials, no_id, is_populated, settle, sys, enter_permanently}

-- All the ids of a process are those of the credentials.
abbrev pub dropped : Credentials → Process
dropped c = record {
  ruid = c.uid;
  euid = c.uid;
  suid = c.uid;
  rgid = c.gid;
  egid = c.gid;
  sgid = c.gid;
  groups = c.groups;
}

module _ (k : Kernel) where
  -- What a call of root leaves.
  abbrev pub IsRun : Call → Process → Result Fault (Unit {0}) × Process → Type 0
  IsRun c p (ok u, q) = q ≡ as_root c p
  IsRun c p (err e, q) = q ≡ p

  IsRun-settle :
      (c : Call) (p : Process) (r : Result ℕ Process)
      → ((q : Process) → r ≡ ok q → q ≡ as_root c p)
      → IsRun c p (settle k c p r)
  IsRun-settle c p (ok q) h = h q refl
  IsRun-settle c p (err e) h = refl

  pub IsRun-sys : (c : Call) (p : Process) → p.euid ≡ 0 → IsRun c p (sys k c p)
  unfolding sys
  IsRun-sys c p root = IsRun-settle c p (k.perform c p) (λ q e. k.perform_root c p q root e)

  abbrev SameUser : Process → Process → Type 0
  SameUser p q = (q.ruid ≡ p.ruid) × (q.euid ≡ p.euid) × (q.suid ≡ p.suid)

  -- How `enter_permanently` ends.
  abbrev pub IsEntered : Credentials → Process → Result Fault (Unit {0}) × Process → Type 0
  IsEntered c p (ok u, q) = (p.euid ≡ 0) × (c.uid ≢ no_id) × (q ≡ dropped c)
  IsEntered c p (err e, q) = SameUser p q

  stage :
      (c : Credentials) (p p0 : Process) (call : Call) (r : Result Fault (Unit {0}) × Process)
      (next : Act Process Fault (Unit {0}))
      → IsRun call p0 r
      → SameUser p p0
      → IsEntered c p (next (as_root call p0))
      → IsEntered c p (feed r (λ u. next))
  stage c p p0 call (ok u, q) next run same h = subst (λ s. IsEntered c p (next s)) (sym run) h
  stage c p p0 call (err e, q) next run same h = subst (SameUser p) (sym run) same

  last :
      (c : Credentials) (p p0 : Process) (r : Result Fault (Unit {0}) × Process)
      → p.euid ≡ 0
      → c.uid ≢ no_id
      → as_root (setuid c.uid) p0 ≡ dropped c
      → IsRun (setuid c.uid) p0 r
      → SameUser p p0
      → IsEntered c p r
  last c p p0 (ok u, q) root some e run same = (root, some, run ∙ e)
  last c p p0 (err f, q) root some e run same = subst (SameUser p) (sym run) same

  calls-IsEntered :
      (c : Credentials) (p : Process)
      → p.euid ≡ 0
      → c.uid ≢ no_id
      → IsEntered c p
          ((sys k (setgroups c.groups) >> (sys k (setgid c.gid) >> sys k (setuid c.uid))) p)
  calls-IsEntered c p root set =
      let regrouped = as_root (setgroups c.groups) p in
      let regidded = as_root (setgid c.gid) regrouped in
      let same : SameUser p p = (refl, refl, refl) in
      stage c p p (setgroups c.groups) _ (sys k (setgid c.gid) >> sys k (setuid c.uid))
        (IsRun-sys _ p root) same
        (stage c p regrouped (setgid c.gid) _ (sys k (setuid c.uid)) (IsRun-sys _ regrouped root)
          same (last c p regidded _ root set refl (IsRun-sys _ regidded root) same))

  set-differs : (c : Credentials) → (c.uid == no_id) ≡ false → c.uid ≢ no_id
  set-differs c h = ground arith

  -- When `enter_permanently` returns, it was called by root with populated credentials and all the
  -- user and group ids of the process are theirs; when it throws, at whatever call, the user ids
  -- are the ones that the process had.
  pub enter_permanently-IsEntered :
      (c : Credentials) (p : Process) → IsEntered c p (enter_permanently k c p)
  unfolding enter_permanently is_populated
  enter_permanently-IsEntered c p = elim (Bool-cases (p.euid == 0)) [
    | inr other ↦ rw other (refl, refl, refl)
    | inl root ↦ elim (Bool-cases (c.uid == no_id)) [
      | inl unset ↦ rw (root, unset) (refl, refl, refl)
      | inr set ↦
          rw (root, set) (calls-IsEntered c p ((==_iff p.euid 0).0 root) (set-differs c set))
    ]
  ]

  -- Any of the calls, with any arguments, made by any code.
  pub data Step : Process → Process → Type 0 where
    make : {p q : Process} (c : Call) → k.perform c p ≡ ok q → Step p q

  pub data Reach (p : Process) : Process → Type 0 where
    here : Reach p p
    next : {q r : Process} → Reach p q → Step q r → Reach p r

  abbrev pub IsUser : ℕ → Process → Type 0
  IsUser u p = (p.ruid ≡ u) × (p.euid ≡ u) × (p.suid ≡ u)

  IsUser-IsOneOf : (u n : ℕ) (p : Process) → IsUser u p → IsOneOf n p → n ≡ u
  IsUser-IsOneOf u n p h one = ground arith

  Step-IsUser : (u : ℕ) {p q : Process} → u ≢ 0 → Step p q → IsUser u p → IsUser u q
  Step-IsUser u {p} {q} some (make c e) h =
      let new = k.perform_other c p q (λ z. some (sym h.1 ∙ z)) e in
      (IsUser-IsOneOf u _ p h new.0, IsUser-IsOneOf u _ p h new.1, IsUser-IsOneOf u _ p h new.2)

  Reach-IsUser : (u : ℕ) {p q : Process} → u ≢ 0 → IsUser u p → Reach p q → IsUser u q
  Reach-IsUser u some h here = h
  Reach-IsUser u some h (next r st) = Step-IsUser u some st (Reach-IsUser u some h r)

  -- After `enter_permanently` has returned for a user other than root, whatever calls that change
  -- the ids follow, the real, the effective and the saved user id stay that user's: root cannot be
  -- regained.
  pub enter_permanently-Reach :
      (c : Credentials) (p q r : Process)
      → c.uid ≢ 0
      → enter_permanently k c p ≡ (ok tt, q)
      → Reach q r
      → IsUser c.uid r
  enter_permanently-Reach c p q r some e reach =
      let entered = subst (IsEntered c p) e (enter_permanently-IsEntered c p) in
      Reach-IsUser c.uid some (subst (IsUser c.uid) (sym entered.2) (refl, refl, refl)) reach
