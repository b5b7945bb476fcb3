-- ===== src/Credentials/Effective.antt =====
-- What `getgroups` returns, and the credentials that `make_effective` and `make_real` of cred.cc
-- leave in place.
use jaim.Prelude.{
  ℕ, zero, suc, Bool, true, false, List, ◌≡◌, inl, inr, refl, sym, ap, ◌∙◌, subst, arith, Result,
  ok, err, Option, none, some, Option-cases, ==_iff, ◌==◌, ◌-◌, text_eq, text_eq_iff,
}
use jaim.Prelude.Stateful.{Act, ◌>>=◌, ◌>>◌, feed-cases}
use jaim.Credentials.System.{
  Process, Call, setgroups, setgid, setegid, setuid, seteuid, Kernel, as_root,
}
use jaim.Credentials.{
  Fault, Credentials, sys, unless, current_groups, try_groups, groups_loop, getgroups, turn_of,
  make_effective, make_real, get_effective, get_real, with_groups,
}
use jaim.Credentials.Door.{IsRun, IsRun-sys, IsUser}

module _ (k : Kernel) where
  try_groups_lem :
      (p : Process) (turn n : ℕ) (read : Option (ℕ × List ℕ)) (l : List ℕ)
      → k.read_groups p turn n ≡ read
      → try_groups (some n) read ≡ some (ok l)
      → l ≡ p.groups
  unfolding try_groups
  try_groups_lem p turn n none l e h = ground arith
  try_groups_lem p turn n (some (m, buffer)) l e h =
      ground (arith, k.read_groups_lem p turn n m buffer)

  turn_of_lem :
      (p : Process) (turn : ℕ) (count : Option ℕ) (l : List ℕ)
      → try_groups count (elim count [ none ↦ none | some n ↦ k.read_groups p turn n ])
        ≡ some (ok l)
      → l ≡ p.groups
  turn_of_lem p turn none l h = unfold try_groups in ground arith
  turn_of_lem p turn (some n) l h = try_groups_lem p turn n (k.read_groups p turn n) l refl h

  groups_loop_lem :
      (left : ℕ) (p : Process) (l : List ℕ) → groups_loop k left p ≡ ok l → l ≡ p.groups
  unfolding groups_loop
  groups_loop_lem zero p l h = ground arith
  groups_loop_lem (suc left) p l h = elim (Option-cases (turn_of k p (4 - suc left))) [
    | inl again ↦ groups_loop_lem left p l (rw (again, groups_loop) at h)
    | inr (r, e) ↦
        turn_of_lem p (4 - suc left) (k.count_groups p (4 - suc left)) l
          (e ∙ ap some (rw (e, groups_loop) at h))
  ]

  -- The list that `getgroups` returns is the groups of the process, whatever its loop met before.
  pub getgroups_lem : (p : Process) (l : List ℕ) → getgroups k p ≡ ok l → l ≡ p.groups
  unfolding getgroups
  getgroups_lem p l h = groups_loop_lem 4 p l h

  IsRun-ok : (c : Call) (p q : Process) → p.euid ≡ 0 → sys k c p ≡ (ok tt, q) → q ≡ as_root c p
  IsRun-ok c p q root e = subst (IsRun k c p) e (IsRun-sys k c p root)

  -- A call that is left out where it would change nothing.
  unless_lem :
      (b : Bool) (c : Call) (p q : Process)
      → p.euid ≡ 0
      → (b ≡ true → p ≡ as_root c p)
      → unless k b (sys k c) p ≡ (ok tt, q)
      → q ≡ as_root c p
  unless_lem true c p q root same e = sym (ap (λ r. r.1) e) ∙ same refl
  unless_lem false c p q root same e = IsRun-ok c p q root e

  same_groups : (l : List ℕ) (p : Process) → l ≡ p.groups → p ≡ as_root (setgroups l) p
  same_groups l p e = ap (λ g. as_root (setgroups g) p) (sym e)

  same_egid : (g : ℕ) (p : Process) → g ≡ p.egid → p ≡ as_root (setegid g) p
  same_egid g p e = ap (λ g. as_root (setegid g) p) (sym e)

  regrouped :
      (c : Credentials) (now : List ℕ) (p q : Process)
      → p.euid ≡ 0
      → getgroups k p ≡ ok now
      → unless k (text_eq c.groups now) (sys k (setgroups c.groups)) p ≡ (ok tt, q)
      → q ≡ as_root (setgroups c.groups) p
  regrouped c now p q root read e =
      unless_lem (text_eq c.groups now) (setgroups c.groups) p q root
        (λ same.
          same_groups c.groups p ((text_eq_iff c.groups now).0 same ∙ getgroups_lem p now read))
        e

  -- A part that returns in a state that is known, and then another one.
  after :
      (m n : Act Process Fault (Unit {0})) (p s q : Process)
      → ((r : Process) → m p ≡ (ok tt, r) → r ≡ s)
      → (m >> n) p ≡ (ok tt, q)
      → n s ≡ (ok tt, q)
  after m n p s q h e =
      let (u, r, first, later) = feed-cases (m p) (λ u. n) tt q e in
      subst (λ t. n t ≡ (ok tt, q)) (h r first) later

  with_current :
      (f : List ℕ → Act Process Fault (Unit {0})) (p q : Process)
      → (current_groups k >>= f) p ≡ (ok tt, q)
      → (now : List ℕ) × (getgroups k p ≡ ok now) × (f now p ≡ (ok tt, q))
  with_current f p q e =
      let (now, t, read, later) = feed-cases (getgroups k p, p) f tt q e in
      (now, ap (λ r. r.0) read, subst (λ s. f now s ≡ (ok tt, q)) (sym (ap (λ r. r.1) read)) later)

  module _ (c : Credentials) (p q : Process) (root : p.euid ≡ 0) where
    abbrev in_groups : Process
    in_groups = as_root (setgroups c.groups) p

    group_part : List ℕ → Act Process Fault (Unit {0})
    group_part now = unless k (text_eq c.groups now) (sys k (setgroups c.groups))

    calls :
        (gid_part : Act Process Fault (Unit {0})) (last : Call) (mid : Process) (now : List ℕ)
        → ((r : Process) → gid_part in_groups ≡ (ok tt, r) → r ≡ mid)
        → mid.euid ≡ 0
        → getgroups k p ≡ ok now
        → (group_part now >> (gid_part >> sys k last)) p ≡ (ok tt, q)
        → q ≡ as_root last mid
    unfolding group_part
    calls gid_part last mid now to_mid same_root read e = IsRun-ok last mid q same_root (
        after gid_part (sys k last) in_groups mid q to_mid (
          after (group_part now) (gid_part >> sys k last) p in_groups q
            (λ r. regrouped c now p r root read) e))

    make_effective_lem :
        make_effective k c p ≡ (ok tt, q)
        → q ≡ record p { euid = c.uid; egid = c.gid; groups = c.groups }
    unfolding make_effective group_part
    make_effective_lem e =
        let (now, read, later) = with_current _ p q (rw ((==_iff p.euid 0).1 root) at e) in
        calls (unless k (c.gid == p.egid) (sys k (setegid c.gid))) (seteuid c.uid)
          (as_root (setegid c.gid) in_groups) now
          (λ r.
            unless_lem (c.gid == p.egid) (setegid c.gid) in_groups r root
              (λ same. same_egid c.gid in_groups ((==_iff c.gid p.egid).0 same)))
          root read later

    abbrev IsReal : Process → Type 0
    IsReal r = IsUser k c.uid r × (r.rgid ≡ c.gid) × (r.groups ≡ c.groups)

    IsReal-calls :
        (b : Bool) (now : List ℕ)
        → (c.gid == p.rgid) ≡ b
        → getgroups k p ≡ ok now
        → (group_part now >> (unless k b (sys k (setgid c.gid)) >> sys k (setuid c.uid))) p
          ≡ (ok tt, q)
        → IsReal q
    IsReal-calls true now same read later =
        let e =
          calls (unless k true (sys k (setgid c.gid))) (setuid c.uid) in_groups now
            (λ r h. sym (ap (λ r. r.1) h)) root read later in
        subst IsReal (sym e) ((refl, refl, refl), sym ((==_iff c.gid p.rgid).0 same), refl)
    IsReal-calls false now same read later =
        let e =
          calls (unless k false (sys k (setgid c.gid))) (setuid c.uid)
            (as_root (setgid c.gid) in_groups) now (λ r. IsRun-ok (setgid c.gid) in_groups r root)
            root read later in
        subst IsReal (sym e) ((refl, refl, refl), refl, refl)

    make_real_lem : make_real k c p ≡ (ok tt, q) → IsReal q
    unfolding make_real group_part
    make_real_lem e =
        let (now, read, later) = with_current _ p q (rw ((==_iff p.euid 0).1 root) at e) in
        IsReal-calls (c.gid == p.rgid) now refl read later

  with_groups_lem :
      (u g : ℕ) (r : Result Fault (List ℕ)) (d : Credentials)
      → with_groups k u g r ≡ ok d
      → (l : List ℕ) × (r ≡ ok l) × (d ≡ record { uid = u; gid = g; groups = l })
  with_groups_lem u g (ok l) d h = (l, refl, cc)
  with_groups_lem u g (err e) d h = cc

  -- When root's `make_effective` returns, `get_effective` can give nothing but those credentials,
  -- and the real and saved ids are the ones from before, so that the way back stays open.
  pub make_effective-get_effective :
      (c d : Credentials) (p q : Process)
      → p.euid ≡ 0
      → make_effective k c p ≡ (ok tt, q)
      → get_effective k q ≡ ok d
      → (d ≡ c) × (q.ruid ≡ p.ruid) × (q.suid ≡ p.suid) × (q.rgid ≡ p.rgid) × (q.sgid ≡ p.sgid)
  unfolding get_effective
  make_effective-get_effective c d p q root made read =
      let new = make_effective_lem c p q root made in
      let (l, got, e) = with_groups_lem q.euid q.egid (getgroups k q) d read in
      let same = getgroups_lem q l got in (e ∙ cc (new, same), cc, cc, cc, cc)

  -- When root's `make_real` returns, `get_real` can give nothing but those credentials, and the
  -- real, the effective and the saved user id are all theirs.
  pub make_real-get_real :
      (c d : Credentials) (p q : Process)
      → p.euid ≡ 0
      → make_real k c p ≡ (ok tt, q)
      → get_real k q ≡ ok d
      → (d ≡ c) × IsUser k c.uid q
  unfolding get_real
  make_real-get_real c d p q root made read =
      let new = make_real_lem c p q root made in
      let (l, got, e) = with_groups_lem q.ruid q.rgid (getgroups k q) d read in
      let same = getgroups_lem q l got in (e ∙ cc (new.0.0, new.1, new.2, same), new.0)
