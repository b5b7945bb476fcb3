-- ===== src/Credentials.antt =====
-- The credentials of cred.cc and cred.h: reading the ids of a process, and changing them for a
-- time or for good.
pub mod System
pub mod Door
pub mod Effective
pub mod Database
pub mod Simple
mod Tests
use jaim.Prelude.{
  ℕ, zero, suc, ◌-◌, ◌==◌, ltb, Bool, not, if◌then◌else◌, List, [], Option, none, some, Result, ok,
  err, take, length, text_eq,
}
use jaim.Prelude.Stateful.{Act, ◌>>=◌, ◌>>◌, pure, throw}
use jaim.Credentials.System.{Process, Call, setgroups, setgid, setegid, setuid, seteuid, Kernel}

pub data Fault : Type 0 where
  not_root : ℕ → Fault
  unpopulated no_count unstable_groups : Fault
  too_many_groups : ℕ → ℕ → Fault
  failed : Call → ℕ → Fault

pub record Credentials : Type 0 where
  pub uid : ℕ
  pub gid : ℕ
  pub groups : List ℕ

-- `-1` as a 32-bit `uid_t`.
abbrev pub no_id : ℕ
no_id = 4294967295

-- `operator bool`.
unfoldable pub is_populated : Credentials → Bool
is_populated c = not (c.uid == no_id)

-- A turn of the loop of `getgroups`; none where the loop goes on.
unfoldable pub try_groups : Option ℕ → Option (ℕ × List ℕ) → Option (Result Fault (List ℕ))
try_groups none read = some (err no_count)
try_groups (some n) none = none
try_groups (some n) (some (m, buffer)) =
    if ltb n m then some (err (too_many_groups n m)) else some (ok (take m buffer))

module _ (k : Kernel) where
  abbrev pub turn_of : Process → ℕ → Option (Result Fault (List ℕ))
  turn_of p turn =
      try_groups (k.count_groups p turn)
        (elim (k.count_groups p turn) [ none ↦ none | some n ↦ k.read_groups p turn n ])

  -- The turns that are left, of four.
  unfoldable pub groups_loop : ℕ → Process → Result Fault (List ℕ)
  groups_loop zero p = err unstable_groups
  groups_loop (suc left) p = elim (turn_of p (4 - suc left)) [
    | none ↦ groups_loop left p
    | some r ↦ r
  ]

  unfoldable pub getgroups : Process → Result Fault (List ℕ)
  getgroups p = groups_loop 4 p

  abbrev pub current_groups : Act Process Fault (List ℕ)
  current_groups p = (getgroups p, p)

  abbrev pub settle : Call → Process → Result ℕ Process → Result Fault (Unit {0}) × Process
  settle c p (ok q) = (ok tt, q)
  settle c p (err e) = (err (failed c e), p)

  -- A call whose failure is thrown by `syserr`.
  unfoldable pub sys : Call → Act Process Fault (Unit {0})
  sys c p = settle c p (k.perform c p)

  abbrev pub unless : Bool → Act Process Fault (Unit {0}) → Act Process Fault (Unit {0})
  unless b m p = if b then (ok tt, p) else m p

  unfoldable pub make_effective : Credentials → Act Process Fault (Unit {0})
  make_effective c p =
      unless (not (p.euid == 0))
        (do
          now ← current_groups
          unless (text_eq c.groups now) (sys (setgroups c.groups))
          unless (c.gid == p.egid) (sys (setegid c.gid))
          sys (seteuid c.uid))
        p

  unfoldable pub make_real : Credentials → Act Process Fault (Unit {0})
  make_real c p =
      unless (not (p.euid == 0))
        (do
          now ← current_groups
          unless (text_eq c.groups now) (sys (setgroups c.groups))
          unless (c.gid == p.rgid) (sys (setgid c.gid))
          sys (setuid c.uid))
        p

  unfoldable pub enter_permanently : Credentials → Act Process Fault (Unit {0})
  enter_permanently c p =
      (do
        unless (p.euid == 0) (throw (not_root p.euid))
        unless (is_populated c) (throw unpopulated)
        sys (setgroups c.groups)
        sys (setgid c.gid)
        sys (setuid c.uid))
        p

  abbrev pub with_groups : ℕ → ℕ → Result Fault (List ℕ) → Result Fault Credentials
  with_groups u g (ok l) = ok (record { uid = u; gid = g; groups = l })
  with_groups u g (err e) = err e

  unfoldable pub get_effective : Process → Result Fault Credentials
  get_effective p = with_groups p.euid p.egid (getgroups p)

  unfoldable pub get_real : Process → Result Fault Credentials
  get_real p = with_groups p.ruid p.rgid (getgroups p)
