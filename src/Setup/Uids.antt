-- ===== src/Setup/Uids.antt =====
-- The free ids that `setup_jaim_user` of setup_user.cc needs, and that they stay free.
use jaim.Prelude.{
  false, ◌≤◌, ◌<◌, ◌∙◌, subst, Option-cases, Text, ℕ, ◌≡◌, refl, Bool, inl, inr, some, Result, ok,
  err,
}
use jaim.Prelude.Stateful.{◌>>◌, feed}
use jaim.Setup.System.{group_record, Command, record_of, delete, create, put, Directory}
use jaim.Setup.Ids.{IsLeast, find_unused-IsLeast}
use jaim.Setup.{Dscl, Fault, dscl, or_else, recover, quietly, find_unused, set_group, make_group}

-- A command on the group changes no user's id.
abbrev pub KeepsUids : Directory → Type 0
KeepsUids d =
    (c : Command) (db : d.Db) (u : ℕ)
    → record_of c ≡ group_record
    → d.uid_used (d.run c db).1 u ≡ d.uid_used db u

-- An id from 300 to 499 is free.
abbrev pub IsFree : (ℕ → Bool) → Type 0
IsFree used = (u : ℕ) × (300 ≤ u) × (u < 500) × (used u ≡ false)

-- The search finds an id where one is free.
pub find_unused-IsFree : (used : ℕ → Bool) → IsFree used → (u : ℕ) × (find_unused used ≡ some u)
find_unused-IsFree used (u, low, high, free) = elim (Option-cases (find_unused used)) [
  | inl e ↦
      let taken = subst (IsLeast used 300 500) e (find_unused-IsLeast used) u low high in absurd cc
  | inr found ↦ found
]

module _ (d : Directory) (keeps : KeepsUids d) where
  SameUids : Dscl d (Unit {0}) → Type 0
  SameUids m = (db : d.Db) (u : ℕ) → d.uid_used (m db).1 u ≡ d.uid_used db u

  SameUids-create : SameUids (dscl d (create group_record) group_record)
  unfolding SameUids dscl
  SameUids-create db u = keeps (create group_record) db u refl

  SameUids-put : (key value : Text) → SameUids (dscl d (put group_record key value) group_record)
  unfolding SameUids dscl
  SameUids-put key value db u = keeps (put group_record key value) db u refl

  SameUids-delete : SameUids (dscl d (delete group_record) group_record)
  unfolding SameUids dscl
  SameUids-delete db u = keeps (delete group_record) db u refl

  SameUids-feed :
      (db : d.Db) (r : Result Fault (Unit {0}) × d.Db) (n : Dscl d (Unit {0})) (u : ℕ)
      → d.uid_used r.1 u ≡ d.uid_used db u
      → SameUids n
      → d.uid_used (feed r (λ x. n)).1 u ≡ d.uid_used db u
  unfolding SameUids
  SameUids-feed db (ok x, s) n u h k = k s u ∙ h
  SameUids-feed db (err f, s) n u h k = h

  SameUids-then : (m n : Dscl d (Unit {0})) → SameUids m → SameUids n → SameUids (m >> n)
  unfolding SameUids
  SameUids-then m n h k db u = SameUids-feed db (m db) n u (h db u) k

  SameUids-recover :
      (db : d.Db) (cleanup : Dscl d (Unit {0})) (r : Result Fault (Unit {0}) × d.Db) (u : ℕ)
      → SameUids cleanup
      → d.uid_used r.1 u ≡ d.uid_used db u
      → d.uid_used (recover d cleanup r).1 u ≡ d.uid_used db u
  unfolding SameUids
  SameUids-recover db cleanup (ok x, s) u k h = h
  SameUids-recover db cleanup (err f, s) u k h = k s u ∙ h

  SameUids-or_else :
      (m cleanup : Dscl d (Unit {0}))
      → SameUids m
      → SameUids cleanup
      → SameUids (or_else d m cleanup)
  unfolding SameUids or_else
  SameUids-or_else m cleanup h k db u = SameUids-recover db cleanup (m db) u k (h db u)

  SameUids-quietly : (m : Dscl d (Unit {0})) → SameUids m → SameUids (quietly d m)
  unfolding SameUids quietly
  SameUids-quietly m h db u = h db u

  make_group-SameUids : (gid : ℕ) → SameUids (make_group d gid)
  unfolding make_group set_group
  make_group-SameUids gid =
      search
        (
          SameUids-create, SameUids-put, SameUids-delete, SameUids-then, SameUids-or_else,
          SameUids-quietly,
        )
        depth 12

  pub make_group-IsFree :
      (gid : ℕ) (db : d.Db) → IsFree (d.uid_used db) → IsFree (d.uid_used (make_group d gid db).1)
  unfolding SameUids
  make_group-IsFree gid db (u, low, high, free) =
      (u, low, high, make_group-SameUids gid db u ∙ free)
