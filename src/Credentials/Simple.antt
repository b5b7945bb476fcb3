-- ===== src/Credentials/Simple.antt =====
-- A kernel that never refuses root, on which runs are made.
use jaim.Prelude.{
  ℕ, List, [], ◌∷◌, ◌≡◌, ◌≢◌, ◌≤◌, refl, arith, Result, ok, err, Option, some, if◌then◌else◌, ◌==◌,
  ==_iff, take, length,
}
use jaim.Credentials.System.{Process, Call, Kernel, IsOneOf, as_root}
use jaim.Credentials.{Credentials}

abbrev pub permit : Call → Process → Result ℕ Process
permit c p = if p.euid == 0 then ok (as_root c p) else err 1

pub permit_root : (c : Call) (p q : Process) → p.euid ≡ 0 → permit c p ≡ ok q → q ≡ as_root c p
permit_root c p q root e = ground (arith, (==_iff p.euid 0).1 root)

pub permit_other :
    (c : Call) (p q : Process)
    → p.euid ≢ 0
    → permit c p ≡ ok q
    → IsOneOf q.ruid p × IsOneOf q.euid p × IsOneOf q.suid p
permit_other c p q other e = ground arith

take_all : (l : List ℕ) → take (length l) l ≡ l
take_all [] = refl
take_all (x ∷ l) = cc (take_all l)

pub all_lem :
    (p : Process) (turn size n : ℕ) (buffer : List ℕ)
    → ◌≡◌ {A = Option (ℕ × List ℕ)} (some (length p.groups, p.groups)) (some (n, buffer))
    → n ≤ size
    → take n buffer ≡ p.groups
all_lem p turn size n buffer e small = ground (arith, take_all p.groups)

abbrev pub simple : Kernel
simple = record {
  perform = permit;
  count_groups = λ p turn. some (length p.groups);
  read_groups = λ p turn size. some (length p.groups, p.groups);
  perform_root = permit_root;
  perform_other = permit_other;
  read_groups_lem = all_lem;
}

abbrev pub root_process : Process
root_process = record {
  ruid = 501;
  euid = 0;
  suid = 0;
  rgid = 20;
  egid = 20;
  sgid = 20;
  groups = 20 ∷ 12 ∷ [];
}

abbrev pub sandbox_user : Credentials
sandbox_user = record { uid = 300; gid = 301; groups = 301 ∷ [] }
