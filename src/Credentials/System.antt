-- ===== src/Credentials/System.antt =====
-- What cred.cc uses of the operating system: the user and group ids of a process, the calls that
-- change them, and what macOS documents of these.
use jaim.Prelude.{ℕ, List, ◌≡◌, ◌≢◌, ◌⊎◌, ◌≤◌, Option, some, Result, ok, take}

-- The real, effective and saved user id, the same of the group, and the supplementary groups.
pub record Process : Type 0 where
  pub ruid : ℕ
  pub euid : ℕ
  pub suid : ℕ
  pub rgid : ℕ
  pub egid : ℕ
  pub sgid : ℕ
  pub groups : List ℕ

pub data Call : Type 0 where
  setgroups : List ℕ → Call
  setgid setegid setuid seteuid : ℕ → Call

abbrev pub IsOneOf : ℕ → Process → Type 0
IsOneOf n p = (n ≡ p.ruid) ⊎ (n ≡ p.euid) ⊎ (n ≡ p.suid)

-- What a call that succeeds makes of a process whose effective user is root.
abbrev pub as_root : Call → Process → Process
as_root (setgroups l) p = record p { groups = l }
as_root (setgid g) p = record p { rgid = g; egid = g; sgid = g }
as_root (setegid g) p = record p { egid = g }
as_root (setuid u) p = record p { ruid = u; euid = u; suid = u }
as_root (seteuid u) p = record p { euid = u }

pub record Kernel : Type 1 where
  pub perform : Call → Process → Result ℕ Process
  -- `getgroups(0, NULL)` and `getgroups(size, buffer)` at a loop's turn: the second gives the
  -- number that it returns and what the buffer then holds.
  pub count_groups : Process → ℕ → Option ℕ
  pub read_groups : Process → ℕ → ℕ → Option (ℕ × List ℕ)
  pub perform_root : (c : Call) (p q : Process) → p.euid ≡ 0 → perform c p ≡ ok q → q ≡ as_root c p
  -- Without root, each user id can become only one that the process has.
  pub perform_other :
      (c : Call) (p q : Process)
      → p.euid ≢ 0
      → perform c p ≡ ok q
      → IsOneOf q.ruid p × IsOneOf q.euid p × IsOneOf q.suid p
  pub read_groups_lem :
      (p : Process) (turn size n : ℕ) (buffer : List ℕ)
      → read_groups p turn size ≡ some (n, buffer)
      → n ≤ size
      → take n buffer ≡ p.groups
