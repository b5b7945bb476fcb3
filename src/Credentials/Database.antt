-- ===== src/Credentials/Database.antt =====
-- `DbEnt::find` of cred.h, which looks a user or a group up with a buffer that grows, and
-- `get_user` of cred.cc.
pub mod Grow
use jaim.Prelude.{ℕ, zero, suc, ◌-◌, ◌*◌, List, [], ◌∷◌, Option, none, some, Result, ok, err, Text}
use jaim.Credentials.{Credentials}

-- What `getpwnam_r` and its like say with a buffer of a given size: an entry, no entry (0 with a
-- null pointer, or ENOENT), ERANGE, or another error number.
pub data Answer (E : Type 0) : Type 0 where
  entry : E → Answer E
  absent too_small : Answer E
  failed : ℕ → Answer E

-- How the look-up ends; `still_growing` is not an outcome of the code, which has no fuel.
pub data Found (E : Type 0) : Type 0 where
  found : E → ℕ → Found E
  missing : Found E
  thrown : ℕ → Found E
  still_growing : Found E

module _ {E : Type 0} where
  -- What the loop does with an answer: `rest` is its next turns.
  abbrev pub end_of : Answer E → ℕ → Found E → Found E
  end_of (entry e) size rest = found e size
  end_of absent size rest = missing
  end_of too_small size rest = rest
  end_of (failed r) size rest = thrown r

  -- The loop, with the size of the buffer; an entry is given with the size of its buffer.
  unfoldable pub find_loop : (ℕ → Answer E) → ℕ → ℕ → Found E
  find_loop fn zero size = still_growing
  find_loop fn (suc fuel) size = end_of (fn size) size (find_loop fn fuel (2 * size))

  -- The buffer of a fresh entry has no capacity, so that it begins with 128 bytes.
  unfoldable pub find_entry : (ℕ → Answer E) → ℕ → Found E
  find_entry fn fuel = find_loop fn fuel 128

pub record Passwd : Type 0 where
  pub name : Text
  pub uid : ℕ
  pub gid : ℕ

-- `vector::resize`.
unfoldable pub resize : ℕ → List ℕ → List ℕ
resize zero l = []
resize (suc n) [] = 0 ∷ resize n []
resize (suc n) (x ∷ l) = x ∷ resize n l

-- `getgrouplist` without a buffer gives the size that it wants, or none where it does not return
-- -1; with a buffer it gives the number of groups and what the buffer then holds.
unfoldable pub get_user :
    (Text → ℕ → Option ℕ) → (Text → ℕ → ℕ → Option (ℕ × List ℕ)) → Passwd → Result Text Credentials
get_user wanted getgrouplist pw = elim (wanted pw.name pw.gid) [
  | none ↦ ok (record { uid = pw.uid; gid = pw.gid; groups = [] })
  | some n ↦ elim (getgrouplist pw.name pw.gid n) [
    | none ↦ err pw.name
    | some (m, groups) ↦ ok (record { uid = pw.uid; gid = pw.gid; groups = resize m groups })
  ]
]
