-- ===== src/Fs/Ensure.antt =====
-- `ensure_file` of fs.cc, which writes a file that does not exist under another name and then
-- renames it.
pub mod Whole
pub mod Simple
mod Tests
use jaim.Prelude.{
  ℕ, zero, suc, ◌+◌, ◌<◌, ◌≤◌, Bool, true, false, List, [], ◌∷◌, ◌++◌, length, take, drop, Option,
  none, some, Result, ok, err, ◌≡◌, ◌≢◌, ◌⊎◌, Text, codes, to_string,
}
use jaim.Prelude.Stateful.{Act, ◌>>=◌, ◌>>◌, pure, throw}
use jaim.Fs.Paths.{cat}

-- `openat(O_RDONLY)` and `fstat`.
pub data Opened : Type 0 where
  regular other_kind absent : Opened
  failed : ℕ → Opened

-- The files of a directory, the calls that `ensure_file` makes in it, and what is documented of
-- them. `unlink` is one of which the result is ignored, so that it may do nothing.
pub record FileDirectory : Type 1 where
  pub Files : Type 0
  pub content : Files → Text → Option Text
  pub open_read : Files → Text → Opened
  pub unlink : Text → Files → Files
  pub create_excl : Text → ℕ → Files → Result ℕ Files
  pub write : Text → Text → Files → Result ℕ (ℕ × Files)
  pub fsync : Text → Files → Option ℕ
  pub rename : Text → Text → Files → Result ℕ Files
  pub unlink-other : (p q : Text) (fs : Files) → q ≢ p → content (unlink p fs) q ≡ content fs q
  pub create-content :
      (p : Text) (mode : ℕ) (fs after : Files)
      → create_excl p mode fs ≡ ok after
      → (content after p ≡ some []) × ((q : Text) → q ≢ p → content after q ≡ content fs q)
  -- A write appends a part of the text that is not empty.
  pub write-content :
      (p s w : Text) (n : ℕ) (fs after : Files)
      → write p s fs ≡ ok (n, after)
      → content fs p ≡ some w
      → s ≢ []
      → (0 < n)
        × (n ≤ length s)
        × (content after p ≡ some (w ++ take n s))
        × ((q : Text) → q ≢ p → content after q ≡ content fs q)
  pub rename-content :
      (p q : Text) (fs after : Files) → rename p q fs ≡ ok after → content after q ≡ content fs p

pub data Fault : Type 0 where
  not_regular : Text → Fault
  open_failed write_failed fsync_failed create_failed rename_failed : ℕ → Fault
  callback_failed : Fault
  -- Not an outcome of the code, whose loop has no fuel.
  out_of_fuel : Fault

module _ (d : FileDirectory) where
  abbrev pub FileAct : Type 0 → Type 0
  FileAct A = Act d.Files Fault A

  abbrev pub lift : (ℕ → Fault) → d.Files → Result ℕ d.Files → Result Fault (Unit {0}) × d.Files
  lift fault fs (ok after) = (ok tt, after)
  lift fault fs (err e) = (err (fault e), fs)

  -- A turn of the loop around `write`; `rest` is what is done with the text that is left.
  abbrev pub written :
      (Text → FileAct (Unit {0}))
      → Text
      → d.Files
      → Result ℕ (ℕ × d.Files)
      → Result Fault (Unit {0}) × d.Files
  written rest s fs (err e) = (err (write_failed e), fs)
  written rest s fs (ok (n, after)) = rest (drop n s) after

  unfoldable pub write_loop : ℕ → Text → Text → FileAct (Unit {0})
  write_loop zero tmp s fs = (err out_of_fuel, fs)
  write_loop (suc fuel) tmp [] fs = (ok tt, fs)
  write_loop (suc fuel) tmp (c ∷ s) fs =
      written (write_loop fuel tmp) (c ∷ s) fs (d.write tmp (c ∷ s) fs)

  abbrev pub synced : Option ℕ → FileAct (Unit {0})
  synced none = pure tt
  synced (some e) = throw (fsync_failed e)

  -- From the creation of the temporary file to the renaming.
  unfoldable pub fill : Text → Text → Text → ℕ → FileAct (Unit {0})
  fill tmp file contents mode = do
    λ fs. lift create_failed fs (d.create_excl tmp mode fs)
    write_loop (suc (length contents)) tmp contents
    λ fs. synced (d.fsync tmp fs) fs
    λ fs. lift rename_failed fs (d.rename tmp file fs)

  -- `Defer cleanup`, which is released behind the renaming.
  abbrev pub or_clean_up :
      Text → Result Fault (Unit {0}) × d.Files → Result Fault (Unit {0}) × d.Files
  or_clean_up tmp (ok u, fs) = (ok u, fs)
  or_clean_up tmp (err e, fs) = (err e, d.unlink tmp fs)

  abbrev pub reopened : Opened → FileAct (Unit {0})
  reopened (failed e) = throw (open_failed e)
  reopened absent = throw (open_failed 2)
  reopened regular = pure tt
  reopened other_kind = pure tt

  -- The callback for a new file, which does not change its directory here.
  abbrev pub called : Bool → FileAct (Unit {0})
  called true = pure tt
  called false = throw callback_failed

  unfoldable pub make_file : Bool → Text → Text → Text → ℕ → FileAct (Unit {0})
  make_file callback tmp file contents mode = do
    λ fs. or_clean_up tmp (fill tmp file contents mode (d.unlink tmp fs))
    λ fs. reopened (d.open_read fs file) fs
    called callback

  abbrev pub by_opened : Opened → Text → FileAct (Unit {0}) → FileAct (Unit {0})
  by_opened regular file make = pure tt
  by_opened other_kind file make = throw (not_regular file)
  by_opened (failed e) file make = throw (open_failed e)
  by_opened absent file make = make

  abbrev pub temp_name : ℕ → Text → Text
  temp_name pid file = cat file (codes "~" ++ (to_string pid ++ codes "~"))

  unfoldable pub ensure_file : ℕ → Bool → Text → Text → ℕ → FileAct (Unit {0})
  ensure_file pid callback file contents mode fs =
      by_opened (d.open_read fs file) file
        (make_file callback (temp_name pid file) file contents mode) fs
