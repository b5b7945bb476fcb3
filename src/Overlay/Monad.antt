-- ===== src/Overlay/Monad.antt =====
-- The operations of the overlay as state passing: they return a value or an error number, and the
-- file system and the flag `can_mknod_whiteout` that they leave behind, also where they fail.
pub mod Keeps
pub mod Spares
pub mod Steady
pub mod Runs
pub mod Harmless
use jaim.Prelude.{Bool, Result, ok, err, Option}
use jaim.Overlay.Posix.{FilePath, Stat, Errno, Syscall, Posix}
use jaim.Overlay.Resolve.{Overlay}

pub record State (o : Overlay) : Type 0 where
  pub fs : o.os.Fs
  pub can_mknod_whiteout : Bool

abbrev pub M : Overlay → Type 0 → Type 0
M o A = State o → Result Errno A × State o

module _ {o : Overlay} where
  abbrev pub feed :
      {A B : Type 0} → Result Errno A × State o → (A → M o B) → Result Errno B × State o
  feed (ok a, st) f = f a st
  feed (err e, st) f = (err e, st)

  infixl 5 ◌>>=◌ ◌>>◌
  abbrev pub ◌>>=◌ : {A B : Type 0} → M o A → (A → M o B) → M o B
  ◌>>=◌ m f st = feed (m st) f

  abbrev pub ◌>>◌ : {B : Type 0} → M o (Unit {0}) → M o B → M o B
  m >> k = m >>= λ _. k

  abbrev pub pure : {A : Type 0} → A → M o A
  pure a st = (ok a, st)

  abbrev pub fail : {A : Type 0} → Errno → M o A
  fail e st = (err e, st)

  -- A value that the state gives.
  abbrev pub look : {A : Type 0} → (State o → A) → M o A
  look f st = (ok (f st), st)

  -- What `lstat` says of a path.
  abbrev pub stat : FilePath → M o (Option Stat)
  stat p st = (ok (o.os.lstat st.fs p), st)

  abbrev pub settle :
      State o → Result Errno o.os.Fs → Result Errno (Result Errno (Unit {0})) × State o
  settle st (ok fs) = (ok (ok tt), record { fs = fs; can_mknod_whiteout = st.can_mknod_whiteout })
  settle st (err e) = (ok (err e), st)

  -- A call whose error number the code looks at.
  unfoldable pub attempt : Syscall → M o (Result Errno (Unit {0}))
  attempt c st = settle st (o.os.perform c st.fs)

  abbrev pub of_result : {A : Type 0} → Result Errno A → M o A
  of_result (ok a) = pure a
  of_result (err e) = fail e

  -- A call whose failure the code returns as `-errno`.
  unfoldable pub sys : Syscall → M o (Unit {0})
  unfolding attempt
  sys c = attempt c >>= of_result

  -- A value that is read, where a failure is returned as `-errno`.
  abbrev pub read : {A : Type 0} → (o.os.Fs → Result Errno A) → M o A
  read f st = of_result (f st.fs) st
