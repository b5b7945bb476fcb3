-- ===== src/Overlay/Monad/Runs.antt =====
-- What is known of a computation that has succeeded.
use jaim.Prelude.{Result, ok, err, ◌≡◌, refl}
use jaim.Overlay.Posix.{Errno, Syscall}
use jaim.Overlay.Resolve.{Overlay}
use jaim.Overlay.Monad.{State, M, feed, settle, attempt, sys, of_result}

-- The first part has succeeded, and the second one on what it left.
pub record Split {o : Overlay} {A B : Type 0} (r : Result Errno A × State o) (f : A → M o B) (b : B)
    (last : State o) : Type 0 where
  pub value : A
  pub between : State o
  pub reached : r ≡ (ok value, between)
  pub after : f value between ≡ (ok b, last)

module _ {o : Overlay} where
  pub feed-Split :
      {A B : Type 0} (r : Result Errno A × State o) (f : A → M o B) {b : B} {last : State o}
      → feed r f ≡ (ok b, last)
      → Split r f b last
  feed-Split (ok a, st) f e = record { value = a; between = st; reached = refl; after = e }
  feed-Split (err x, st) f e = cc

  settle-ok :
      (st : State o) (r : Result Errno o.os.Fs) (last : State o)
      → feed (settle st r) of_result ≡ (ok tt, last)
      → r ≡ ok last.fs
  settle-ok st (ok fs) last e = cc
  settle-ok st (err x) last e = cc

  pub sys-ok :
      (c : Syscall) (st last : State o)
      → sys c st ≡ (ok tt, last)
      → o.os.perform c st.fs ≡ ok last.fs
  unfolding sys attempt
  sys-ok c st last e = settle-ok st (o.os.perform c st.fs) last e
