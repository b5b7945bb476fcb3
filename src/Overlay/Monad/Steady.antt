-- ===== src/Overlay/Monad/Steady.antt =====
-- A computation that brings no symbolic link and no special file where there was none.
use jaim.Prelude.{Bool, true, false, Result, ok, err, ◌≡◌, refl, if◌then◌else◌, inl, inr}
use jaim.Overlay.Posix.{FilePath, FileKind, Errno, Syscall, HasKind, IsOdd, MakesKind, Brings}
use jaim.Overlay.Resolve.{Overlay}
use jaim.Overlay.Monad.{
  State, M, feed, settle, ◌>>=◌, ◌>>◌, pure, fail, look, stat, attempt, sys, of_result,
}

-- Nothing, a regular file or a directory.
abbrev pub IsPlainAt : (o : Overlay) → o.os.Fs → FilePath → Type 0
IsPlainAt o fs q = (k : FileKind) → IsOdd k → ¬ (HasKind k (o.os.lstat fs q))

-- A call that makes and brings nothing of another kind.
abbrev pub MakesNothing : Syscall → Type 0
MakesNothing c =
    ((k : FileKind) (q : FilePath) → ¬ (MakesKind c k q)) × ((p q : FilePath) → ¬ (Brings c p q))

module _ {o : Overlay} where
  pub record Steady {A : Type 0} (m : M o A) : Type 0 where
    pub steady : (st : State o) (q : FilePath) → IsPlainAt o st.fs q → IsPlainAt o (m st).1.fs q

  pub Steady-pure : {A : Type 0} {a : A} → Steady (pure a)
  Steady-pure = record { steady = λ st q h. h }

  pub Steady-fail : {A : Type 0} {e : Errno} → Steady (fail {A = A} e)
  Steady-fail = record { steady = λ st q h. h }

  pub Steady-stat : (p : FilePath) → Steady (stat p)
  Steady-stat p = record { steady = λ st q h. h }

  pub Steady-look : {A : Type 0} (f : State o → A) → Steady (look f)
  Steady-look f = record { steady = λ st q h. h }

  feed-IsPlainAt :
      {A B : Type 0} (r : Result Errno A × State o) (f : A → M o B) (q : FilePath)
      → IsPlainAt o r.1.fs q
      → ((a : A) → Steady (f a))
      → IsPlainAt o (feed r f).1.fs q
  feed-IsPlainAt (ok a, st) f q h k = (k a).steady st q h
  feed-IsPlainAt (err e, st) f q h k = h

  pub Steady-bind :
      {A B : Type 0} {m : M o A} {f : A → M o B}
      → Steady m
      → ((a : A) → Steady (f a))
      → Steady (m >>= f)
  Steady-bind {m} {f} h k = record {
    steady = λ st q l. feed-IsPlainAt (m st) f q (h.steady st q l) k;
  }

  pub Steady-then :
      {B : Type 0} {m : M o (Unit {0})} {k : M o B} → Steady m → Steady k → Steady (m >> k)
  Steady-then {m} {k} h l = Steady-bind {m = m} {f = λ _. k} h (λ _. l)

  pub Steady-if :
      {A : Type 0} (b : Bool) {m n : M o A} → Steady m → Steady n → Steady (if b then m else n)
  Steady-if true h k = h
  Steady-if false h k = k

  settle-IsPlainAt :
      (c : Syscall) (st : State o) (r : Result Errno o.os.Fs) (q : FilePath)
      → o.os.perform c st.fs ≡ r
      → MakesNothing c
      → IsPlainAt o st.fs q
      → IsPlainAt o (settle st r).1.fs q
  settle-IsPlainAt c st (err e) q p n h k odd now = h k odd now
  settle-IsPlainAt c st (ok fs) q p n h k odd now =
      elim (o.os.kind-frame c k odd st.fs fs q p now) [
        | inl old ↦ h k odd old
        | inr (inl made) ↦ n.0 k q made
        | inr (inr (from, old, moved)) ↦ n.1 from q moved
      ]

  pub Steady-attempt : (c : Syscall) → MakesNothing c → Steady (attempt c)
  unfolding attempt
  Steady-attempt c n = record {
    steady = λ st q h. settle-IsPlainAt c st (o.os.perform c st.fs) q refl n h;
  }

  pub Steady-of_result : {A : Type 0} (r : Result Errno A) → Steady (of_result r)
  Steady-of_result (ok a) = Steady-pure
  Steady-of_result (err e) = Steady-fail

  pub Steady-sys : (c : Syscall) → MakesNothing c → Steady (sys c)
  unfolding sys
  Steady-sys c n = Steady-bind (Steady-attempt c n) Steady-of_result
