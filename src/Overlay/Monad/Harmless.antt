-- ===== src/Overlay/Monad/Harmless.antt =====
-- The rules of Keeps for the overlay, whose guarded paths are the markers.
use jaim.Prelude.{◌≡◌, ok, Bool, Result, if◌then◌else◌}
use jaim.Overlay.Posix.{FilePath, Errno, Syscall}
use jaim.Overlay.Resolve.{Overlay}
use jaim.Overlay.Monad.{M, ◌>>=◌, ◌>>◌, pure, fail, stat, attempt, sys, read, look, State}
use jaim.Overlay.Monad.Keeps.{
  Apart, Spares, Keeps, Keeps-pure, Keeps-fail, Keeps-stat, Keeps-bind, Keeps-bind-from, Keeps-then,
  Keeps-if, Keeps-attempt, Keeps-sys, Keeps-look, Keeps-read,
}
use jaim.Overlay.Monad.Spares.{IsMarker}

pub record Harmless {o : Overlay} {A : Type 0} (m : M o A) : Type 0 where
  pub kept : Keeps o (IsMarker o) m

module _ {o : Overlay} where
  pub Harmless-pure : {A : Type 0} {a : A} → Harmless {o = o} (pure a)
  Harmless-pure = record { kept = Keeps-pure o (IsMarker o) }

  pub Harmless-fail : {A : Type 0} {e : Errno} → Harmless {o = o} (fail {A = A} e)
  Harmless-fail {A} = record { kept = Keeps-fail o (IsMarker o) A }

  pub Harmless-stat : (p : FilePath) → Harmless {o = o} (stat p)
  Harmless-stat p = record { kept = Keeps-stat o (IsMarker o) }

  pub Harmless-bind :
      {A B : Type 0} {m : M o A} {f : A → M o B}
      → Harmless m
      → ((a : A) → Harmless (f a))
      → Harmless (m >>= f)
  Harmless-bind h k = record { kept = Keeps-bind o (IsMarker o) h.kept (λ a. (k a).kept) }

  pub Harmless-bind-from :
      {A B : Type 0} {m : M o A} {f : A → M o B} (P : A → Type 0)
      → Harmless m
      → ((st : State o) (a : A) → (m st).0 ≡ ok a → P a)
      → ((a : A) → P a → Harmless (f a))
      → Harmless (m >>= f)
  Harmless-bind-from P h p k = record {
    kept = Keeps-bind-from o (IsMarker o) P h.kept p (λ a x. (k a x).kept);
  }

  pub Harmless-then :
      {B : Type 0} {m : M o (Unit {0})} {k : M o B} → Harmless m → Harmless k → Harmless (m >> k)
  Harmless-then h k = record { kept = Keeps-then o (IsMarker o) h.kept k.kept }

  pub Harmless-if :
      {A : Type 0} (b : Bool) {m n : M o A}
      → Harmless m
      → Harmless n
      → Harmless (if b then m else n)
  Harmless-if b h k = record { kept = Keeps-if o (IsMarker o) b h.kept k.kept }

  pub Harmless-attempt :
      {c : Syscall} → Apart o → Spares o (IsMarker o) c → Harmless {o = o} (attempt c)
  Harmless-attempt {c} a h = record { kept = Keeps-attempt o (IsMarker o) a c h }

  pub Harmless-sys : {c : Syscall} → Apart o → Spares o (IsMarker o) c → Harmless {o = o} (sys c)
  Harmless-sys {c} a h = record { kept = Keeps-sys o (IsMarker o) a c h }

  pub Harmless-read : {A : Type 0} (f : o.os.Fs → Result Errno A) → Harmless {o = o} (read f)
  Harmless-read f = record { kept = Keeps-read o (IsMarker o) f }

  pub Harmless-look : {A : Type 0} (f : State o → A) → Harmless {o = o} (look f)
  Harmless-look f = record { kept = Keeps-look o (IsMarker o) f }

pub ruleset harmless = (
  Harmless-look, Harmless-pure, Harmless-fail, Harmless-stat, Harmless-bind, Harmless-then,
  Harmless-if, Harmless-attempt, Harmless-sys, Harmless-read,
)
