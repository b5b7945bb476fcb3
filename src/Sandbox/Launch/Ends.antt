-- ===== src/Sandbox/Launch/Ends.antt =====
-- How a call of jaim.cc's `Config::exec` ends, by what holds where it returns and where it throws.
use jaim.Prelude.{Bool, true, false, if◌then◌else◌, Result, ok, err}
use jaim.Prelude.Stateful.{Act, feed}
use jaim.Sandbox.Launch.State.{Fault}

module _ {S A : Type 0} where
  -- How a call ends, by what holds where it returns and where it throws.
  pub data Ends (P R : S → Type 0) : Result Fault A × S → Type 0 where
    returned : {a : A} {t : S} → P t → Ends P R (ok a, t)
    thrown : {e : Fault} {t : S} → R t → Ends P R (err e, t)

pub Ends-feed :
    {S A B : Type 0} {P Q R : S → Type 0} {r : Result Fault A × S} {f : A → Act S Fault B}
    → Ends P R r
    → ((a : A) (t : S) → P t → Ends Q R (f a t))
    → Ends Q R (feed r f)
Ends-feed (returned p) k = k _ _ p
Ends-feed (thrown h) k = thrown h

pub Ends-weaken :
    {S A : Type 0} {P Q R : S → Type 0} {r : Result Fault A × S}
    → Ends P R r
    → ((t : S) → P t → Q t)
    → Ends Q R r
Ends-weaken (returned p) k = returned (k _ p)
Ends-weaken (thrown h) k = thrown h

pub Ends-if :
    {S A : Type 0} {P R : S → Type 0} {x y : Result Fault A × S} (b : Bool)
    → Ends P R x
    → Ends P R y
    → Ends P R (if b then x else y)
Ends-if true h k = h
Ends-if false h k = k

pub if-either :
    {S : Type 0} (P : S → Type 0) {x y : S} (b : Bool) → P x → P y → P (if b then x else y)
if-either P true h k = h
if-either P false h k = k
