-- ===== src/Sandbox/Launch/Gives.antt =====
-- What holds where a call of jaim.cc's `Config::exec` returns.
use jaim.Prelude.{ℕ, Bool, true, false, if◌then◌else◌, Result, ok, err, Text}
use jaim.Prelude.Stateful.{Act, feed}
use jaim.Sandbox.Launch.System.{LaunchSystem}
use jaim.Sandbox.Launch.State.{
  Fault, Session, ask_settle, invoke_settle, udir_settle, make_settle, resolved_dir,
}

module _ {S A : Type 0} where
  -- What holds where a call returns.
  pub data Gives (P : A → S → Type 0) : Result Fault A × S → Type 0 where
    given : {a : A} {t : S} → P a t → Gives P (ok a, t)
    refused : {e : Fault} {t : S} → Gives P (err e, t)

  abbrev pub Holds : (A → S → Type 0) → Result Fault A × S → Type 0
  Holds P (ok a, t) = P a t
  Holds P (err e, t) = Unit

  pub Gives-Holds : {P : A → S → Type 0} {r : Result Fault A × S} → Gives P r → Holds P r
  Gives-Holds (given h) = h
  Gives-Holds refused = tt

  pub Gives-if :
      {P : A → S → Type 0} {x y : Result Fault A × S} (b : Bool)
      → Gives P x
      → Gives P y
      → Gives P (if b then x else y)
  Gives-if true h k = h
  Gives-if false h k = k

pub Gives-feed :
    {S A B : Type 0} {P : A → S → Type 0} {Q : B → S → Type 0} {r : Result Fault A × S}
    {f : A → Act S Fault B}
    → Gives P r
    → ((a : A) (t : S) → P a t → Gives Q (f a t))
    → Gives Q (feed r f)
Gives-feed (given h) k = k _ _ h
Gives-feed refused k = refused

module _ (sys : LaunchSystem) where
  abbrev pub S : Type 0
  S = Session sys.World

  pub ask-Gives :
      {A : Type 0} (P : S → Type 0) (fault : ℕ → Fault) (s : S) (r : Result ℕ A)
      → P s
      → Gives (λ a. P) (ask_settle sys fault s r)
  ask-Gives P fault s (ok a) h = given h
  ask-Gives P fault s (err e) h = refused

  module _ (P : S → Type 0)
      (moved : (s : S) (w : sys.World) → P s → P (record s { world = w })) where
    pub invoke-Gives :
        (fault : ℕ → Fault) (s : S) (r : Result ℕ sys.World)
        → P s
        → Gives (λ a. P) (invoke_settle sys fault s r)
    invoke-Gives fault s (ok w) h = given (moved s w h)
    invoke-Gives fault s (err e) h = refused

    pub make-Gives :
        {A : Type 0} (fault : ℕ → Fault) (s : S) (r : Result ℕ (A × sys.World))
        → P s
        → Gives (λ a. P) (make_settle sys fault s r)
    make-Gives fault s (ok (a, w)) h = given (moved s w h)
    make-Gives fault s (err e) h = refused

    pub udir-Gives :
        (s : S) (r : Result ℕ (Unit {0}) × sys.World) → P s → Gives (λ a. P) (udir_settle sys s r)
    udir-Gives s (ok u, w) h = given (moved s w h)
    udir-Gives s (err e, w) h = refused

    pub dir-Gives : (d : Text) (s : S) → P s → Gives (λ a. P) (resolved_dir sys d s)
    dir-Gives d s h =
        Gives-feed (udir-Gives s (sys.ensure_udir d s.world) h)
          (λ u t k. ask-Gives P Fault.no_canonical t (sys.canonical d t.world) k)
