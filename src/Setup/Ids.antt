-- ===== src/Setup/Ids.antt =====
-- The ids that `find_unused_uid` and `find_unused_gid` choose.
use jaim.Prelude.{
  ℕ, zero, suc, ◌+◌, ◌≤◌, ◌<◌, ◌≡◌, arith, Bool, true, false, Option, none, some, Bool-cases, inl,
  inr, subst,
}
use native.Mathlib.Decide.{ℕ_discrete}
use jaim.Setup.{scan, find_unused}

shift : (start left : ℕ) → start + 1 + left ≡ start + suc left
shift start left = omega arith

module _ (used : ℕ → Bool) where
  -- The least unused id from `start` on and below `stop`, or none.
  abbrev pub IsLeast : ℕ → ℕ → Option ℕ → Type 0
  IsLeast start stop none = (v : ℕ) → start ≤ v → v < stop → used v ≡ true
  IsLeast start stop (some u) =
      (start ≤ u) × (u < stop) × (used u ≡ false) × ((v : ℕ) → start ≤ v → v < u → used v ≡ true)

  from_next :
      (start v : ℕ)
      → used start ≡ true
      → start ≤ v
      → (start + 1 ≤ v → used v ≡ true)
      → used v ≡ true
  from_next start v h small later = elim (ℕ_discrete start v) [
    | yes same ↦ subst (λ u. used u ≡ true) same h
    | no other ↦ later (omega arith)
  ]

  IsLeast-next :
      (start stop : ℕ) (o : Option ℕ)
      → used start ≡ true
      → IsLeast (start + 1) stop o
      → IsLeast start stop o
  IsLeast-next start stop none h least =
      λ v small big. from_next start v h small (λ k. least v k big)
  IsLeast-next start stop (some u) h (low, high, free, least) =
      (omega arith, high, free, λ v small big. from_next start v h small (λ k. least v k big))

  scan-IsLeast : (left start : ℕ) → IsLeast start (start + left) (scan used start left)
  unfolding scan
  scan-IsLeast zero start = λ v small big. absurd (omega arith)
  scan-IsLeast (suc left) start = elim (Bool-cases (used start)) [
    | inr free ↦ rw free (omega arith, omega arith, free, λ v small big. absurd (omega arith))
    | inl taken ↦ rw taken (
        IsLeast-next start (start + suc left) _ taken (
          subst (λ stop. IsLeast (start + 1) stop (scan used (start + 1) left)) (shift start left)
            (scan-IsLeast left (start + 1))))
  ]

  -- The id that is found is the least unused one of 300 to 499; where none is found, all of them
  -- are used.
  pub find_unused-IsLeast : IsLeast 300 500 (find_unused used)
  unfolding find_unused
  find_unused-IsLeast = scan-IsLeast 200 300
