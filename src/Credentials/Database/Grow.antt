-- ===== src/Credentials/Database/Grow.antt =====
-- The growing buffer of `DbEnt::find`.
use jaim.Prelude.{ℕ, zero, suc, ◌+◌, ◌*◌, ◌^◌, ◌≤◌, ◌<◌, ◌≡◌, ◌≢◌, refl, arith}
use native.Mathlib.Decide.{dec_le}
use native.Mathlib.Numerals.{unary_clauses}
use jaim.Credentials.Database.{
  Answer, entry, absent, too_small, failed, Found, found, missing, thrown, still_growing, end_of,
  find_loop, find_entry,
}

module _ {E : Type 0} (fn : ℕ → Answer E) (need : ℕ) where
  -- How a look-up may end: an entry stands in a buffer of 128 bytes, or of less than twice what is
  -- needed.
  abbrev pub IsFit : Found E → Type 0
  IsFit (found e size) = (fn size ≡ entry e) × (size < 129 + 2 * need)
  IsFit missing = Unit {0}
  IsFit (thrown r) = Unit {0}
  IsFit still_growing = ⊥

  IsFit-end_of :
      (a : Answer E) (size : ℕ) (rest : Found E)
      → fn size ≡ a
      → size < 129 + 2 * need
      → (a ≡ too_small → IsFit rest)
      → IsFit (end_of a size rest)
  IsFit-end_of (entry e) size rest h bound later = (h, bound)
  IsFit-end_of absent size rest h bound later = tt
  IsFit-end_of too_small size rest h bound later = later refl
  IsFit-end_of (failed r) size rest h bound later = tt

  module _ (enough : (n : ℕ) → need ≤ n → fn n ≢ too_small) where
    small_size :
        (size : ℕ) → size < 129 + 2 * need → fn size ≡ too_small → 2 * size < 129 + 2 * need
    small_size size bound small = elim (dec_le need size) [
      | yes big ↦ absurd (enough size big small)
      | no less ↦ omega arith
    ]

    doubled : (size power : ℕ) → need ≤ size * (power * 2) → need ≤ 2 * size * power
    doubled size power h = grind arith

    find_loop-IsFit :
        (fuel size : ℕ)
        → need ≤ size * 2 ^ fuel
        → size < 129 + 2 * need
        → IsFit (find_loop fn (suc fuel) size)
    unfolding find_loop
    find_loop-IsFit zero size big bound =
        IsFit-end_of (fn size) size still_growing refl bound (enough size (omega arith))
    find_loop-IsFit (suc fuel) size big bound = IsFit-end_of (fn size) size _ refl bound (λ small.
        find_loop-IsFit fuel (2 * size) (doubled size (2 ^ fuel) (simp unary_clauses at big))
          (small_size size bound small))

    -- The look-up of a user or a group ends, where buffers from some size on are not refused as too
    -- small: the buffer is doubled only so often that it reaches that size, and an entry that is
    -- found stands in a buffer of at most 128 bytes, or less than twice that size and 129 more.
    pub find_entry-IsFit : (fuel : ℕ) → need ≤ 128 * 2 ^ fuel → IsFit (find_entry fn (suc fuel))
    unfolding find_entry
    find_entry-IsFit fuel big = find_loop-IsFit fuel 128 big (omega arith)
