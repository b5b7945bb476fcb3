-- ===== src/Overlay/Fresh.antt =====
-- A mount whose upper layer is still empty shows the lower layer.
use jaim.Prelude.{
  false, List, [], ◌∷◌, ◌++◌, Option, none, some, Result, ok, err, ◌>>=◌, ◌≡◌, refl, sym, ap, ◌∙◌,
  Text, append_assoc, append-nil, Option-cases, inl, inr,
}
use jaim.Overlay.Posix.{FilePath, Stat, Posix, Errno, enoent}
use jaim.Overlay.Resolve.{wh_prefix, at, Resolved, walk, Overlay, resolve, found}
use jaim.Overlay.Read.{op_getattr}

-- What `lstat` says, with the error number of an absent entry.
abbrev pub or_enoent : Option Stat → Result Errno Stat
or_enoent none = err enoent
or_enoent (some sb) = ok sb

module _ (os : Posix) (fs : os.Fs) where
  -- Nothing lies below the directory.
  abbrev pub IsBare : FilePath → Type 0
  IsBare up = (c : Text) (q : FilePath) → os.lstat fs (up ++ (c ∷ q)) ≡ none

  -- Nothing lies below what is absent.
  abbrev pub IsTree : FilePath → Type 0
  IsTree lo =
      (p : FilePath) (c : Text)
      → os.lstat fs (lo ++ p) ≡ none
      → os.lstat fs (lo ++ (p ++ (c ∷ []))) ≡ none

  IsBare-at : (up : FilePath) (comp : Text) → IsBare up → IsBare (at up comp)
  IsBare-at up comp h c q = ap (os.lstat fs) (append_assoc up (comp ∷ []) (c ∷ q)) ∙ h comp (c ∷ q)

  IsTree-at : (lo : FilePath) (comp : Text) → IsTree lo → IsTree (at lo comp)
  IsTree-at lo comp h p c e =
      ap (os.lstat fs) (append_assoc lo (comp ∷ []) (p ++ (c ∷ [])))
      ∙ h (comp ∷ p) c (ap (os.lstat fs) (sym (append_assoc lo (comp ∷ []) p)) ∙ e)

  absent-below :
      (lo : FilePath) (p r : FilePath)
      → IsTree lo
      → os.lstat fs (lo ++ p) ≡ none
      → os.lstat fs (lo ++ (p ++ r)) ≡ none
  absent-below lo p [] h e = ap (λ x. os.lstat fs (lo ++ x)) (append-nil p) ∙ e
  absent-below lo p (c ∷ r) h e =
      ap (λ x. os.lstat fs (lo ++ x)) (sym (append_assoc p (c ∷ []) r))
      ∙ absent-below lo (p ++ (c ∷ [])) r h (h p c e)

  shown : Resolved → Result Errno Stat
  unfolding found
  shown r = found r >>= λ x. ok x.1

  walk-fresh :
      (up lo : FilePath) (comp : Text) (rest : List Text)
      → IsBare up
      → IsTree lo
      → shown (walk os fs false up lo comp rest) ≡ or_enoent (os.lstat fs (lo ++ (comp ∷ rest)))
  unfolding walk shown
  walk-fresh up lo comp [] b t = elim (Option-cases (os.lstat fs (at lo comp))) [
    | inl e ↦ rw (b (wh_prefix ++ comp) [], b comp [], e) refl
    | inr (sb, e) ↦ rw (b (wh_prefix ++ comp) [], b comp [], e) refl
  ]
  walk-fresh up lo comp (next ∷ rest) b t = elim (Option-cases (os.lstat fs (at lo comp))) [
    | inl e ↦
        rw (b (wh_prefix ++ comp) [], b comp [], e)
          (sym (ap or_enoent (absent-below lo (comp ∷ []) (next ∷ rest) t e)))
    | inr (sb, e) ↦
        rw (b (wh_prefix ++ comp) [], b comp [], e)
          (walk-fresh (at up comp) (at lo comp) next rest (IsBare-at up comp b)
              (IsTree-at lo comp t)
            ∙ ap (λ p. or_enoent (os.lstat fs p)) (append_assoc lo (comp ∷ []) (next ∷ rest)))
  ]

-- While the upper layer is empty, every path below the root has the status that it has in the lower
-- layer, and is absent where it is absent there, if nothing in lower lies below an absent entry.
pub op_getattr-fresh :
    (o : Overlay) (fs : o.os.Fs) (first : Text) (others : List Text)
    → IsBare o.os fs o.upper
    → IsTree o.os fs o.lower
    → op_getattr o fs (first ∷ others) ≡ or_enoent (o.os.lstat fs (o.lower ++ (first ∷ others)))
unfolding op_getattr resolve shown
op_getattr-fresh o fs first others b t = walk-fresh o.os fs o.upper o.lower first others b t
