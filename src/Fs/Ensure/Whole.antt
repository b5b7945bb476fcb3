-- ===== src/Fs/Ensure/Whole.antt =====
-- A file that `ensure_file` makes is whole, or is not there.
use jaim.Prelude.{
  length-append, take, drop, to_string, ℕ, zero, suc, ◌+◌, ◌≤◌, ◌<◌, Bool, true, false, [], ◌∷◌,
  ◌++◌, length, Option, none, some, Result, ok, err, ◌≡◌, ◌≢◌, ◌⊎◌, inl, inr, refl, sym, ap, ◌∙◌,
  arith, Text, codes, append-nil, append_assoc,
}
use jaim.Prelude.Stateful.{feed, ◌>>◌}
use jaim.Fs.Paths.{cat}
use jaim.Fs.Ensure.{
  cat, Opened, regular, other_kind, absent, failed, FileDirectory, Fault, create_failed,
  rename_failed, out_of_fuel, FileAct, lift, written, write_loop, synced, fill, or_clean_up,
  reopened, called, make_file, by_opened, temp_name, ensure_file,
}

take-drop : (n : ℕ) (l : Text) → take n l ++ drop n l ≡ l
take-drop zero l = refl
take-drop (suc n) [] = refl
take-drop (suc n) (c ∷ l) = ap (λ r. c ∷ r) (take-drop n l)

length-drop : (n : ℕ) (l : Text) → n ≤ length l → length (drop n l) + n ≡ length l
length-drop zero l h = omega arith
length-drop (suc n) [] h = absurd (omega arith)
length-drop (suc n) (c ∷ l) h = let later = length-drop n l (omega arith) in omega arith

module _ (d : FileDirectory) (file tmp : Text) (differ : file ≢ tmp) where
  abbrev pub IsWritten : Text → Text → d.Files → Result Fault (Unit {0}) × d.Files → Type 0
  IsWritten w s fs (ok u, after) =
      (d.content after tmp ≡ some (w ++ s)) × (d.content after file ≡ d.content fs file)
  IsWritten w s fs (err e, after) = (e ≢ out_of_fuel) × (d.content after file ≡ d.content fs file)

  IsWritten-next :
      (w s : Text) (n : ℕ) (fs mid : d.Files) (r : Result Fault (Unit {0}) × d.Files)
      → d.content mid file ≡ d.content fs file
      → IsWritten (w ++ take n s) (drop n s) mid r
      → IsWritten w s fs r
  IsWritten-next w s n fs mid (ok u, after) same h = (
    h.0 ∙ ap some (append_assoc w (take n s) (drop n s) ∙ ap (λ t. w ++ t) (take-drop n s)),
    h.1 ∙ same,
  )
  IsWritten-next w s n fs mid (err e, after) same h = (h.0, h.1 ∙ same)

  IsWritten-written :
      (rest : Text → FileAct d (Unit {0})) (c : ℕ) (s w : Text) (fs : d.Files)
      (o : Result ℕ (ℕ × d.Files))
      → d.write tmp (c ∷ s) fs ≡ o
      → d.content fs tmp ≡ some w
      → ((t v : Text) (mid : d.Files)
          → length t < length (c ∷ s)
          → d.content mid tmp ≡ some v
          → IsWritten v t mid (rest t mid))
      → IsWritten w (c ∷ s) fs (written d rest (c ∷ s) fs o)
  IsWritten-written rest c s w fs (err e) same h later = ((λ f. cc), refl)
  IsWritten-written rest c s w fs (ok (n, after)) same h later =
      let (some_written, small, now, others) =
        d.write-content tmp (c ∷ s) w n fs after same h (λ e. cc) in
      IsWritten-next w (c ∷ s) n fs after _ (others file differ) (
        later (drop n (c ∷ s)) (w ++ take n (c ∷ s)) after
          (omega (arith, length-drop n (c ∷ s) small)) now)

  pub write_loop-IsWritten :
      (fuel : ℕ) (s w : Text) (fs : d.Files)
      → length s < fuel
      → d.content fs tmp ≡ some w
      → IsWritten w s fs (write_loop d fuel tmp s fs)
  unfolding write_loop
  write_loop-IsWritten zero s w fs enough h = absurd (omega arith)
  write_loop-IsWritten (suc fuel) [] w fs enough h = (h ∙ ap some (sym (append-nil w)), refl)
  write_loop-IsWritten (suc fuel) (c ∷ s) w fs enough h =
      IsWritten-written (write_loop d fuel tmp) c s w fs _ refl h
        (λ t v mid less now. write_loop-IsWritten fuel t v mid (omega arith) now)

  module _ (contents : Text) (old : Option Text) where
    -- The file has the contents where the code returns, and its old ones where it throws.
    abbrev IsFilled : Result Fault (Unit {0}) × d.Files → Type 0
    IsFilled (ok u, after) = d.content after file ≡ some contents
    IsFilled (err e, after) = (e ≢ out_of_fuel) × (d.content after file ≡ old)

    IsFilled-rename :
        (fs : d.Files) (o : Result ℕ d.Files)
        → d.rename tmp file fs ≡ o
        → d.content fs tmp ≡ some contents
        → d.content fs file ≡ old
        → IsFilled (lift d rename_failed fs o)
    IsFilled-rename fs (ok after) e new same = d.rename-content tmp file fs after e ∙ new
    IsFilled-rename fs (err n) e new same = ((λ f. cc), same)

    IsFilled-synced :
        (fs : d.Files) (o : Option ℕ)
        → d.content fs tmp ≡ some contents
        → d.content fs file ≡ old
        → IsFilled ((synced d o >> λ s. lift d rename_failed s (d.rename tmp file s)) fs)
    IsFilled-synced fs none new same = IsFilled-rename fs _ refl new same
    IsFilled-synced fs (some e) new same = ((λ f. cc), same)

    IsFilled-written :
        (fs : d.Files) (r : Result Fault (Unit {0}) × d.Files)
        → IsWritten [] contents fs r
        → d.content fs file ≡ old
        → IsFilled (
            feed r (λ u. (λ s. synced d (d.fsync tmp s) s) >> λ s.
            lift d rename_failed s (d.rename tmp file s)))
    IsFilled-written fs (ok u, after) h same = IsFilled-synced after _ h.0 (h.1 ∙ same)
    IsFilled-written fs (err e, after) h same = (h.0, h.1 ∙ same)

    IsFilled-created :
        (mode : ℕ) (fs : d.Files) (o : Result ℕ d.Files)
        → d.create_excl tmp mode fs ≡ o
        → d.content fs file ≡ old
        → IsFilled (
            feed (lift d create_failed fs o) (λ u.
              write_loop d (suc (length contents)) tmp contents
              >> ((λ s. synced d (d.fsync tmp s) s) >> λ s.
                  lift d rename_failed s (d.rename tmp file s))))
    IsFilled-created mode fs (err e) made same = ((λ f. cc), same)
    IsFilled-created mode fs (ok after) made same =
        let (empty, others) = d.create-content tmp mode fs after made in
        IsFilled-written after _
          (write_loop-IsWritten (suc (length contents)) contents [] after (omega arith) empty)
          (others file differ ∙ same)

    fill-IsFilled :
        (mode : ℕ) (fs : d.Files)
        → d.content fs file ≡ old
        → IsFilled (fill d tmp file contents mode fs)
    unfolding fill
    fill-IsFilled mode fs same = IsFilled-created mode fs _ refl same

    -- The file has the contents, or its old ones.
    abbrev IsMade : Result Fault (Unit {0}) × d.Files → Type 0
    IsMade (ok u, after) = d.content after file ≡ some contents
    IsMade (err e, after) =
        (e ≢ out_of_fuel) × ((d.content after file ≡ some contents) ⊎ (d.content after file ≡ old))

    IsMade-reopened :
        (callback : Bool) (o : Opened) (fs : d.Files)
        → d.content fs file ≡ some contents
        → IsMade ((reopened d o >> called d callback) fs)
    IsMade-reopened true regular fs new = new
    IsMade-reopened true other_kind fs new = new
    IsMade-reopened false regular fs new = ((λ f. cc), inl new)
    IsMade-reopened false other_kind fs new = ((λ f. cc), inl new)
    IsMade-reopened callback absent fs new = ((λ f. cc), inl new)
    IsMade-reopened callback (failed e) fs new = ((λ f. cc), inl new)

    IsMade-filled :
        (callback : Bool) (r : Result Fault (Unit {0}) × d.Files)
        → IsFilled r
        → IsMade (
            feed
              (or_clean_up d tmp r)
              (λ u. (λ s. reopened d (d.open_read s file) s) >> called d callback))
    IsMade-filled callback (ok u, fs) h = IsMade-reopened callback (d.open_read fs file) fs h
    IsMade-filled callback (err e, fs) h = (h.0, inr (d.unlink-other tmp file fs differ ∙ h.1))

    make_file-IsMade :
        (callback : Bool) (mode : ℕ) (fs : d.Files)
        → d.content fs file ≡ old
        → IsMade (make_file d callback tmp file contents mode fs)
    unfolding make_file
    make_file-IsMade callback mode fs same =
        IsMade-filled callback (fill d tmp file contents mode (d.unlink tmp fs))
          (fill-IsFilled mode (d.unlink tmp fs) (d.unlink-other tmp file fs differ ∙ same))

module _ (d : FileDirectory) (file contents : Text) (fs : d.Files) where
  -- How `ensure_file` may end.
  abbrev pub IsEnsured : Result Fault (Unit {0}) × d.Files → Type 0
  IsEnsured (ok u, after) =
      ((d.open_read fs file ≡ regular) × (after ≡ fs))
      ⊎ ((d.open_read fs file ≡ absent) × (d.content after file ≡ some contents))
  IsEnsured (err e, after) =
      (e ≢ out_of_fuel)
      × ((d.content after file ≡ some contents) ⊎ (d.content after file ≡ d.content fs file))

  temp_differs : (pid : ℕ) → file ≢ temp_name d pid file
  unfolding cat
  temp_differs pid e =
      absurd
        (omega (arith, ap length e, length-append file (codes "~" ++ (to_string pid ++ codes "~"))))

  IsEnsured-made :
      (pid : ℕ) (r : Result Fault (Unit {0}) × d.Files)
      → d.open_read fs file ≡ absent
      → IsMade d file (temp_name d pid file) (temp_differs pid) contents (d.content fs file) r
      → IsEnsured r
  IsEnsured-made pid (ok u, after) e h = inr (e, h)
  IsEnsured-made pid (err f, after) e h = h

  -- `ensure_file` opens a regular file that is there and changes nothing, or it makes the file with
  -- the whole contents; where it throws, wherever that is, the file is as it was or has the whole
  -- contents, and never a part of them. The loop that writes ends, where each write takes at least
  -- one byte.
  pub ensure_file-IsEnsured :
      (pid : ℕ) (callback : Bool) (mode : ℕ)
      → IsEnsured (ensure_file d pid callback file contents mode fs)
  unfolding ensure_file
  ensure_file-IsEnsured pid callback mode = by_kind (d.open_read fs file) refl
    where
      by_kind :
          (o : Opened)
          → d.open_read fs file ≡ o
          → IsEnsured (
              by_opened d o file
                (make_file d callback (temp_name d pid file) file contents mode)
                fs)
      by_kind regular e = inl (e, refl)
      by_kind other_kind e = ((λ f. cc), inr refl)
      by_kind (failed n) e = ((λ f. cc), inr refl)
      by_kind absent e = IsEnsured-made pid _ e (
          make_file-IsMade d file (temp_name d pid file) (temp_differs pid) contents
            (d.content fs file) callback mode fs refl)
