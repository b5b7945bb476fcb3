-- ===== src/Sandbox/Script/Whole.antt =====
-- The script that `make_script` of jaim.cc writes is whole.
use jaim.Prelude.{
  ℕ, suc, Bool-cases, inl, inr, List, [], ◌∷◌, ◌++◌, length, is_empty, Option, none, some, Result,
  ok, err, ◌≡◌, ◌≢◌, refl, sym, ap, ◌∙◌, arith, All, Text, codes, append-nil, append_assoc,
}
use jaim.Prelude.Stateful.{Act, feed}
use jaim.Fs.Paths.{join}
use jaim.Fs.Ensure.{FileDirectory, write_loop, out_of_fuel}
use jaim.Fs.Ensure.Whole.{IsWritten, write_loop-IsWritten}
use jaim.Sandbox.Script.{
  Fault, no_write, script_name, trailer, script_created, raise_write, dowrite, contents_of,
  write_inputs, write_script, make_script,
}

longer : (p : Text) → (0 ∷ p) ≢ p
longer p e = absurd (omega (arith, ap length e))

module _ (d : FileDirectory) where
  abbrev joined : Option Text → Option Text → Option Text
  joined (some a) (some b) = some (a ++ (codes "\n" ++ b))
  joined (some a) none = none
  joined none o = none

  -- The files' contents, a line end behind each, if all are there.
  unfoldable pub sources : d.Files → List Text → Option Text
  sources fs [] = some []
  sources fs (i ∷ is) = joined (d.content fs i) (sources fs is)

module _ (d : FileDirectory) (read_file : Text → d.Files → Result ℕ Text)
    (read-content : (i s : Text) (fs : d.Files) → read_file i fs ≡ ok s → d.content fs i ≡ some s)
    (base : d.Files) (p : Text) where
  -- Nothing but the script has changed.
  abbrev pub Others : d.Files → Type 0
  Others t = (q : Text) → q ≢ p → d.content t q ≡ d.content base q

  abbrev At : Text → d.Files → Type 0
  At w t = (d.content t p ≡ some w) × Others t

  -- How a part of the code ends: the loops that write do, and what fails has changed nothing else.
  pub data Good {A : Type 0} (P : A → d.Files → Type 0) : Result Fault A × d.Files → Type 0 where
    wrote : {a : A} {t : d.Files} → P a t → Good P (ok a, t)
    gave_up : {e : Fault} {t : d.Files} → e ≢ no_write out_of_fuel → Others t → Good P (err e, t)

  Good-feed :
      {A B : Type 0} {P : A → d.Files → Type 0} {Q : B → d.Files → Type 0}
      {r : Result Fault A × d.Files} {f : A → Act d.Files Fault B}
      → Good P r
      → ((a : A) (t : d.Files) → P a t → Good Q (f a t))
      → Good Q (feed r f)
  Good-feed (wrote h) k = k _ _ h
  Good-feed (gave_up e h) k = gave_up e h

  Good-weaken :
      {A : Type 0} {P Q : A → d.Files → Type 0} {r : Result Fault A × d.Files}
      → Good P r
      → ((a : A) (t : d.Files) → P a t → Q a t)
      → Good Q r
  Good-weaken (wrote h) k = wrote (k _ _ h)
  Good-weaken (gave_up e h) k = gave_up e h

  raise_write-At :
      (w s : Text) (fs : d.Files) (r : Result jaim.Fs.Ensure.Fault (Unit {0}) × d.Files)
      → Others fs
      → ((q : Text) (differ : q ≢ p) → IsWritten d q p differ w s fs r)
      → Good (λ u. At (w ++ s)) (raise_write d read_file r)
  raise_write-At w s fs (ok u, t) others h =
      wrote ((h (0 ∷ p) (longer p)).0, λ q differ. (h q differ).1 ∙ others q differ)
  raise_write-At w s fs (err e, t) others h =
      gave_up (λ f. (h (0 ∷ p) (longer p)).0 cc) (λ q differ. (h q differ).1 ∙ others q differ)

  dowrite-At :
      (w s : Text) (fs : d.Files) → At w fs → Good (λ u. At (w ++ s)) (dowrite d read_file p s fs)
  dowrite-At w s fs h =
      raise_write-At w s fs _ h.1
        (λ q differ. write_loop-IsWritten d q p differ (suc (length s)) s w fs (omega arith) h.0)

  -- What has been written behind some text.
  abbrev Wrote : Text → List Text → d.Files → Type 0
  Wrote w is t = (body : Text) × (sources d base is ≡ some body) × At (w ++ body) t

  Wrote-next :
      (i : Text) (is : List Text) (w s : Text) (t : d.Files)
      → d.content base i ≡ some s
      → Wrote ((w ++ s) ++ codes "\n") is t
      → Wrote w (i ∷ is) t
  unfolding sources
  Wrote-next i is w s t h (body, from, now) = (
    s ++ (codes "\n" ++ body),
    rw (h, from) refl,
    (now.0 ∙ ap some (append_assoc (w ++ s) (codes "\n") body ∙ append_assoc w s _), now.1),
  )

  contents_of-Good :
      (i : Text) (fs : d.Files) (r : Result ℕ Text)
      → read_file i fs ≡ r
      → Others fs
      → Good (λ s t. (t ≡ fs) × (d.content fs i ≡ some s)) (contents_of d read_file r fs)
  contents_of-Good i fs (ok s) e h = wrote (refl, read-content i s fs e)
  contents_of-Good i fs (err n) e h = gave_up (λ f. cc) h

  write_inputs-Wrote :
      (is : List Text) (w : Text) (fs : d.Files)
      → All (λ i. i ≢ p) is
      → At w fs
      → Good (λ u. Wrote w is) (write_inputs d read_file p is fs)
  unfolding write_inputs sources
  write_inputs-Wrote [] w fs apart h = wrote ([], refl, (h.0 ∙ ap some (sym (append-nil w)), h.1))
  write_inputs-Wrote (i ∷ is) w fs apart h =
      Good-feed (contents_of-Good i fs (read_file i fs) refl h.1) (λ s t read.
        Good-feed (dowrite-At w s t (rw read.0 h)) (λ u v now.
          Good-feed (dowrite-At (w ++ s) (codes "\n") v now) (λ x z now.
            Good-weaken (write_inputs-Wrote is ((w ++ s) ++ codes "\n") z apart.1 now)
              (λ y last done. Wrote-next i is w s last (sym (h.1 i apart.0) ∙ read.1) done))))

  script_created-At :
      (r : Result ℕ d.Files)
      → d.create_excl p 256 base ≡ r
      → Good (λ u. At []) (script_created d read_file base r)
  script_created-At (ok after) e = wrote (d.create-content p 256 base after e)
  script_created-At (err n) e = gave_up (λ f. cc) (λ q differ. refl)

  -- The script is at its path, with each file's contents and a line end behind it, and the trailer.
  abbrev pub IsWhole : List Text → Text → d.Files → Type 0
  IsWhole is q t =
      (q ≡ p)
      × ((body : Text) × (sources d base is ≡ some body) × (d.content t p ≡ some (body ++ trailer)))
      × Others t

  write_script-IsWhole :
      (is : List Text)
      → All (λ i. i ≢ p) is
      → Good (IsWhole is) (write_script d read_file p is base)
  unfolding write_script
  write_script-IsWhole is apart = Good-feed (script_created-At _ refl) (λ u t h.
      Good-feed (write_inputs-Wrote is [] t apart h) (λ v w (body, from, now).
        Good-feed (dowrite-At body trailer w now)
          (λ x z end. wrote (refl, (body, from, end.0), end.1))))

-- Where `make_script` returns for the files of `--script`, of which none is the script's own path,
-- the script is at that path in the private temporary directory and has each file's contents with a
-- line end behind it, in their order, and then the lines that remove it; no other file has changed,
-- also where it throws, and its loops end.
pub make_script-IsWhole :
    (d : FileDirectory) (read_file : Text → d.Files → Result ℕ Text)
    (read-content : (i s : Text) (fs : d.Files) → read_file i fs ≡ ok s → d.content fs i ≡ some s)
    (private_tmp : Text) (rndbuf : List ℕ) (input : Text) (inputs : List Text) (fs : d.Files)
    → All (λ i. i ≢ join private_tmp (script_name rndbuf)) (input ∷ inputs)
    → Good d read_file read-content fs
        (join private_tmp (script_name rndbuf))
        (IsWhole d read_file read-content fs
          (join private_tmp (script_name rndbuf))
          (input ∷ inputs))
        (make_script d read_file private_tmp rndbuf (input ∷ inputs) fs)
unfolding make_script
make_script-IsWhole d read_file read-content private_tmp rndbuf input inputs fs apart =
    elim (Bool-cases (is_empty private_tmp)) [
      | inl bare ↦ rw bare (gave_up (λ f. cc) (λ q differ. refl))
      | inr given ↦ rw given (
          write_script-IsWhole d read_file read-content fs (join private_tmp (script_name rndbuf))
            (input ∷ inputs) apart)
    ]
