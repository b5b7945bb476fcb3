-- ===== src/Fs/Ensure/Tests.antt =====
-- Runs of `ensure_file`.
use jaim.Prelude.{
  take, ℕ, zero, suc, ◌+◌, ◌-◌, ◌==◌, ltb, leb, ◌≤◌, ◌<◌, Bool, true, false, not, ◌&&◌, ◌||◌,
  if◌then◌else◌, List, [], ◌∷◌, ◌++◌, map, any, length, All, is_empty, Option, none, some, Result,
  ok, err, ◌≡◌, ◌≢◌, ◌↔◌, ◌⊎◌, inl, inr, refl, sym, ap, subst, ◌∙◌, arith, Bool-cases, Option-cases,
  ==_iff, ==_self, Text, codes, text_eq, text_eq_iff, text_eq_self, append-nil, append_assoc,
}
use jaim.Fs.Ensure.{Opened, regular, absent, FileDirectory, Fault, ensure_file}
use jaim.Fs.Ensure.Whole.{IsEnsured, ensure_file-IsEnsured}
use jaim.Fs.Ensure.Simple.{small_directory, empty, append_byte}

ensure_file-IsEnsured_example :
    IsEnsured small_directory
      (codes "a")
      (codes "bc")
      empty
      (ensure_file small_directory 7 true (codes "a") (codes "bc") 384 empty)
ensure_file-IsEnsured_example =
    ensure_file-IsEnsured small_directory (codes "a") (codes "bc") empty 7 true 384

ensured :
    (ensure_file small_directory 7 true (codes "a") (codes "bc") 384 empty).1 (codes "a")
    ≡ some (codes "bc")
unfolding ensure_file jaim.Fs.Ensure.make_file jaim.Fs.Ensure.fill jaim.Fs.Ensure.write_loop
    append_byte text_eq jaim.Fs.Paths.cat jaim.Prelude.to_string jaim.Prelude.digits
ensured = refl
