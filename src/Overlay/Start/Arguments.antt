-- ===== src/Overlay/Start/Arguments.antt =====
-- What `extract_args` of overlay.cc makes of a command line.
use jaim.Prelude.{
  Bool, true, false, ◌||◌, List, [], ◌∷◌, ◌++◌, ◌≡◌, refl, ◌∙◌, Text, codes, text_eq, starts_with,
  arith, ok, All,
}
use jaim.Overlay.Start.{Extracted, keep, extract_loop, extract_args}

-- An argument more a user means it.
pub data Argument : Type 0 where
  lower_is upper_is lower_next upper_next : Text → Argument
  debugging : Argument
  fuse_option : Text → Argument
  other : Text → Argument

pub written : List Argument → List Text
written [] = []
written (lower_is v ∷ more) = (codes "--lower=" ++ v) ∷ written more
written (upper_is v ∷ more) = (codes "--upper=" ++ v) ∷ written more
written (lower_next v ∷ more) = codes "--lower" ∷ v ∷ written more
written (upper_next v ∷ more) = codes "--upper" ∷ v ∷ written more
written (debugging ∷ more) = codes "-o" ∷ codes "jdebug" ∷ written more
written (fuse_option v ∷ more) = codes "-o" ∷ v ∷ written more
written (other a ∷ more) = a ∷ written more

-- What it means.
abbrev pub meant : Extracted → Argument → Extracted
meant x (lower_is v) = record x { lower = v }
meant x (upper_is v) = record x { upper = v }
meant x (lower_next v) = record x { lower = v }
meant x (upper_next v) = record x { upper = v }
meant x debugging = record x { debug = true }
meant x (fuse_option v) = keep (keep x (codes "-o")) v
meant x (other a) = keep x a

pub all_meant : Extracted → List Argument → Extracted
all_meant x [] = x
all_meant x (a ∷ more) = all_meant (meant x a) more

-- An argument that is left to libfuse.
abbrev pub is_ours : Text → Bool
is_ours a =
    starts_with (codes "--lower=") a
    || (starts_with (codes "--upper=") a
        || ((text_eq a (codes "--lower") || text_eq a (codes "--upper"))
            || ((text_eq a (codes "--help") || text_eq a (codes "-h")) || text_eq a (codes "-o"))))

abbrev pub IsMeant : Argument → Type 0
IsMeant (other a) = is_ours a ≡ false
IsMeant (fuse_option v) = (is_ours v ≡ false) × (text_eq v (codes "jdebug") ≡ false)
IsMeant _ = Unit {0}

other-kept :
    (x : Extracted) (a : Text) (rest : List Text)
    → is_ours a ≡ false
    → extract_loop x (a ∷ rest) ≡ extract_loop (keep x a) rest
unfolding extract_loop
other-kept x a [] h = ground arith
other-kept x a (b ∷ rest) h = ground arith

lower_is-then :
    (x : Extracted) (v : Text) (rest : List Text)
    → extract_loop x ((codes "--lower=" ++ v) ∷ rest) ≡ extract_loop (record x { lower = v }) rest
unfolding extract_loop starts_with text_eq
lower_is-then x v [] = refl
lower_is-then x v (b ∷ rest) = refl

upper_is-then :
    (x : Extracted) (v : Text) (rest : List Text)
    → extract_loop x ((codes "--upper=" ++ v) ∷ rest) ≡ extract_loop (record x { upper = v }) rest
unfolding extract_loop starts_with text_eq
upper_is-then x v [] = refl
upper_is-then x v (b ∷ rest) = refl

next-then :
    (x : Extracted) (v : Text) (rest : List Text)
    → extract_loop x (codes "--lower" ∷ v ∷ rest) ≡ extract_loop (record x { lower = v }) rest
unfolding extract_loop starts_with text_eq
next-then x v rest = refl

upper_next-then :
    (x : Extracted) (v : Text) (rest : List Text)
    → extract_loop x (codes "--upper" ∷ v ∷ rest) ≡ extract_loop (record x { upper = v }) rest
unfolding extract_loop starts_with text_eq
upper_next-then x v rest = refl

debugging-then :
    (x : Extracted) (rest : List Text)
    → extract_loop x (codes "-o" ∷ codes "jdebug" ∷ rest)
      ≡ extract_loop (record x { debug = true }) rest
unfolding extract_loop starts_with text_eq
debugging-then x rest = refl

fuse_option-then :
    (x : Extracted) (v : Text) (rest : List Text)
    → text_eq v (codes "jdebug") ≡ false
    → extract_loop x (codes "-o" ∷ v ∷ rest) ≡ extract_loop (keep x (codes "-o")) (v ∷ rest)
unfolding extract_loop starts_with text_eq
fuse_option-then x v rest h = ground arith

extract_loop-written :
    (x : Extracted) (more : List Argument)
    → All IsMeant more
    → extract_loop x (written more) ≡ ok (all_meant x more)
unfolding written all_meant
extract_loop-written x [] h = unfold extract_loop in refl
extract_loop-written x (lower_is v ∷ more) h =
    lower_is-then x v (written more) ∙ extract_loop-written (meant x (lower_is v)) more h.1
extract_loop-written x (upper_is v ∷ more) h =
    upper_is-then x v (written more) ∙ extract_loop-written (meant x (upper_is v)) more h.1
extract_loop-written x (lower_next v ∷ more) h =
    next-then x v (written more) ∙ extract_loop-written (meant x (lower_next v)) more h.1
extract_loop-written x (upper_next v ∷ more) h =
    upper_next-then x v (written more) ∙ extract_loop-written (meant x (upper_next v)) more h.1
extract_loop-written x (debugging ∷ more) h =
    debugging-then x (written more) ∙ extract_loop-written (meant x debugging) more h.1
extract_loop-written x (fuse_option v ∷ more) h =
    fuse_option-then x v (written more) h.0.1
    ∙ other-kept (keep x (codes "-o")) v (written more) h.0.0
    ∙ extract_loop-written (meant x (fuse_option v)) more h.1
extract_loop-written x (other a ∷ more) h =
    other-kept x a (written more) h.0 ∙ extract_loop-written (meant x (other a)) more h.1

-- A command line of `--lower` and `--upper` in either form, `-o jdebug`, other `-o` options and other
-- arguments, which are none of the program's own, sets what each of them means, a later one over an earlier one, and keeps the program's
-- name and all arguments for libfuse in their order.
pub extract_args-written :
    (program : Text) (more : List Argument)
    → All IsMeant more
    → extract_args program (written more)
      ≡ ok (all_meant (record { lower = []; upper = []; debug = false; kept = program ∷ [] }) more)
unfolding extract_args
extract_args-written program more h =
    extract_loop-written (record { lower = []; upper = []; debug = false; kept = program ∷ [] })
      more h
