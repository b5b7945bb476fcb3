-- ===== src/Overlay/Start/Tests.antt =====
-- Runs of the overlay's command line.
use jaim.Prelude.{
  Bool, true, false, if◌then◌else◌, List, [], ◌∷◌, ◌++◌, ◌≢◌, Text, Option, some, ok, ◌≡◌, refl,
  codes, All, text_eq, starts_with,
}
use jaim.Overlay.Posix.{FilePath}
use jaim.Overlay.Start.{Extracted, extract_args, is_nested, start}
use jaim.Overlay.Start.Arguments.{
  Argument, lower_is, upper_next, fuse_option, debugging, other, IsMeant, written, all_meant,
  extract_args-written,
}
use jaim.Overlay.Start.Apart.{render}
use jaim.Overlay.Start.Checked.{IsReal, start-IsChecked}

abbrev line : List Argument
line =
    lower_is (codes "/Users/a")
    ∷ upper_next (codes "/tmp/c")
    ∷ fuse_option (codes "ro")
    ∷ debugging
    ∷ other (codes "/mnt")
    ∷ []

line-IsMeant : All IsMeant line
unfolding starts_with text_eq
line-IsMeant = (tt, (tt, ((refl, refl), (tt, (refl, tt)))))

extract_args-written_example :
    extract_args (codes "jaim-overlay") (written line)
    ≡ ok (
        all_meant
          (record { lower = []; upper = []; debug = false; kept = codes "jaim-overlay" ∷ [] })
          line)
extract_args-written_example = extract_args-written (codes "jaim-overlay") line line-IsMeant

not_nested :
    is_nested (render (codes "a" ∷ codes "b" ∷ [])) (render (codes "a" ∷ codes "bc" ∷ [])) ≡ false
unfolding is_nested render starts_with text_eq
not_nested = refl

-- The root is not found to have the other layer below it.
root_is_missed : is_nested (codes "/Users") (codes "/") ≡ false
unfolding is_nested starts_with text_eq
root_is_missed = refl

-- A system where /Users/link is a symbolic link to /Users/a.
abbrev real : Text → Option Text
real p = if text_eq p (codes "/Users/link") then some (codes "/Users/a") else some p

abbrev all : Text → Bool
all p = true

abbrev linked : List Text
linked = codes "--lower=/Users/link" ∷ codes "--upper=/tmp/c" ∷ codes "/mnt" ∷ []

abbrev home_dir : FilePath
home_dir = codes "Users" ∷ codes "a" ∷ []

abbrev changes_dir : FilePath
changes_dir = codes "tmp" ∷ codes "c" ∷ []

is_mounted :
    start real all all (codes "jaim-overlay") linked ≡ ok (render home_dir, render changes_dir)
unfolding start render starts_with text_eq
is_mounted = refl

start-IsChecked_example :
    ((x : Extracted) × (extract_args (codes "jaim-overlay") linked ≡ ok x)
      × IsReal real all all x (codes "/Users/a") (codes "/tmp/c"))
    × ((q r : FilePath) → changes_dir ++ q ≢ home_dir ++ r)
unfolding render
start-IsChecked_example =
    start-IsChecked real all all (codes "jaim-overlay") linked home_dir changes_dir is_mounted
