-- ===== src/Options/Tests.antt =====
-- Runs of the option parser, whose actions write what they are given to a list.
use jaim.Prelude.{
  ◌≡◌, refl, true, List, [], ◌∷◌, ◌++◌, ok, err, Text, codes, text_eq, contains_byte, All,
  if◌then◌else◌,
}
use jaim.Options.Action.{Actions, plain, with_arg, with_opt_arg}
use jaim.Options.Scan.{scan_args}
use jaim.Options.Scan.Sound.{Listed, scan_args-Listed}
use jaim.Options.Complete.{complete_args}
use jaim.Options.Complete.Extends.{Extends, complete_args-Extends}
use jaim.Options.Parse.{parse_argspan}
use jaim.Options.Parse.Safe.{IsSafe, parse_argspan-IsSafe}
use jaim.Options.File.{parse_file}
use jaim.Options.File.Entries.{Entry, IsName, format}
use jaim.Options.File.RoundTrip.{run_entries, parse_file-format}

abbrev actions : Actions (List Text) Text
actions =
    (codes "--conf", with_arg (λ v s. ok (s ++ v ∷ [])))
    ∷ (
      codes "--mode",
      with_opt_arg (λ s. ok s) (λ v s. if text_eq v (codes "bad") then err v else ok (s ++ v ∷ [])),
    )
    ∷ (codes "-v", plain (λ s. ok (codes "v" ∷ s)))
    ∷ []

abbrev arguments : List Text
arguments = codes "-vv" ∷ codes "--conf" ∷ codes "x" ∷ codes "--mode=bad" ∷ codes "rest" ∷ []

scan_args-Listed_example : All Listed (scan_args actions arguments).scan
scan_args-Listed_example = scan_args-Listed actions arguments

parse_argspan-IsSafe_example : IsSafe (parse_argspan actions arguments [])
parse_argspan-IsSafe_example = parse_argspan-IsSafe actions arguments []

abbrev file : List Entry
file =
    record { name = codes "conf"; value = codes "a b\\" }
    ∷ record { name = codes "mode"; value = codes "bad" }
    ∷ []

file-HasNames : All (λ e. IsName e.name) file
unfolding contains_byte
file-HasNames =
    ((refl, refl, (refl, (refl, (refl, tt)))), ((refl, refl, (refl, (refl, (refl, tt)))), tt))

parse_file-format_example :
    parse_file (λ e. true) true actions (format file) []
    ≡ run_entries (λ e. true) true actions 1 file []
parse_file-format_example = parse_file-format (λ e. true) true actions file [] file-HasNames

complete_args-Extends_example :
    Extends (codes "--conf=x") (complete_args actions 1 (codes "-v" ∷ []) (codes "--conf=x"))
complete_args-Extends_example = complete_args-Extends actions 1 (codes "-v" ∷ []) (codes "--conf=x")
