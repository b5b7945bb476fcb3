-- ===== src/Sandbox/Helper/Tests.antt =====
-- A run of the search, for a program that the shell has found on PATH.
use jaim.Prelude.{Text, Bool, [], some, codes, text_eq, ◌≡◌, refl, Option}
use jaim.Sandbox.Helper.{find_overlay_helper}

abbrev installed : Text → Bool
installed p = text_eq p (codes "/usr/bin/jaim-overlay")

abbrev no_parent : Text → Text
no_parent p = []

found :
    find_overlay_helper installed no_parent (codes "jaim") (some (codes "/bin::/usr/bin"))
    ≡ some (codes "/usr/bin/jaim-overlay")
unfolding find_overlay_helper text_eq jaim.Fs.Paths.join jaim.Fs.Paths.has_filename
    jaim.Sandbox.Helper.path_loop jaim.Prelude.split_at
found = refl

-- With no slash in the program's name, a helper of the current directory comes first.
from_current :
    find_overlay_helper
      (λ p. text_eq p (codes "jaim-overlay"))
      no_parent
      (codes "jaim")
      (some (codes "/bin"))
    ≡ some (codes "jaim-overlay")
unfolding find_overlay_helper text_eq jaim.Fs.Paths.join jaim.Fs.Paths.has_filename
from_current = refl
