-- ===== src/Fs/Tests.antt =====
-- Runs of the glob patterns.
use jaim.Fs.Paths.Order.{contains-between}
use jaim.Fs.Paths.{join, contains, elements, path_less}
use jaim.Prelude.{[], ◌∷◌, ◌≡◌, refl, ◌↔◌, true, false, codes}
use jaim.Fs.Glob.{glob}
use jaim.Fs.Glob.Meaning.{Accepts, tokens, glob-Accepts}

wildcard_in_the_middle : glob (codes "SSH_*_PID") (codes "SSH_AGENT_PID") ≡ true
unfolding glob
wildcard_in_the_middle = refl

-- A pattern that ends in a backslash which escapes nothing matches nothing.
trailing_backslash : glob (codes "A\\") (codes "A") ≡ false
unfolding glob
trailing_backslash = refl

glob-Accepts_example :
    (glob (codes "LC_*") (codes "LC_ALL") ≡ true) ↔ Accepts (tokens (codes "LC_*")) (codes "LC_ALL")
glob-Accepts_example = glob-Accepts (codes "LC_*") (codes "LC_ALL")

elements_example : elements (codes "/a//b/") ≡ codes "/" ∷ codes "a" ∷ codes "b" ∷ [] ∷ []
unfolding elements jaim.Fs.Paths.relative_elements jaim.Fs.Paths.names jaim.Fs.Paths.segments
elements_example = refl

join_example : join (codes "/h") (codes ".ssh") ≡ codes "/h/.ssh"
unfolding join jaim.Fs.Paths.has_filename
join_example = refl

below_first : contains (codes "/a") (codes "/a/b") ≡ true
unfolding contains jaim.Fs.Paths.is_prefix elements jaim.Prelude.text_eq
    jaim.Fs.Paths.relative_elements jaim.Fs.Paths.names jaim.Fs.Paths.segments
below_first = refl

below_last : contains (codes "/a") (codes "/a/d") ≡ true
unfolding contains jaim.Fs.Paths.is_prefix elements jaim.Prelude.text_eq
    jaim.Fs.Paths.relative_elements jaim.Fs.Paths.names jaim.Fs.Paths.segments
below_last = refl

not_before : path_less (codes "/a/c") (codes "/a/b") ≡ false
unfolding path_less jaim.Fs.Paths.elements_less jaim.Fs.Paths.element_less elements
    jaim.Fs.Paths.text_less jaim.Fs.Paths.relative_elements jaim.Fs.Paths.names
    jaim.Fs.Paths.segments
not_before = refl

not_behind : path_less (codes "/a/d") (codes "/a/c") ≡ false
unfolding path_less jaim.Fs.Paths.elements_less jaim.Fs.Paths.element_less elements
    jaim.Fs.Paths.text_less jaim.Fs.Paths.relative_elements jaim.Fs.Paths.names
    jaim.Fs.Paths.segments
not_behind = refl

contains-between_example : contains (codes "/a") (codes "/a/c") ≡ true
contains-between_example =
    contains-between (codes "/a") (codes "/a/b") (codes "/a/c") (codes "/a/d") below_first
      below_last not_before not_behind
