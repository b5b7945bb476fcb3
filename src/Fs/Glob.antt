-- ===== src/Fs/Glob.antt =====
-- `glob` of fs.cc: wildcard patterns over the names of environment variables.
pub mod Meaning
use jaim.Prelude.{ℕ, Bool, false, ◌&&◌, ◌||◌, [], ◌∷◌, ◌==◌, if◌then◌else◌, Text, is_empty}

-- The last return: the first bytes agree, and `rest` accepts what follows.
abbrev literal_byte : ℕ → (Text → Bool) → Text → Bool
literal_byte c rest [] = false
literal_byte c rest (x ∷ t) = c == x && rest t

-- The branch of `*`: `rest` is the match of the pattern behind it.
star : (Text → Bool) → Text → Bool
star rest [] = rest [] || false
star rest (x ∷ t) = rest (x ∷ t) || star rest t

unfoldable pub glob : Text → Text → Bool
unfolding star
glob [] t = is_empty t
glob (c ∷ []) t =
    if c == b'\\' then false else if c == b'*' then star (glob []) t else literal_byte c (glob []) t
glob (c ∷ d ∷ p) t =
    if c == b'\\'
    then literal_byte d (glob p) t
    else if c == b'*'
    then star (glob (d ∷ p)) t
    else literal_byte c (glob (d ∷ p)) t
