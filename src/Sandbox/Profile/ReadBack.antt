-- ===== src/Sandbox/Profile/ReadBack.antt =====
-- The rules of a whole profile that `Config::generate_sandbox_profile` of jaim.cc writes are read
-- back.
use jaim.Prelude.{
  ℕ, ◌==◌, Bool, false, List, [], ◌∷◌, ◌++◌, All, All-append, Result, ok, err, ◌>>=◌, Text, codes,
  some, ◌≡◌, refl, Bool-cases, inl, inr, subst,
}
use jaim.Fs.Paths.{join}
use jaim.Sandbox.Escape.{sbpl_regex_escape}
use jaim.Sandbox.Rules.{
  subpath, Access, file_read, file_all, allow, Item, plain, rule, rule_text, Filter,
}
use jaim.Sandbox.Rules.ReadBack.{IsClosed, IsReadable}
use jaim.Sandbox.Rules.ReadRule.{IsRead, read_rule, read_rule-rule_text}
use jaim.Sandbox.Static.{static_items, system_files, device_files, device_items}
use jaim.Sandbox.Profile.{
  Mode, casual, bare, strict, Settings, Fault, masked_in, scoped_rule, emit_home_rule,
  emit_ssh_carveouts, in_set, ssh_items, casual_items, bare_items, home_items, cwd_items,
  directory_items, siblings, file_items, generate_sandbox_profile,
}

IsClosed-append :
    (pending : Bool) (xs : Text) (c : ℕ) (ys : Text)
    → IsClosed (c == b'\\') ys
    → IsClosed pending (xs ++ c ∷ ys)
IsClosed-append pending [] c ys h = h
IsClosed-append pending (x ∷ xs) c ys h = IsClosed-append (x == b'\\') xs c ys h

abbrev IsReadItem : Item → Type 0
IsReadItem (rule r) = IsRead r
IsReadItem (plain s) = Unit {0}

abbrev AreRead : List Item → Type 0
AreRead items = All IsReadItem items

scoped_rule-IsReadItem :
    (a : Access) (base : Text) (ms : List Text) → IsReadItem (scoped_rule a base ms)
unfolding scoped_rule
scoped_rule-IsReadItem a base [] = tt
scoped_rule-IsReadItem a base (m ∷ ms) = tt

emit_ssh_carveouts-AreRead : (ssh : Text) → AreRead (emit_ssh_carveouts ssh)
unfolding emit_ssh_carveouts
emit_ssh_carveouts-AreRead ssh = (
  tt,
  (
    tt,
    (
      tt,
      (
        IsClosed-append false (codes "^" ++ sbpl_regex_escape ssh) b'/' (codes "[^/]+\\.pub$") refl,
        tt,
      ),
    ),
  ),
)

ssh_items-AreRead : (s : Settings) → AreRead (ssh_items s)
unfolding ssh_items
ssh_items-AreRead s = elim (Bool-cases (in_set (codes ".ssh") s.mask_files)) [
  | inl masked ↦ rw masked (
      All-append IsReadItem _ _ (emit_ssh_carveouts-AreRead (join s.homepath (codes ".ssh"))) (
        All-append IsReadItem _ _ (emit_ssh_carveouts-AreRead (join s.overlay_mount (codes ".ssh")))
          (tt, tt)))
  | inr other ↦ rw other tt
]

directory_items-AreRead : (grants : List (Text × ℕ)) → AreRead (directory_items grants)
unfolding directory_items
directory_items-AreRead [] = tt
directory_items-AreRead ((d, flags) ∷ rest) = (tt, directory_items-AreRead rest)

file_items-AreRead : (grants : List (Text × ℕ)) → AreRead (file_items grants)
unfolding file_items siblings
file_items-AreRead [] = tt
file_items-AreRead ((f, flags) ∷ rest) = (
  tt,
  (
    IsClosed-append false (codes "^" ++ sbpl_regex_escape f) b'\\' (codes "..+$") refl,
    file_items-AreRead rest,
  ),
)

device_items-AreRead : (fs : List Filter) → All IsReadable fs → AreRead (device_items fs)
unfolding device_items
device_items-AreRead [] h = tt
device_items-AreRead (f ∷ fs) h = (h.0, device_items-AreRead fs h.1)

system_files-IsReadable : All IsReadable system_files
system_files-IsReadable = search

device_files-IsReadable : All IsReadable device_files
device_files-IsReadable = (tt, (tt, (refl, (tt, tt))))

static_items-AreRead : AreRead static_items
unfolding static_items
static_items-AreRead = (
  tt,
  (
    tt,
    (
      tt,
      (
        system_files-IsReadable,
        (
          tt,
          All-append IsReadItem _ _ (device_items-AreRead device_files device_files-IsReadable)
              (tt, tt),
        ),
      ),
    ),
  ),
)

-- What a part of the profile yields, where it yields items.
abbrev IsReadResult : Result Fault (List Item) → Type 0
IsReadResult (ok items) = AreRead items
IsReadResult (err fault) = Unit {0}

IsReadResult-after :
    (r : Result Fault (Unit {0})) (next : Result Fault (List Item))
    → IsReadResult next
    → IsReadResult (r >>= λ u. next)
IsReadResult-after (ok tt) next h = h
IsReadResult-after (err fault) next h = tt

IsReadResult-bind :
    (r : Result Fault (List Item)) (f : List Item → Result Fault (List Item))
    → IsReadResult r
    → ((items : List Item) → AreRead items → IsReadResult (f items))
    → IsReadResult (r >>= f)
IsReadResult-bind (ok items) f h k = k items h
IsReadResult-bind (err fault) f h k = tt

casual-AreRead :
    (s : Settings)
    → AreRead (
        emit_home_rule s.mask_files file_read s.homepath
        ∷ emit_home_rule s.mask_files file_all s.overlay_mount
        ∷ plain (codes "\n")
        ∷ ssh_items s)
unfolding emit_home_rule
casual-AreRead s = (
  scoped_rule-IsReadItem file_read s.homepath (masked_in s.homepath s.mask_files),
  (
    scoped_rule-IsReadItem file_all s.overlay_mount (masked_in s.overlay_mount s.mask_files),
    (tt, ssh_items-AreRead s),
  ),
)

bare-AreRead :
    (home : Text) → AreRead (rule (allow file_all (subpath home)) ∷ plain (codes "\n") ∷ [])
bare-AreRead home = (tt, (tt, tt))

cwd-AreRead : (c : Text) (ms : List Text) → AreRead (scoped_rule file_all c ms ∷ [])
cwd-AreRead c ms = (scoped_rule-IsReadItem file_all c ms, tt)

home_items-IsReadResult : (mode : Mode) (s : Settings) → IsReadResult (home_items mode s)
unfolding casual_items bare_items
home_items-IsReadResult casual s = search (IsReadResult-after, casual-AreRead s)
home_items-IsReadResult bare s = search (IsReadResult-after, bare-AreRead s.private_home)
home_items-IsReadResult strict s = tt

cwd_items-IsReadResult : (s : Settings) → IsReadResult (cwd_items s)
unfolding cwd_items
cwd_items-IsReadResult s = elim (Bool-cases s.grant_cwd) [
  | inl granted ↦ rw granted (search (IsReadResult-after, cwd-AreRead s.cwd))
  | inr refused ↦ rw refused tt
]

profile-AreRead :
    (s : Settings) (home current : List Item)
    → AreRead home
    → AreRead current
    → AreRead (
        static_items
        ++ ((rule (allow file_all (subpath s.private_tmp)) ∷ plain (codes "\n") ∷ [])
            ++ (home
                ++ (current ++ (directory_items s.grant_directories ++ file_items s.grant_files)))))
profile-AreRead s home current h k = All-append IsReadItem _ _ static_items-AreRead (
  tt,
  (
    tt,
    All-append IsReadItem _ _ h (
        All-append IsReadItem _ _ k (
          All-append IsReadItem _ _ (directory_items-AreRead s.grant_directories)
            (file_items-AreRead s.grant_files))),
  ),
)

generate_sandbox_profile-AreRead : (s : Settings) → IsReadResult (generate_sandbox_profile s)
unfolding generate_sandbox_profile
generate_sandbox_profile-AreRead s = search (
  IsReadResult-after, IsReadResult-bind, home_items-IsReadResult, cwd_items-IsReadResult,
  profile-AreRead,
)

-- What an item's text reads back as, whatever follows it.
abbrev pub ReadsBack : Text → Item → Type 0
ReadsBack rest (rule r) = read_rule (rule_text r ++ rest) ≡ some (r, rest)
ReadsBack rest (plain s) = Unit {0}

All-ReadsBack : (rest : Text) (items : List Item) → AreRead items → All (ReadsBack rest) items
All-ReadsBack rest [] h = tt
All-ReadsBack rest (rule r ∷ items) h =
    (read_rule-rule_text r rest h.0, All-ReadsBack rest items h.1)
All-ReadsBack rest (plain s ∷ items) h = (tt, All-ReadsBack rest items h.1)

-- Where generate_sandbox_profile writes a profile, the text of each of its rules, whatever follows
-- it, reads back as that rule with the rest left over, so no path in a rule can end its literal or
-- add a rule.
pub generate_sandbox_profile-ReadsBack :
    (s : Settings) (items : List Item) (rest : Text)
    → generate_sandbox_profile s ≡ ok items
    → All (ReadsBack rest) items
generate_sandbox_profile-ReadsBack s items rest e =
    All-ReadsBack rest items (subst (IsReadResult) e (generate_sandbox_profile-AreRead s))
