-- ===== src/Config/Environment/Lookup.antt =====
-- Which variables `make_env` passes on.
use jaim.Prelude.{
  Bool, true, false, ◌||◌, List, [], ◌∷◌, Option, none, some, ◌≡◌, refl, sym, ap, ◌∙◌,
  if◌then◌else◌, Text, text_eq, text_eq_iff, contains_byte, split_at, Bool-cases, Option-cases, inl,
  inr, arith,
}
use jaim.Fs.Glob.{glob}
use jaim.Config.Environment.{
  Variables, find, put, put_new, is_filtered, environ_loop, Environment, make_env, unset, emplace,
  drop_matching,
}

pub find-put :
    (k x v : Text) (m : Variables) → find x (put k v m) ≡ (if text_eq k x then some v else find x m)
unfolding find put
find-put k x v [] = refl
find-put k x v ((y, w) ∷ m) =
    ground (arith, find-put k x v m, text_eq_iff y k, text_eq_iff y x, text_eq_iff k x)

-- The first of two values that is there.
abbrev pub or_else : Option Text → Option Text → Option Text
or_else (some v) o = some v
or_else none o = o

-- The first entry of the parent's environment that has a name.
unfoldable pub named : Text → List Text → Option Text
named k [] = none
named k (entry ∷ environ) = elim (split_at b'=' entry) [
  | none ↦ named k environ
  | some (name, v) ↦ if text_eq name k then some entry else named k environ
]

find-put_new :
    (k x v : Text) (m : Variables)
    → find x (put_new k v m) ≡ or_else (find x m) (if text_eq k x then some v else none)
unfolding put_new
find-put_new k x v m = elim (Bool-cases (text_eq k x)) [
  | inl e ↦ ground (arith, find-put k x v m, ap (λ y. find y m) ((text_eq_iff k x).0 e))
  | inr e ↦ ground (arith, find-put k x v m)
]

find-kept :
    (b : Bool) (name entry : Text) (m : Variables) (k : Text)
    → find k (if b then m else put_new name entry m)
      ≡ or_else (find k m) (if b then none else if text_eq name k then some entry else none)
find-kept true name entry m k = ground arith
find-kept false name entry m k = find-put_new name k entry m

find-entry :
    (patterns : List Text) (name entry k : Text) (found later seen : Option Text)
    → seen
      ≡ or_else found
          (if is_filtered patterns name then none else if text_eq name k then some entry else none)
    → or_else seen (if is_filtered patterns k then none else later)
      ≡ or_else found
          (if is_filtered patterns k then none else if text_eq name k then some entry else later)
find-entry patterns name entry k found later seen e = elim (Bool-cases (text_eq name k)) [
  | inl same ↦ ground (arith, ap (is_filtered patterns) ((text_eq_iff name k).0 same))
  | inr differ ↦ ground arith
]

find-environ_loop :
    (patterns environ : List Text) (m : Variables) (k : Text)
    → find k (environ_loop patterns environ m)
      ≡ or_else (find k m) (if is_filtered patterns k then none else named k environ)
unfolding environ_loop named
find-environ_loop patterns [] m k = ground arith
find-environ_loop patterns (entry ∷ environ) m k = elim (Option-cases (split_at b'=' entry)) [
  | inl e ↦ rw (e, environ_loop, named) (find-environ_loop patterns environ m k)
  | inr (nv, e) ↦
      rw (e, environ_loop, named)
        (let m' = if is_filtered patterns nv.0 then m else put_new nv.0 entry m in
          find-environ_loop patterns environ m' k
          ∙ find-entry patterns nv.0 entry k (find k m) (named k environ) (find k m')
              (find-kept (is_filtered patterns nv.0) nv.0 entry m k))
]

-- `make_env` passes a variable on as it has been set, or else, unless the filter has its name or a
-- pattern that matches it, as the first entry of the parent's environment that has its name.
pub find-make_env :
    (e : Environment) (environ : List Text) (k : Text)
    → find k (make_env e environ)
      ≡ or_else (find k e.setenv) (if is_filtered e.env_filter k then none else named k environ)
unfolding make_env
find-make_env e environ k = find-environ_loop e.env_filter environ e.setenv k

-- A pattern without a star and without a backslash stands for itself.
glob-plain :
    (p t : Text)
    → contains_byte b'*' p ≡ false
    → contains_byte b'\\' p ≡ false
    → glob p t ≡ text_eq p t
unfolding glob contains_byte text_eq
glob-plain [] [] h k = refl
glob-plain [] (x ∷ t) h k = refl
glob-plain (c ∷ []) [] h k = ground arith
glob-plain (c ∷ []) (x ∷ t) h k = ground (arith, glob-plain [] t refl refl)
glob-plain (c ∷ d ∷ p) [] h k = ground arith
glob-plain (c ∷ d ∷ p) (x ∷ t) h k =
    ground (arith, glob-plain (d ∷ p) t (ground arith) (ground arith))

find-drop_matching :
    (pattern : Text) (m : Variables) (k : Text)
    → glob pattern k ≡ true
    → find k (drop_matching pattern m) ≡ none
unfolding find drop_matching
find-drop_matching pattern [] k h = refl
find-drop_matching pattern ((x, v) ∷ m) k h = elim (Bool-cases (text_eq x k)) [
  | inl same ↦
      ground (arith, find-drop_matching pattern m k h, ap (glob pattern) ((text_eq_iff x k).0 same))
  | inr differ ↦ ground (arith, find-drop_matching pattern m k h)
]

is_filtered-emplace :
    (p : Text) (s : List Text) (k : Text)
    → (if contains_byte b'*' p then glob p k else text_eq p k) ≡ true
    → is_filtered (emplace p s) k ≡ true
unfolding is_filtered emplace
is_filtered-emplace p [] k h = ground arith
is_filtered-emplace p (x ∷ s) k h = elim (Bool-cases (text_eq x p)) [
  | inl same ↦ rw same (
      ap (λ y. (if contains_byte b'*' y then glob y k else text_eq y k) || is_filtered s k)
        ((text_eq_iff x p).0 same)
      ∙ ground arith)
  | inr differ ↦ ground (arith, is_filtered-emplace p s k h)
]

-- After `--unsetenv` of a name or a pattern that holds no backslash, `make_env` passes no variable on
-- that it matches, whatever had been set and whatever the parent's environment holds.
pub find-unset :
    (var : Text) (e : Environment) (environ : List Text) (k : Text)
    → contains_byte b'\\' var ≡ false
    → glob var k ≡ true
    → find k (make_env (unset var e) environ) ≡ none
unfolding unset
find-unset var e environ k plain h =
    let hidden =
      is_filtered-emplace var e.env_filter k (elim (Bool-cases (contains_byte b'*' var)) [
        | inl star ↦ rw star h
        | inr none_of_it ↦ rw none_of_it (sym (glob-plain var k none_of_it plain) ∙ h)
      ]) in
    find-make_env
      (record { env_filter = emplace var e.env_filter; setenv = drop_matching var e.setenv })
      environ k
    ∙ ground (arith, find-drop_matching var e.setenv k h, hidden)
