-- ===== src/Acl/Walk.antt =====
-- Which files `apply_recursive` and `remove_recursive` of acl.cc change.
use jaim.Prelude.{
  ℕ, suc, ◌==◌, Bool, true, false, ◌||◌, if◌then◌else◌, List, length, Result, ok, err, ◌≡◌, ◌⊎◌,
  inl, inr, refl, sym, ap, subst, ◌∙◌, arith, Bool-cases, Text,
}
use jaim.Acl.Removing.{IsSwept, IsRemoved, do_remove_user_entries-IsRemoved, sweep-IsSwept}
use jaim.Prelude.Stateful.{◌>>=◌, feed}
use jaim.Fs.Paths.{join}
use jaim.Acl.System.{
  list, null, AclSystem, Entry, Answer, entries_of, Tree, gone, link, file, closed_directory,
  directory, Entries, nothing, entry, EntryType,
}
use jaim.Acl.Removing.{others-others, others}
use jaim.Acl.{
  sweep, get_failed, write_back, enoent, write_acl, lift_set, AclAct, Fault, walk_tree,
  walk_entries, warn_only, is_dots, is_symlink, do_remove_user_entries, remove_recursive,
}

-- The files and directories of a tree that can be reached without going through a symbolic link:
-- the path of each, and whether it is a directory.
mutual
  pub data Reached : Text → Tree → Text → Bool → Type 0 where
    at_file : (p : Text) → Reached p file p false
    at_closed : (p : Text) → Reached p closed_directory p true
    at_directory : (p : Text) (es : Entries) → Reached p (directory es) p true
    below :
        {p : Text} {es : Entries} {q : Text} {d : Bool}
        → ReachedIn p es q d
        → Reached p (directory es) q d

  pub data ReachedIn : Text → Entries → Text → Bool → Type 0 where
    first :
        {p name : Text} {type : EntryType} {tree : Tree} {rest : Entries} {q : Text} {d : Bool}
        → (is_dots name || is_symlink type tree) ≡ false
        → Reached (join p name) tree q d
        → ReachedIn p (entry name type tree rest) q d
    later :
        {p name : Text} {type : EntryType} {tree : Tree} {rest : Entries} {q : Text} {d : Bool}
        → ReachedIn p rest q d
        → ReachedIn p (entry name type tree rest) q d

module _ (sys : AclSystem) (fn : Text → Bool → AclAct sys (Unit {0})) (P : sys.Files → Type 0) where
  skipped :
      (b : Bool) (fs walked : sys.Files)
      → P fs
      → (b ≡ false → P walked)
      → P (if b then fs else walked)
  skipped true fs walked k h = k
  skipped false fs walked k h = h refl

  mutual
    unfolding walk_tree walk_entries warn_only

    keep_tree :
        (p : Text) (tree : Tree)
        → ((q : Text) (d : Bool) → Reached p tree q d → (fs : sys.Files) → P fs → P (fn q d fs).1)
        → (fs : sys.Files) → P fs
        → P (walk_tree sys fn p tree fs)
    keep_tree p gone h fs k = k
    keep_tree p link h fs k = k
    keep_tree p file h fs k = h p false (at_file p) fs k
    keep_tree p closed_directory h fs k = h p true (at_closed p) fs k
    keep_tree p (directory es) h fs k =
        keep_entries p es (λ q d r. h q d (below r)) _ (h p true (at_directory p es) fs k)

    keep_entries :
        (p : Text) (es : Entries)
        → ((q : Text) (d : Bool) → ReachedIn p es q d → (fs : sys.Files) → P fs → P (fn q d fs).1)
        → (fs : sys.Files) → P fs
        → P (walk_entries sys fn p es fs)
    keep_entries p nothing h fs k = k
    keep_entries p (entry name type tree rest) h fs k =
        keep_entries p rest (λ q d r. h q d (later r)) _
          (skipped (is_dots name || is_symlink type tree) fs _ k
            (λ e. keep_tree (join p name) tree (λ q d r. h q d (first e r)) fs k))

  -- Whatever `fn` keeps of the files when it is called on a file or a directory that is reached
  -- without going through a symbolic link, with its right kind, the walk of a tree keeps, whether
  -- or not `fn` throws: the walk calls `fn` on nothing else.
  pub walk_tree-keeps :
      (p : Text) (tree : Tree)
      → ((q : Text) (d : Bool) → Reached p tree q d → (fs : sys.Files) → P fs → P (fn q d fs).1)
      → (fs : sys.Files) → P fs
      → P (walk_tree sys fn p tree fs)
  walk_tree-keeps = keep_tree

module _ (sys : AclSystem) (target : ℕ)
    (works : (q : Text) (fs : sys.Files) → (do_remove_user_entries sys q target fs).0 ≡ ok tt) where
  abbrev pub IsClean : Text → sys.Files → Type 0
  IsClean q fs = others target (entries_of (sys.get_file fs q)) ≡ entries_of (sys.get_file fs q)

  IsClean-of_removed :
      (q : Text) (l : List Entry) (fs : sys.Files)
      → entries_of (sys.get_file fs q) ≡ others target l
      → IsClean q fs
  IsClean-of_removed q l fs e = ap (others target) e ∙ others-others target l ∙ sym e

  removed_ok :
      (q : Text) (fs : sys.Files) (r : Result Fault (Unit {0}) × sys.Files)
      → IsRemoved sys q target fs r
      → r.0 ≡ ok tt
      → IsClean q r.1
  removed_ok q fs (ok u, after) h e = IsClean-of_removed q _ after h
  removed_ok q fs (err f, after) h e = cc

  makes-IsClean : (q : Text) (fs : sys.Files) → IsClean q (do_remove_user_entries sys q target fs).1
  makes-IsClean q fs =
      removed_ok q fs _ (do_remove_user_entries-IsRemoved sys q target fs) (works q fs)

  -- A list without the target's entries is written, or nothing.
  abbrev IsWrite : Text → sys.Files → sys.Files → Type 0
  IsWrite r fs after =
      (after ≡ fs) ⊎ ((l : List Entry) × (sys.set_file r (others target l) fs ≡ ok after))

  abbrev IsWritten : Text → sys.Files → Result Fault (Unit {0}) × sys.Files → Type 0
  IsWritten r fs o = IsWrite r fs o.1

  IsWrite-set :
      (r : Text) (l : List Entry) (fs : sys.Files) (o : Result ℕ sys.Files)
      → sys.set_file r (others target l) fs ≡ o
      → IsWrite r fs (lift_set sys r fs o).1
  IsWrite-set r l fs (ok after) e = inr (l, e)
  IsWrite-set r l fs (err n) e = inl refl

  IsWrite-swept :
      (r : Text) (l : List Entry) (fs : sys.Files) (o : Result Fault (List Entry × Bool))
      → IsSwept sys target l false o
      → IsWrite r fs (feed (o, fs) (write_back sys r)).1
  unfolding write_acl
  IsWrite-swept r l fs (err e) h = inl refl
  IsWrite-swept r l fs (ok (m, false)) h = inl refl
  IsWrite-swept r l fs (ok (m, true)) h = rw (h.0) (IsWrite-set r l fs _ refl)

  IsWrite-answer :
      (r : Text) (fs : sys.Files) (a : Answer)
      → IsWritten r fs (elim a [
        | null e ↦ if e == enoent || e == 0 then (ok tt, fs) else (err (get_failed r e), fs)
        | list l ↦ ((λ s. (sweep sys (suc (length l)) target l false, s)) >>= write_back sys r) fs
      ])
  IsWrite-answer r fs (list l) =
      IsWrite-swept r l fs _ (sweep-IsSwept sys (suc (length l)) target l false (omega arith))
  IsWrite-answer r fs (null e) = elim (Bool-cases (e == enoent || e == 0)) [
    | inl none_yet ↦ rw none_yet (inl refl)
    | inr broken ↦ rw broken (inl refl)
  ]

  IsClean-written :
      (q r : Text) (fs after : sys.Files) → IsClean q fs → IsWrite r fs after → IsClean q after
  IsClean-written q r fs after h (inl same) = subst (IsClean q) (sym same) h
  IsClean-written q r fs after h (inr (l, e)) =
      elim (sys.get_file-other r q (others target l) fs after e) [
        | inl same ↦ subst (λ a. others target (entries_of a) ≡ entries_of a) (sym same) h
        | inr alias ↦ IsClean-of_removed q l after alias
      ]

  pub keeps-IsClean :
      (q r : Text) (fs : sys.Files)
      → IsClean q fs
      → IsClean q (do_remove_user_entries sys r target fs).1
  unfolding do_remove_user_entries
  keeps-IsClean q r fs h = IsClean-written q r fs _ h (IsWrite-answer r fs (sys.get_file fs r))

  abbrev removing : Text → Bool → AclAct sys (Unit {0})
  removing q d = do_remove_user_entries sys q target

  mutual
    unfolding walk_tree walk_entries warn_only

    cleans_tree :
        {p : Text} {tree : Tree} {q : Text} {d : Bool}
        → Reached p tree q d
        → (fs : sys.Files) → IsClean q (walk_tree sys removing p tree fs)
    cleans_tree (at_file p) fs = makes-IsClean p fs
    cleans_tree (at_closed p) fs = makes-IsClean p fs
    cleans_tree (at_directory p es) fs =
        keep_entries sys removing (IsClean p) p es (λ q d r s k. keeps-IsClean p q s k) _
          (makes-IsClean p fs)
    cleans_tree (below r) fs = cleans_entries r _

    cleans_entries :
        {p : Text} {es : Entries} {q : Text} {d : Bool}
        → ReachedIn p es q d
        → (fs : sys.Files) → IsClean q (walk_entries sys removing p es fs)
    cleans_entries (first {p = p} {rest = rest} {q = q} e r) fs = rw e (
        keep_entries sys removing (IsClean q) p rest (λ t d r s k. keeps-IsClean q t s k) _
          (cleans_tree r fs))
    cleans_entries (later r) fs = cleans_entries r _

  -- Where the calls on single files return, `remove_recursive` leaves none of the user's entries on
  -- any file or directory of the tree that is reached without going through a symbolic link, also
  -- where a file has several paths.
  pub remove_recursive-IsClean :
      (p : Text) (tree : Tree) (uid : ℕ) (q : Text) (d : Bool) (fs : sys.Files)
      → sys.uid_to_uuid uid ≡ ok target
      → Reached p tree q d
      → IsClean q (remove_recursive sys p tree uid fs).1
  unfolding remove_recursive
  remove_recursive-IsClean p tree uid q d fs user r = rw user (cleans_tree r fs)
