-- ===== src/Overlay/Tests.antt =====
-- Runs of the overlay on a small disk, whose lower layer has a file "a" and a directory "d".
use jaim.Prelude.{
  false, ℕ, true, List, [], ◌∷◌, Option, none, some, ok, err, ◌≡◌, refl, ap, text_eq, Text, codes,
  arith,
}
use jaim.Overlay.Posix.{FilePath, regular, directory, enoent}
use jaim.Overlay.Resolve.{Overlay, resolve}
use jaim.Overlay.Monad.Steady.{IsPlainAt}
use jaim.Overlay.Monad.{State, attempt, sys}
use jaim.Overlay.Monad.Keeps.{Apart, NoSharing, NoLinks, SameLower}
use jaim.Overlay.Monad.Spares.{IsMarker, last}
use jaim.Overlay.CopyUp.Lower.{IsPlain}
use jaim.Overlay.Whiteout.{ensure_upper_parents, place_whiteout}
use jaim.Overlay.Change.{op_unlink, op_rmdir}
use jaim.Overlay.Read.{op_getattr, op_readdir}
use jaim.Overlay.Removal.{sidecar_of, op_unlink-op_getattr, op_rmdir-op_getattr}
use jaim.Overlay.Session.{Request, make_dir, remove_file, move, set_owner, serve_all}
use jaim.Overlay.Session.Lower.{serve_all-SameLower}
use jaim.Overlay.Lookup.{IsFound, resolve-IsFound}
use jaim.Overlay.Disk.{Disk, node, path_eq, put_at, status_of, perform_on}
use jaim.Overlay.Disk.System.{disk, entries}

abbrev overlay : Overlay
overlay = record {
  os = disk (codes "a" ∷ codes "d" ∷ []);
  upper = codes "u" ∷ [];
  lower = codes "l" ∷ [];
}

abbrev a : FilePath
a = codes "a" ∷ []

abbrev d : FilePath
d = codes "d" ∷ []

unfoldable start_disk : Disk
unfolding put_at
start_disk = put_at (codes "u" ∷ []) (some (node directory 0o755 [])) (
    put_at (codes "l" ∷ []) (some (node directory 0o755 [])) (
      put_at (codes "l" ∷ codes "a" ∷ []) (some (node regular 0o644 (codes "text")))
        (put_at (codes "l" ∷ codes "d" ∷ []) (some (node directory 0o700 [])) (λ p. none))))

abbrev begin : State overlay
begin = record { fs = start_disk; can_mknod_whiteout = true }

abbrev lead : Text → ℕ
lead [] = 0
lead (c ∷ s) = c

abbrev lead_of : FilePath → ℕ
lead_of [] = 0
lead_of (s ∷ p) = lead s

abbrev lead_name : Option Text → ℕ
lead_name none = 0
lead_name (some s) = lead s

layers-Apart : Apart overlay
layers-Apart q r e = let differ = ap lead_of e in absurd (omega arith)

begin-NoSharing : NoSharing overlay begin.fs
begin-NoSharing q r l = l

begin-NoLinks : NoLinks overlay (IsMarker overlay) begin.fs
unfolding start_disk status_of
begin-NoLinks p m (sb, e, k) = ground arith

a-IsPlain : IsPlain overlay a
unfolding last
a-IsPlain = record {
  unmarked = λ (u, (n, e)). let differ = ap lead_name e in absurd (omega arith);
  first = codes "a";
  others = [];
  below_root = refl;
}

b-IsPlain : IsPlain overlay (codes "b" ∷ [])
unfolding last
b-IsPlain = record {
  unmarked = λ (u, (n, e)). let differ = ap lead_name e in absurd (omega arith);
  first = codes "b";
  others = [];
  below_root = refl;
}

abbrev requests : List Request
requests = set_owner a 501 20 ∷ move a (codes "b" ∷ []) ∷ make_dir a 0o755 ∷ remove_file d ∷ []

serve_all-SameLower_example : SameLower overlay begin.fs (serve_all overlay 7 requests begin).fs
serve_all-SameLower_example =
    serve_all-SameLower overlay 7 requests begin layers-Apart begin-NoSharing begin-NoLinks
      (a-IsPlain, ((a-IsPlain, b-IsPlain), (tt, (tt, tt))))

sidecar-IsPlainAt : (n : Text) → IsPlainAt overlay begin.fs (sidecar_of overlay (n ∷ []))
unfolding start_disk status_of put_at path_eq text_eq jaim.Overlay.Whiteout.split
sidecar-IsPlainAt n k odd (sb, e, l) = cc

unlinked : (op_unlink overlay a begin).0 ≡ ok tt
unfolding op_unlink resolve status_of start_disk text_eq ensure_upper_parents place_whiteout attempt
    perform_on sys
unlinked = refl

op_unlink-op_getattr_example : op_getattr overlay (op_unlink overlay a begin).1.fs a ≡ err enoent
op_unlink-op_getattr_example =
    op_unlink-op_getattr overlay (codes "a") [] begin (op_unlink overlay a begin).1
      (sidecar-IsPlainAt (codes "a")) (ap (λ r. (r, (op_unlink overlay a begin).1)) unlinked)

dir_removed : (op_rmdir overlay d begin).0 ≡ ok tt
unfolding op_rmdir resolve status_of start_disk text_eq ensure_upper_parents place_whiteout attempt
    perform_on sys op_readdir entries
dir_removed = refl

op_rmdir-op_getattr_example : op_getattr overlay (op_rmdir overlay d begin).1.fs d ≡ err enoent
op_rmdir-op_getattr_example =
    op_rmdir-op_getattr overlay (codes "d") [] begin (op_rmdir overlay d begin).1
      (sidecar-IsPlainAt (codes "d")) (ap (λ r. (r, (op_rmdir overlay d begin).1)) dir_removed)

resolve-IsFound_example :
    IsFound overlay.os start_disk false overlay.upper overlay.lower a (resolve overlay start_disk a)
resolve-IsFound_example = resolve-IsFound overlay start_disk (codes "a") []
