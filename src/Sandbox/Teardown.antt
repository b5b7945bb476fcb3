-- ===== src/Sandbox/Teardown.antt =====
-- `Config::teardown` of jaim.cc, which `jaim -u` runs: it removes what jails have left.
pub mod System
pub mod Names
pub mod Spared
mod Tests
use jaim.Prelude.{
  ℕ, ◌==◌, ◌-◌, Bool, true, false, not, ◌&&◌, ◌||◌, if◌then◌else◌, List, [], ◌∷◌, ◌++◌, is_empty,
  length, take, Option, none, some, Result, ok, err, Text, codes, text_eq, starts_with,
}
use jaim.Prelude.Stateful.{Act, ◌>>=◌, ◌>>◌, pure, throw}
use jaim.Fs.Paths.{join, cat}
use jaim.Fs.Maps.{set_emplace}
use jaim.Config.Files.{ends_with}
use jaim.Sandbox.Teardown.System.{
  DirKind, dir_kind, unknown, other_kind, OpenedDir, owned_by, absent, failed, TeardownSystem,
}

pub data Fault : Type 0 where
  not_owned : Text → ℕ → Fault
  no_open : Text → ℕ → Fault
  no_state_dir : ℕ → Fault

-- The fields of `Config` that it reads.
pub record Jail : Type 0 where
  pub sandbox_name : Text
  pub homejaimpath : Text
  pub user : ℕ

abbrev pub mount_suffix : Text
mount_suffix = codes ".mount"

abbrev pub home_suffixes : List Text
home_suffixes = codes ".home" ∷ []

abbrev pub overlay_suffixes : List Text
overlay_suffixes = mount_suffix ∷ codes ".changes" ∷ []

-- The name of the jail that an entry belongs to, by the first suffix that fits.
unfoldable pub base_name : List Text → Text → Option Text
base_name [] nm = none
base_name (s ∷ suffixes) nm =
    let later = base_name suffixes nm in
    if ends_with s nm then some (take (length nm - length s) nm) else later

abbrev pub may_be_dir : DirKind → Bool
may_be_dir dir_kind = true
may_be_dir unknown = true
may_be_dir other_kind = false

abbrev pub is_self_or_parent : Text → Bool
is_self_or_parent nm = text_eq nm (codes ".") || text_eq nm (codes "..")

abbrev pub add_name : Option Text → List Text → List Text
add_name none names = names
add_name (some n) names = set_emplace n names

unfoldable pub collect : List Text → List (Text × DirKind) → List Text → List Text
collect suffixes [] names = names
collect suffixes ((nm, kind) ∷ entries) names = collect suffixes entries (
    if is_self_or_parent nm || not (may_be_dir kind)
    then names
    else add_name (base_name suffixes nm) names)

module _ (sys : TeardownSystem) where
  abbrev pub is_crossed : Option ℕ → Option ℕ → Bool
  is_crossed none d = false
  is_crossed (some c) none = false
  is_crossed (some c) (some d) = not (c == d)

  abbrev pub detached : Text → sys.World → sys.World
  detached full w =
      if (sys.unmount false full w).0
      then (sys.unmount false full w).1
      else (sys.unmount true full (sys.unmount false full w).1).1

  unfoldable pub detach : Text → Text → sys.World → sys.World
  detach suffix full w =
      if text_eq suffix mount_suffix && is_crossed (sys.device full w) (sys.parent_device full w)
      then detached full w
      else w

  unfoldable pub remove_one : Text → Text → Text → sys.World → sys.World
  remove_one root name suffix w =
      let full = join root (cat name suffix) in sys.remove_all full (detach suffix full w)

  unfoldable pub remove_suffixes : Text → Text → List Text → sys.World → sys.World
  remove_suffixes root name [] w = w
  remove_suffixes root name (s ∷ suffixes) w =
      remove_suffixes root name suffixes (remove_one root name s w)

  unfoldable pub remove_names : Text → List Text → List Text → sys.World → sys.World
  remove_names root [] suffixes w = w
  remove_names root (n ∷ names) suffixes w =
      remove_names root names suffixes (remove_suffixes root n suffixes w)

  abbrev pub listed : List Text → Option (List (Text × DirKind)) → List Text
  listed suffixes none = []
  listed suffixes (some entries) = collect suffixes entries []

  unfoldable pub sweep_root : Text → Text → List Text → sys.World → sys.World
  sweep_root name root suffixes w =
      if is_empty name
      then remove_names root (listed suffixes (sys.list_dir root w)) suffixes w
      else remove_suffixes root name suffixes w

  abbrev pub TeardownAct : Type 0 → Type 0
  TeardownAct A = Act sys.World Fault A

  -- `check_user`, and the sweep of a directory that is there.
  abbrev pub sweep_opened : Jail → Text → List Text → OpenedDir → TeardownAct (Unit {0})
  sweep_opened j root suffixes absent w = (ok tt, w)
  sweep_opened j root suffixes (failed e) w = (err (no_open root e), w)
  sweep_opened j root suffixes (owned_by u) w =
      if u == j.user
      then (ok tt, sweep_root j.sandbox_name root suffixes w)
      else (err (not_owned root u), w)

  unfoldable pub sweep_dir : Jail → Text → List Text → TeardownAct (Unit {0})
  sweep_dir j root suffixes w = sweep_opened j root suffixes (sys.open_dir root w) w

  abbrev pub sweep_state : Jail → Result ℕ Text → TeardownAct (Unit {0})
  sweep_state j (ok root) = sweep_dir j root overlay_suffixes
  sweep_state j (err e) = throw (no_state_dir e)

  abbrev pub is_own_dir : ℕ → Option (Bool × ℕ) → Bool
  is_own_dir user none = false
  is_own_dir user (some (is_dir, owner)) = is_dir && owner == user

  -- `tmp_victims`.
  unfoldable pub victims : Jail → Text → List (Text × DirKind) → sys.World → List Text
  victims j base [] w = []
  victims j base ((nm, kind) ∷ entries) w =
      let rest = victims j base entries w in
      if starts_with (codes "jaim.") nm
        && (may_be_dir kind && is_own_dir j.user (sys.lstat (join base nm) w))
      then join base nm ∷ rest
      else rest

  unfoldable pub remove_each : List Text → sys.World → sys.World
  remove_each [] w = w
  remove_each (p ∷ paths) w = remove_each paths (sys.remove_all p w)

  abbrev pub sweep_listed : Jail → Text → Option (List (Text × DirKind)) → sys.World → sys.World
  sweep_listed j base none w = w
  sweep_listed j base (some entries) w = remove_each (victims j base entries w) w

  abbrev pub sweep_tmp : Jail → Option Text → sys.World → sys.World
  sweep_tmp j none w = w
  sweep_tmp j (some base) w = sweep_listed j base (sys.list_dir base w) w

  unfoldable pub teardown : Jail → TeardownAct (Unit {0})
  teardown j = do
    sweep_dir j j.homejaimpath home_suffixes
    sweep_state j sys.state_dir
    λ w. (ok tt, sweep_tmp j sys.temp_directory w)
