-- ===== src/Setup/Removal.antt =====
-- What `remove_jaim_user` of setup_user.cc leaves.
use jaim.Prelude.{◌≡◌, ◌≢◌, refl, sym, ap, ◌∙◌, subst, Bool, true, false, ok}
use jaim.Prelude.Stateful.{feed-cases}
use jaim.Setup.System.{
  DirectoryRecord, user_record, group_record, delete, Directory, has, KeepsOther, Deletes,
}
use jaim.Setup.Waits.{await-exited}
use jaim.Setup.{dscl, remove_record, remove_jaim_user}

module _ (d : Directory) (keeps_other : KeepsOther d) (deletes : Deletes d) where
  -- A record that the code has removed, or that was not there.
  remove_record_lem :
      (r : DirectoryRecord) (db after : d.Db) (present : Bool)
      → has d db r ≡ present
      → remove_record d r present db ≡ (ok tt, after)
      → has d after r ≡ false
  unfolding dscl
  remove_record_lem r db after false h e = subst (λ b. has d b r ≡ false) (ap (λ p. p.1) e) h
  remove_record_lem r db after true h e =
      subst (λ b. has d b r ≡ false) (ap (λ p. p.1) e)
        (deletes r db (await-exited r _ (ap (λ p. p.0) e)))

  remove_record-other :
      (r s : DirectoryRecord) (db after : d.Db) (present : Bool)
      → s ≢ r
      → remove_record d r present db ≡ (ok tt, after)
      → has d after s ≡ has d db s
  unfolding dscl
  remove_record-other r s db after false other e = ap (λ p. has d p.1 s) (sym e)
  remove_record-other r s db after true other e =
      ap (λ p. has d p.1 s) (sym e) ∙ keeps_other (delete r) s db other

  -- When root's `remove_jaim_user` returns, neither the user nor the group exists, whatever of them
  -- was there before, and a second run returns and changes nothing. A command on one record leaves
  -- the other, and a deletion that exits with 0 removes its record.
  pub remove_jaim_user_lem :
      (db after : d.Db)
      → remove_jaim_user d 0 db ≡ (ok tt, after)
      → (d.has_user after ≡ false)
        × (d.has_group after ≡ false)
        × (remove_jaim_user d 0 after ≡ (ok tt, after))
  unfolding remove_jaim_user
  remove_jaim_user_lem db after e =
      let (u, mid, first, second) =
        feed-cases (remove_record d user_record (d.has_user db) db) _ tt after e in
      let no_user = remove_record_lem user_record db mid (d.has_user db) refl first in
      let no_group = remove_record_lem group_record mid after (d.has_group mid) refl second in
      let still =
        remove_record-other group_record user_record mid after (d.has_group mid) (λ same. cc)
          second in
      let gone = still ∙ no_user in (gone, no_group, rw (gone, no_group) refl)
