-- ===== src/Mirror/Install.antt =====
-- `installMirrorPrefix` (internal/repository/mirror.go), with the calls to the operating system that may
-- fail.
use unlock_catalog_publisher.Base.{
  ◌≡◌, Bool, true, false, not, ◌&&◌, ◌||◌, ◌⊎◌, Option, none, some, arith, if◌then◌else◌,
}
use unlock_catalog_publisher.Release.Replace.{
  missing, empty_directory, holds, remains, Places, is_error,
}

pub data MirrorCall : Type 0 where
  make_parent inspect_prefix make_backup remove_backup rename_prior rename_staging : MirrorCall
  rename_back remove_installed restore_prior remove_prior : MirrorCall

pub data InstallError : Type 0 where
  parent_failed inspect_failed backup_failed stage_failed install_failed : InstallError
  rollback_failed readback_failed remove_failed : InstallError

-- A step that would bring the old mirror back fails after the installation or the reading back.
abbrev pub restoration_fails : (MirrorCall → Bool) → Bool → Bool
restoration_fails fails verified =
    if fails rename_staging
    then fails rename_back
    else not verified && (fails remove_installed || fails restore_prior)

module _ {ℓ} {X : Type ℓ} (fails : MirrorCall → Bool) (verified : Bool) where
  -- After the prior prefix has been put aside: `d.source` is the mirror's prefix. `exists` tells whether
  -- there was one, and `d.backup` holds it then.
  unfoldable pub install_staged : Bool → Places X → Places X × Option InstallError
  install_staged exists d =
      if fails rename_staging
      then (
        (if exists && not (fails rename_back)
            then record d { source = d.backup; backup = missing }
            else d),
        some install_failed,
      )
      else let installed = record d { source = d.staging; staging = missing } in
        if not verified
        then (if fails remove_installed
            then (record installed { source = remains d.staging }, some rollback_failed)
            else if not exists
            then (record installed { source = missing }, some readback_failed)
            else if fails restore_prior
            then (record installed { source = missing }, some rollback_failed)
            else (record installed { source = d.backup; backup = missing }, some readback_failed))
        else if not exists
        then (installed, none)
        else if fails remove_prior
        then (record installed { backup = remains d.backup }, some remove_failed)
        else (record installed { backup = missing }, none)

  unfoldable pub install_mirror_prefix : Bool → Places X → Places X × Option InstallError
  unfolding install_staged
  install_mirror_prefix exists d =
      if fails make_parent
      then (d, some parent_failed)
      else if fails inspect_prefix
      then (d, some inspect_failed)
      else if not exists
      then install_staged false d
      else if fails make_backup
      then (d, some backup_failed)
      else if fails remove_backup
      then (record d { backup = empty_directory }, some backup_failed)
      else if fails rename_prior
      then (d, some stage_failed)
      else install_staged true (record d { source = missing; backup = d.source })

  -- Replacing a mirror, whatever calls fail: without an error the new mirror has been read back and is in
  -- place, and no backup is left. With one the old mirror is in place; or, if only the removal of the backup
  -- failed, the new one, read back; or the installation or the reading back failed together with a step of the
  -- restoration, and the backup still holds the old mirror.
  pub install_mirror_prefix-IsAtomic :
      (old new : X)
      → let (after, result) =
          install_mirror_prefix true
            (record { source = holds old; staging = holds new; backup = missing }) in
        ((result ≡ none)
          × (verified ≡ true)
          × (after.source ≡ holds new)
          × (after.backup ≡ missing))
        ⊎ (((result ≡ some remove_failed)
              × (verified ≡ true)
              × (after.source ≡ holds new)
              × (after.backup ≡ remains (holds old)))
            ⊎ (((is_error result ≡ true) × (after.source ≡ holds old))
                ⊎ ((is_error result ≡ true)
                    × (restoration_fails fails verified ≡ true)
                    × (after.backup ≡ holds old))))
  unfolding install_mirror_prefix install_staged
  install_mirror_prefix-IsAtomic old new = ground arith
