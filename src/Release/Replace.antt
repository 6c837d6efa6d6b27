-- ===== src/Release/Replace.antt =====
-- `replaceSourceTree` (internal/repository/tree.go), with the calls to the operating system that may
-- fail.
use unlock_catalog_publisher.Base.{
  ◌≡◌, Bool, true, false, ◌⊎◌, Option, none, some, arith, if◌then◌else◌,
}

-- The calls, in order; `rename_back` is made when `rename_staging` has failed.
pub data Call : Type 0 where
  make_backup remove_backup rename_source rename_staging rename_back remove_all : Call

pub data ReplaceError : Type 0 where
  backup_failed stage_failed install_failed remove_failed : ReplaceError

-- What stands at a path: nothing, the empty directory of `MkdirTemp`, a tree, or what a `RemoveAll`
-- that failed has left of one.
pub data Place {ℓ} (X : Type ℓ) : Type ℓ where
  missing : Place X
  empty_directory : Place X
  holds : X → Place X
  remains : Place X → Place X

pub record Places {ℓ} (X : Type ℓ) : Type ℓ where
  pub source : Place X
  pub staging : Place X
  pub backup : Place X

-- An error was returned.
abbrev pub is_error {ℓ} : {E : Type ℓ} → Option E → Bool
is_error none = false
is_error (some e) = true

module _ {ℓ} {X : Type ℓ} (fails : Call → Bool) where
  unfoldable pub replace_source_tree : Places X → Places X × Option ReplaceError
  replace_source_tree d =
      if fails make_backup
      then (d, some backup_failed)
      else let made = record d { backup = empty_directory } in
        if fails remove_backup
        then (made, some backup_failed)
        else let removed = record d { backup = missing } in
          if fails rename_source
          then (removed, some stage_failed)
          else let staged = record d { source = missing; backup = d.source } in
            if fails rename_staging
            then ((if fails rename_back then staged else removed), some install_failed)
            else let installed = record d {
              source = d.staging;
              staging = missing;
              backup = d.source;
            } in
              if fails remove_all
              then (record installed { backup = remains d.source }, some remove_failed)
              else (record installed { backup = missing }, none)

  -- Whatever calls fail: without an error the source holds the new tree and no backup is left. With one
  -- the source holds the old tree; or, if only the removal of the backup failed, the new tree, with what is left of
  -- the old one in the backup; or, if the installation and the renaming back failed, it is missing, the staging
  -- directory holds the new tree and the backup the old one.
  pub replace_source_tree-IsAtomic :
      (old new : X)
      → let (after, result) =
          replace_source_tree
            (record { source = holds old; staging = holds new; backup = missing }) in
        ((result ≡ none) × (after.source ≡ holds new) × (after.backup ≡ missing))
        ⊎ (((result ≡ some remove_failed)
              × (after.source ≡ holds new)
              × (after.backup ≡ remains (holds old)))
            ⊎ (((is_error result ≡ true) × (after.source ≡ holds old) × (after.staging ≡ holds new))
                ⊎ ((result ≡ some install_failed)
                    × (fails rename_staging ≡ true)
                    × (fails rename_back ≡ true)
                    × (after.source ≡ missing)
                    × (after.staging ≡ holds new)
                    × (after.backup ≡ holds old))))
  unfolding replace_source_tree
  replace_source_tree-IsAtomic old new = ground arith
