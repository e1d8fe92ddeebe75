-- ===== src/Setup/Tests.antt =====
-- Runs of the wizard's care of the identity.
use hermes_vector_platform.Prelude.{refl, Bool, true, false, inl, [], ◌∷◌, codes, text_eq}
use hermes_vector_platform.Prelude.Dicts.{Dict, lookup}
use hermes_vector_platform.Setup.Interrupted.{IsSafe, both_moved, interrupted_setup_recovers}
use hermes_vector_platform.Setup.{
  Moves, backup_identity, replace_identity, adopt_stale_identity_backup,
}
use hermes_vector_platform.Setup.Recovery.{
  nsec, mnemonic, Again, SparesBackups, failed_setup_keeps_identity,
}

abbrev can_move : Moves
can_move = record { unlinks = λ k. true; renames = λ k. true }

abbrev old_files : Dict
old_files = (nsec, codes "nsec1old") ∷ (mnemonic, codes "old words") ∷ []

-- A run that leaves half of a new identity behind, and fails.
abbrev half_run : Dict → Bool × Dict
half_run files = (false, (nsec, codes "nsec1new") ∷ files)

failed_setup_keeps_identity_example :
    let after = (replace_identity can_move true half_run old_files).1 in
    Again (lookup nsec old_files) (lookup nsec after)
    × Again (lookup mnemonic old_files) (lookup mnemonic after)
failed_setup_keeps_identity_example =
    failed_setup_keeps_identity can_move half_run old_files ((λ k. refl), λ k. refl) refl
      (unfold lookup text_eq in (refl, refl))

-- Both files are moved, and a new identity.nsec is written.
abbrev half_done : Dict
half_done = (half_run (backup_identity can_move old_files).1).1

half_done-SparesBackups : SparesBackups (backup_identity can_move old_files).1 half_done
unfolding lookup text_eq
half_done-SparesBackups = (refl, refl)

interrupted_setup_recovers_example :
    IsSafe nsec (codes "nsec1old") half_done (adopt_stale_identity_backup can_move half_done)
interrupted_setup_recovers_example =
    interrupted_setup_recovers can_move old_files half_done nsec (codes "nsec1old")
      ((λ k. refl), λ k. refl) (inl refl) (unfold lookup text_eq in refl) refl
      (both_moved half_done-SparesBackups)
