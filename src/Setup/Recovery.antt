-- ===== src/Setup/Recovery.antt =====
-- An identity that was moved aside comes back where the setup fails.
use mathlib.Core.Path.{subst, ap₂}
use hermes_vector_platform.Prelude.{
  Text, ◌≡◌, refl, sym, ap, ◌∙◌, Bool, true, false, not, ◌&&◌, Option, none, some, List, [], codes,
  text_eq, if◌then◌else◌, arith,
}
use hermes_vector_platform.Prelude.Dicts.{Dict, lookup, pop, lookup-put, lookup-pop}
use hermes_vector_platform.Prelude.Maybe.{some_inj}
use hermes_vector_platform.Setup.{
  Moves, bak_of, rename_to, original, ends_with_bak, backup_found, backup_identity_file,
  backup_names, backup_identity, with_bak, restore_found, restore_identity_backup, restore_all,
  replace_identity, is_there, Backup, Bridge, behind_first, run_setup,
}

abbrev pub nsec : Text
nsec = codes "identity.nsec"

abbrev pub mnemonic : Text
mnemonic = codes "identity.mnemonic"

lookup-rename_to :
    (k name target content : Text) (files : Dict)
    → lookup k (rename_to name target content files)
      ≡ (if text_eq k target then some content else if text_eq k name then none else lookup k files)
lookup-rename_to k name target content files =
    lookup-put k target content (pop name files)
    ∙ ap (λ (o : Option Text). if text_eq k target then some content else o)
        (lookup-pop k name files)

-- Everything can be unlinked and renamed.
abbrev pub CanMove : Moves → Type 0
CanMove m = ((k : Text) → m.unlinks k ≡ true) × ((k : Text) → m.renames k ≡ true)

-- What restoring a backup does to a file.
pub restore_lem :
    (m : Moves) (bak c k : Text) (files : Dict)
    → CanMove m
    → ends_with_bak bak ≡ true
    → lookup bak files ≡ some c
    → lookup k (restore_identity_backup m bak files) ≡ (
        if text_eq k (original bak) then some c else if text_eq k bak then none else lookup k files)
unfolding restore_identity_backup restore_found
restore_lem m bak c k files (u, r) ends e =
    rw (e, ends, u (original bak), r bak)
      (lookup-rename_to k bak (original bak) c (pop (original bak) files)
        ∙ ground (arith, lookup-pop k (original bak) files))

-- What was there is there again.
abbrev pub Again : Option Text → Option Text → Type 0
Again none now = Unit {0}
Again (some c) now = now ≡ some c

abbrev pub bak_if : Text → Option Text → Option Text
bak_if name none = none
bak_if name (some c) = some (bak_of name)

-- The backups of two files with these contents, and where the contents are.
pub record IsAside (o p : Option Text) (r : Backup (List Text)) : Type 0 where
  pub which : r.0 ≡ some (with_bak (bak_if nsec o) (with_bak (bak_if mnemonic p) []))
  pub nsec_aside : Again o (lookup (bak_of nsec) r.1)
  pub mnemonic_aside : Again p (lookup (bak_of mnemonic) r.1)

-- What the backup of a file that is there does to the folder.
moved_file : Text → Text → Dict → Dict
moved_file name c files = rename_to name (bak_of name) c (pop (bak_of name) files)

lookup-moved_file :
    (k name c : Text) (files : Dict)
    → lookup k (moved_file name c files) ≡ (
        if text_eq k (bak_of name) then some c else if text_eq k name then none else lookup k files)
unfolding moved_file
lookup-moved_file k name c files =
    lookup-rename_to k name (bak_of name) c (pop (bak_of name) files)
    ∙ ground (arith, lookup-pop k (bak_of name) files)

no_obstacle : (b : Bool) (u : Bool) → u ≡ true → (b && not u) ≡ false
no_obstacle b u e = ground arith

backup_of_file :
    (m : Moves) (name c : Text) (files : Dict)
    → CanMove m
    → lookup name files ≡ some c
    → backup_identity_file m name files ≡ (some (some (bak_of name)), moved_file name c files)
unfolding backup_identity_file backup_found moved_file
backup_of_file m name c files (u, r) e =
    rw
      (
        e,
        no_obstacle (is_there (lookup (bak_of name) files)) (m.unlinks (bak_of name))
            (u (bak_of name)),
        r name,
      )
      refl

backup_of_nothing :
    (m : Moves) (name : Text) (files : Dict)
    → lookup name files ≡ none
    → backup_identity_file m name files ≡ (some none, files)
unfolding backup_identity_file backup_found
backup_of_nothing m name files e = rw e refl

module _ (m : Moves) (can : CanMove m) where
  second_aside :
      (o p : Option Text) (files : Dict)
      → Again o (lookup (bak_of nsec) files)
      → lookup mnemonic files ≡ p
      → let r = backup_identity_file m mnemonic files in
        (r.0 ≡ some (bak_if mnemonic p))
        × Again o (lookup (bak_of nsec) r.1)
        × Again p (lookup (bak_of mnemonic) r.1)
  unfolding text_eq
  second_aside o none files h e = rw (backup_of_nothing m mnemonic files e) (refl, h, tt)
  second_aside none (some d) files h e =
      rw (backup_of_file m mnemonic d files can e)
        (refl, tt, lookup-moved_file (bak_of mnemonic) mnemonic d files)
  second_aside (some c) (some d) files h e = rw (backup_of_file m mnemonic d files can e) (
    refl,
    lookup-moved_file (bak_of nsec) mnemonic d files ∙ h,
    lookup-moved_file (bak_of mnemonic) mnemonic d files,
  )

  pub first_aside :
      (o p : Option Text) (files : Dict)
      → lookup nsec files ≡ o
      → lookup mnemonic files ≡ p
      → let r = backup_identity_file m nsec files in
        (r.0 ≡ some (bak_if nsec o))
        × Again o (lookup (bak_of nsec) r.1)
        × (lookup mnemonic r.1 ≡ p)
  unfolding text_eq
  first_aside none p files e f = rw (backup_of_nothing m nsec files e) (refl, tt, f)
  first_aside (some c) p files e f = rw (backup_of_file m nsec c files can e) (
    refl,
    lookup-moved_file (bak_of nsec) nsec c files,
    lookup-moved_file mnemonic nsec c files ∙ f,
  )

both-IsAside :
    (o p : Option Text) (first : Backup (Option Text)) (second : Backup (Option Text))
    → first.0 ≡ some (bak_if nsec o)
    → second.0 ≡ some (bak_if mnemonic p)
    → Again o (lookup (bak_of nsec) second.1)
    → Again p (lookup (bak_of mnemonic) second.1)
    → IsAside o p (behind_first first (behind_first second (some [], second.1)))
unfolding behind_first
both-IsAside o p (none, moved) second e f h k = absurd (ground arith)
both-IsAside o p (some bak, moved) (none, more) e f h k = absurd (ground arith)
both-IsAside o p (some bak, moved) (some other, more) e f h k = record {
  which = ap₂ (λ (a b : Option Text). some (with_bak a (with_bak b []))) (some_inj e) (some_inj f);
  nsec_aside = h;
  mnemonic_aside = k;
}

pub backup_identity-IsAside :
    (m : Moves) (o p : Option Text) (files : Dict)
    → CanMove m
    → lookup nsec files ≡ o
    → lookup mnemonic files ≡ p
    → IsAside o p (backup_identity m files)
unfolding backup_identity backup_names
backup_identity-IsAside m o p files can e f =
    let first = backup_identity_file m nsec files in
    let (first_bak, held, there) = first_aside m can o p files e f in
    let (second_bak, kept, moved) = second_aside m can o p first.1 held there in
    both-IsAside o p first (backup_identity_file m mnemonic first.1) first_bak second_bak kept moved

restored_lem :
    (m : Moves) (o p : Option Text) (files : Dict)
    → CanMove m
    → Again o (lookup (bak_of nsec) files)
    → Again p (lookup (bak_of mnemonic) files)
    → let after =
        restore_all m (with_bak (bak_if nsec o) (with_bak (bak_if mnemonic p) [])) files in
      Again o (lookup nsec after) × Again p (lookup mnemonic after)
unfolding restore_all text_eq
restored_lem m none none files can h k = (tt, tt)
restored_lem m none (some d) files can h k =
    (tt, restore_lem m (bak_of mnemonic) d mnemonic files can refl k)
restored_lem m (some c) none files can h k =
    (restore_lem m (bak_of nsec) c nsec files can refl h, tt)
restored_lem m (some c) (some d) files can h k =
    let first = restore_identity_backup m (bak_of nsec) files in
    let there : lookup (bak_of mnemonic) first ≡ some d =
      restore_lem m (bak_of nsec) c (bak_of mnemonic) files can refl h ∙ k in
    (
      restore_lem m (bak_of mnemonic) d nsec first can refl there
          ∙ restore_lem m (bak_of nsec) c nsec files can refl h,
      restore_lem m (bak_of mnemonic) d mnemonic first can refl there,
    )

-- What the run of the sidecar must not touch: the two backups.
abbrev pub SparesBackups : Dict → Dict → Type 0
SparesBackups before behind =
    (lookup (bak_of nsec) behind ≡ lookup (bak_of nsec) before)
    × (lookup (bak_of mnemonic) behind ≡ lookup (bak_of mnemonic) before)

failed_run :
    (m : Moves) (bridge : Bridge) (baks : List Text) (r : Backup (List Text))
    → r.0 ≡ some baks
    → (bridge r.1).0 ≡ false
    → (run_setup m bridge r).1 ≡ restore_all m baks (bridge r.1).1
unfolding run_setup
failed_run m bridge baks (none, moved) e failed = absurd (ground arith)
failed_run m bridge baks (some some_baks, aside) e failed =
    rw failed (ap (λ (bs : List Text). restore_all m bs (bridge aside).1) (some_inj e))

-- Where the making of a new identity fails, the files of the old one are what they were, as far as they
-- existed, whatever the run of the sidecar wrote to them. It must leave the backups alone, and the files
-- can be unlinked and renamed.
pub failed_setup_keeps_identity :
    (m : Moves) (bridge : Bridge) (files : Dict)
    → CanMove m
    → (bridge (backup_identity m files).1).0 ≡ false
    → SparesBackups (backup_identity m files).1 (bridge (backup_identity m files).1).1
    → let after = (replace_identity m true bridge files).1 in
      Again (lookup nsec files) (lookup nsec after)
      × Again (lookup mnemonic files) (lookup mnemonic after)
unfolding replace_identity
failed_setup_keeps_identity m bridge files can failed (same_nsec, same_mnemonic) =
    let o = lookup nsec files in
    let p = lookup mnemonic files in
    let saved = backup_identity-IsAside m o p files can refl refl in
    let behind = (bridge (backup_identity m files).1).1 in
    let nsec_held : Again o (lookup (bak_of nsec) behind) =
      subst (Again o) (sym same_nsec) saved.nsec_aside in
    let mnemonic_held : Again p (lookup (bak_of mnemonic) behind) =
      subst (Again p) (sym same_mnemonic) saved.mnemonic_aside in
    subst (λ (after : Dict). Again o (lookup nsec after) × Again p (lookup mnemonic after))
      (sym (failed_run m bridge _ (backup_identity m files) saved.which failed))
      (restored_lem m o p behind can nsec_held mnemonic_held)
