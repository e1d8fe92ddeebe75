-- ===== src/Setup/Interrupted.antt =====
-- A setup that is interrupted while it moves the identity aside, or behind that, and the next one.
use mathlib.Core.Path.{subst}
use hermes_vector_platform.Prelude.{
  Text, ◌≡◌, refl, sym, ap, ◌∙◌, Bool, true, false, Option, none, some, text_eq, nonempty, ◌⊎◌, inl,
  inr, Bool-cases, if◌then◌else◌, arith,
}
use hermes_vector_platform.Prelude.Dicts.{Dict, lookup, pop, lookup-pop}
use hermes_vector_platform.Setup.{
  Moves, bak_of, original, ends_with_bak, backup_identity_file, backup_identity,
  restore_identity_backup, restore_found, is_filled, adopt_one, adopt_names,
  adopt_stale_identity_backup,
}
use hermes_vector_platform.Setup.Recovery.{
  nsec, mnemonic, CanMove, SparesBackups, restore_lem, first_aside, backup_identity-IsAside,
}

-- The folder where the setup is interrupted: before the first step, where an old backup of a file was
-- unlinked, where the first file was renamed, and from the second renaming on, whatever is written
-- to files that are no backups.
pub data IsCutShort (m : Moves) (files : Dict) : Dict → Type 0 where
  at_start : IsCutShort m files files
  first_cleared : IsCutShort m files (pop (bak_of nsec) files)
  first_moved : IsCutShort m files (backup_identity_file m nsec files).1
  second_cleared : IsCutShort m files (pop (bak_of mnemonic) (backup_identity_file m nsec files).1)
  both_moved :
      {left : Dict} → SparesBackups (backup_identity m files).1 left → IsCutShort m files left

-- The names of the files of an identity.
abbrev pub IsIdentity : Text → Type 0
IsIdentity name = (name ≡ nsec) ⊎ (name ≡ mnemonic)

-- The content is in the file or in its backup.
abbrev IsKept : Text → Text → Dict → Type 0
IsKept name c files = (lookup name files ≡ some c) ⊎ (lookup (bak_of name) files ≡ some c)

-- The content is back in the file, or in the backup of a file that is filled.
abbrev pub IsSafe : Text → Text → Dict → Dict → Type 0
IsSafe name c left after =
    (lookup name after ≡ some c)
    ⊎ ((is_filled (lookup name left) ≡ true) × (lookup (bak_of name) after ≡ some c))

is_filled_lem : (o : Option Text) (c : Text) → o ≡ some c → nonempty c ≡ true → is_filled o ≡ true
is_filled_lem none c e filled = absurd (ground arith)
is_filled_lem (some d) c e filled = ap is_filled e ∙ filled

if_no {ℓ} : {A : Type ℓ} (b : Bool) (x y : A) → b ≡ false → (if b then x else y) ≡ y
if_no b x y e = rw e refl

if_yes {ℓ} : {A : Type ℓ} (b : Bool) (x y : A) → b ≡ true → (if b then x else y) ≡ x
if_yes b x y e = rw e refl

module _ (m : Moves) (can : CanMove m) where
  -- The round of a name, for its own file.
  own_round :
      (name c : Text) (files : Dict)
      → ends_with_bak (bak_of name) ≡ true
      → text_eq name (original (bak_of name)) ≡ true
      → nonempty c ≡ true
      → IsKept name c files
      → IsSafe name c files (adopt_one m name files)
  unfolding adopt_one
  own_round name c files ends own filled (inl live) =
      let unmoved = if_yes _ files _ (is_filled_lem (lookup name files) c live filled) in
      inl (ap (lookup name) unmoved ∙ live)
  own_round name c files ends own filled (inr aside) =
      let restored = restore_identity_backup m (bak_of name) files in
      elim (Bool-cases (is_filled (lookup name files))) [
        | inl new ↦ inr (new, ap (lookup (bak_of name)) (if_yes _ files restored new) ∙ aside)
        | inr old ↦ inl (
            ap (lookup name) (if_no _ files restored old)
            ∙ (restore_lem m (bak_of name) c name files can ends aside ∙ if_yes _ _ _ own))
      ]

  restore-other :
      (bak k : Text) (o : Option Text) (files : Dict)
      → lookup bak files ≡ o
      → ends_with_bak bak ≡ true
      → text_eq k (original bak) ≡ false
      → text_eq k bak ≡ false
      → lookup k (restore_identity_backup m bak files) ≡ lookup k files
  unfolding restore_identity_backup restore_found
  restore-other bak k none files e ends p q = rw e refl
  restore-other bak k (some c) files e ends p q =
      restore_lem m bak c k files can ends e ∙ (if_no _ _ _ p ∙ if_no _ _ _ q)

  -- The round of a name, for another file.
  other_round :
      (name k : Text) (files : Dict)
      → ends_with_bak (bak_of name) ≡ true
      → text_eq k (original (bak_of name)) ≡ false
      → text_eq k (bak_of name) ≡ false
      → lookup k (adopt_one m name files) ≡ lookup k files
  unfolding adopt_one
  other_round name k files ends p q =
      let restored = restore_identity_backup m (bak_of name) files in
      elim (Bool-cases (is_filled (lookup name files))) [
        | inl new ↦ ap (lookup k) (if_yes _ files restored new)
        | inr old ↦
            ap (lookup k) (if_no _ files restored old)
            ∙ restore-other (bak_of name) k _ files refl ends p q
      ]

  adopted_nsec :
      (c : Text) (left : Dict)
      → nonempty c ≡ true
      → IsKept nsec c left
      → IsSafe nsec c left (adopt_stale_identity_backup m left)
  unfolding adopt_stale_identity_backup adopt_names text_eq
  adopted_nsec c left filled kept =
      let first = adopt_one m nsec left in
      elim (own_round nsec c left refl refl filled kept) [
        | inl back ↦ inl (other_round mnemonic nsec first refl refl refl ∙ back)
        | inr (new, aside) ↦
            inr (new, other_round mnemonic (bak_of nsec) first refl refl refl ∙ aside)
      ]

  adopted_mnemonic :
      (c : Text) (left : Dict)
      → nonempty c ≡ true
      → IsKept mnemonic c left
      → IsSafe mnemonic c left (adopt_stale_identity_backup m left)
  unfolding adopt_stale_identity_backup adopt_names text_eq
  adopted_mnemonic c left filled kept =
      let first = adopt_one m nsec left in
      let same_file = other_round nsec mnemonic left refl refl refl in
      let same_bak = other_round nsec (bak_of mnemonic) left refl refl refl in
      let kept_first : IsKept mnemonic c first = elim kept [
        | inl live ↦ inl (same_file ∙ live)
        | inr aside ↦ inr (same_bak ∙ aside)
      ] in
      elim (own_round mnemonic c first refl refl filled kept_first) [
        | inl back ↦ inl back
        | inr (new, aside) ↦ inr (sym (ap is_filled same_file) ∙ new, aside)
      ]

  nsec-IsKept :
      (c : Text) (files left : Dict)
      → lookup nsec files ≡ some c
      → IsCutShort m files left
      → IsKept nsec c left
  unfolding text_eq
  nsec-IsKept c files left e at_start = inl e
  nsec-IsKept c files left e first_cleared = inl (lookup-pop nsec (bak_of nsec) files ∙ e)
  nsec-IsKept c files left e first_moved = inr (first_aside m can (some c) _ files e refl).1
  nsec-IsKept c files left e second_cleared =
      inr (
        lookup-pop (bak_of nsec) (bak_of mnemonic) _
        ∙ (first_aside m can (some c) _ files e refl).1)
  nsec-IsKept c files left e (both_moved (same_nsec, same_mnemonic)) =
      inr (same_nsec ∙ (backup_identity-IsAside m (some c) _ files can e refl).nsec_aside)

  mnemonic-IsKept :
      (c : Text) (files left : Dict)
      → lookup mnemonic files ≡ some c
      → IsCutShort m files left
      → IsKept mnemonic c left
  unfolding text_eq
  mnemonic-IsKept c files left e at_start = inl e
  mnemonic-IsKept c files left e first_cleared = inl (lookup-pop mnemonic (bak_of nsec) files ∙ e)
  mnemonic-IsKept c files left e first_moved = inl (first_aside m can _ (some c) files refl e).2
  mnemonic-IsKept c files left e second_cleared =
      inl (lookup-pop mnemonic (bak_of mnemonic) _ ∙ (first_aside m can _ (some c) files refl e).2)
  mnemonic-IsKept c files left e (both_moved (same_nsec, same_mnemonic)) =
      inr (same_mnemonic ∙ (backup_identity-IsAside m _ (some c) files can refl e).mnemonic_aside)

-- Wherever a setup is interrupted from the moving of the identity on, the next one puts each of its
-- files that was not empty back with what it held; where a new file that is not empty stands in its
-- place by then, what it held stays in the backup. What is written meanwhile must leave the backups
-- alone, and the files can be unlinked and renamed.
pub interrupted_setup_recovers :
    (m : Moves) (files left : Dict) (name c : Text)
    → CanMove m
    → IsIdentity name
    → lookup name files ≡ some c
    → nonempty c ≡ true
    → IsCutShort m files left
    → IsSafe name c left (adopt_stale_identity_backup m left)
interrupted_setup_recovers m files left name c can (inl is_nsec) e filled cut =
    subst (λ (n : Text). IsSafe n c left (adopt_stale_identity_backup m left)) (sym is_nsec)
      (adopted_nsec m can c left filled
        (nsec-IsKept m can c files left (ap (λ (n : Text). lookup n files) (sym is_nsec) ∙ e) cut))
interrupted_setup_recovers m files left name c can (inr is_mnemonic) e filled cut =
    subst (λ (n : Text). IsSafe n c left (adopt_stale_identity_backup m left)) (sym is_mnemonic)
      (adopted_mnemonic m can c left filled (
        mnemonic-IsKept m can c files left (ap (λ (n : Text). lookup n files) (sym is_mnemonic) ∙ e)
          cut))
