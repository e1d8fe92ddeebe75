-- ===== src/Sidecar/Prebuilt/Checksum.antt =====
-- What is installed is what the release lists.
use hermes_vector_platform.Prelude.{
  Text, ◌≡◌, refl, sym, ap, ◌∙◌, ◌⊎◌, inl, inr, Bool, true, false, not, ◌&&◌, ◌||◌, Option, none,
  some, List, [], ◌∷◌, ◌++◌, text_eq, eq_of_text_eq, strip, starts_with, codes, nonempty, words,
  lower, &&-eq-true, Bool-cases, Option-cases, if◌then◌else◌, arith,
}
use hermes_vector_platform.Prelude.Maybe.{some_inj}
use hermes_vector_platform.Sidecar.Prebuilt.{
  Release, Disk, prebuilt_max_bytes, github_release_url, is_digest, entry_name, digest_of,
  line_digest, digest_in, listed_digest, install, install_checked, install_listed, install_for,
  skip_prebuilt_download, bridge_release_target, try_install_prebuilt_bridge,
}

digest_of-IsDigest :
    (asset : Text) (parts : List Text) (digest : Text)
    → digest_of asset parts ≡ some digest
    → is_digest digest ≡ true
unfolding digest_of
digest_of-IsDigest asset [] digest e = absurd (ground arith)
digest_of-IsDigest asset (a ∷ []) digest e = absurd (ground arith)
digest_of-IsDigest asset (a ∷ b ∷ more) digest e =
    elim (Bool-cases (text_eq (entry_name (a ∷ b ∷ more)) asset && is_digest (lower a))) [
      | inl t ↦
          let (named, valid) =
            &&-eq-true (text_eq (entry_name (a ∷ b ∷ more)) asset) (is_digest (lower a)) t in
          let same : lower a ≡ digest = some_inj (ground (arith)) in rw⁻¹ same valid
      | inr f ↦ absurd (ground (arith))
    ]

line_digest-IsDigest :
    (asset raw digest : Text) → line_digest asset raw ≡ some digest → is_digest digest ≡ true
unfolding line_digest
line_digest-IsDigest asset raw digest e =
    elim (Bool-cases (not (nonempty (strip raw)) || starts_with (strip raw) (codes "#"))) [
      | inl skipped ↦ absurd (ground (arith))
      | inr kept ↦ digest_of-IsDigest asset (words (strip raw)) digest (ground (arith))
    ]

-- The digest that SHA256SUMS lists for an asset is 64 lower-case hexadecimal digits.
pub digest_in-IsDigest :
    (asset : Text) (lines : List Text) (digest : Text)
    → digest_in asset lines ≡ some digest
    → is_digest digest ≡ true
unfolding digest_in
digest_in-IsDigest asset [] digest e = absurd (ground arith)
digest_in-IsDigest asset (raw ∷ lines) digest e = elim (Option-cases (line_digest asset raw)) [
  | inl nothing ↦ digest_in-IsDigest asset lines digest (ground (arith))
  | inr (found, here) ↦ line_digest-IsDigest asset raw digest (ground (arith))
]

-- Where the binary of an outcome comes from: it is the old one, or one that was downloaded, and whose
-- hash the release lists for its asset.
abbrev pub IsListed : Release → Disk → Bool × Disk → Type 0
IsListed r d out =
    (out.1.binary ≡ d.binary)
    ⊎ ((asset : Text) × (raw : Text) × (out.1.binary ≡ some raw)
        × (r.http_get (github_release_url r asset) prebuilt_max_bytes ≡ some raw)
        × (listed_digest r asset ≡ some (r.sha256_hex raw)))

module _ (r : Release) (d : Disk) where
  IsListed-if :
      (b : Bool) (x y : Bool × Disk)
      → (b ≡ true → IsListed r d x)
      → IsListed r d y
      → IsListed r d (if b then x else y)
  IsListed-if true x y p q = p refl
  IsListed-if false x y p q = q

  install-IsListed :
      (asset raw : Text)
      → r.http_get (github_release_url r asset) prebuilt_max_bytes ≡ some raw
      → listed_digest r asset ≡ some (r.sha256_hex raw)
      → IsListed r d (install r raw d)
  unfolding install
  install-IsListed asset raw got listed =
      IsListed-if r.binary_written _ _
        (λ _.
          IsListed-if r.stamp_written _ _ (λ _. inr (asset, raw, refl, got, listed))
            (inr (asset, raw, refl, got, listed)))
        (inl refl)

  install_checked-IsListed :
      (asset expected : Text) (o : Option Text)
      → r.http_get (github_release_url r asset) prebuilt_max_bytes ≡ o
      → listed_digest r asset ≡ some expected
      → IsListed r d (install_checked r expected o d)
  unfolding install_checked
  install_checked-IsListed asset expected none got listed = inl refl
  install_checked-IsListed asset expected (some raw) got listed =
      IsListed-if (text_eq (r.sha256_hex raw) expected) _ _
        (λ same.
          install-IsListed asset raw got
            (listed ∙ ap some (sym (eq_of_text_eq (r.sha256_hex raw) expected same))))
        (inl refl)

  install_listed-IsListed :
      (asset : Text) (o : Option Text)
      → listed_digest r asset ≡ o
      → IsListed r d (install_listed r asset o d)
  unfolding install_listed
  install_listed-IsListed asset none listed = inl refl
  install_listed-IsListed asset (some expected) listed =
      install_checked-IsListed asset expected _ refl listed

  install_for-IsListed : (o : Option Text) → IsListed r d (install_for r o d)
  unfolding install_for
  install_for-IsListed none = inl refl
  install_for-IsListed (some target) =
      install_listed-IsListed (codes "vector-bridge-" ++ target) _ refl

-- Whatever the network and the disk answer, the setup leaves the old binary of the sidecar in place, or
-- puts a downloaded one there whose SHA-256 digest the release lists for the asset that was asked for.
pub try_install_prebuilt_bridge-IsListed :
    (r : Release) (d : Disk) → IsListed r d (try_install_prebuilt_bridge r d)
unfolding try_install_prebuilt_bridge
try_install_prebuilt_bridge-IsListed r d =
    IsListed-if r d (skip_prebuilt_download r) _ _ (λ _. inl refl)
      (install_for-IsListed r d (bridge_release_target r))
