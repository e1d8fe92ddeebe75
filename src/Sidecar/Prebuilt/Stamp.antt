-- ===== src/Sidecar/Prebuilt/Stamp.antt =====
-- The version stamp behind an installation.
use hermes_vector_platform.Prelude.{
  Text, ℕ, ◌≡◌, refl, ap, ◌∙◌, Bool, true, false, not, ◌&&◌, ◌||◌, Option, none, some, [], ◌∷◌,
  ◌++◌, text_eq, text_eq_refl, strip, lstrip, rstrip, is_space, starts_with, codes, nonempty, all,
  &&-eq-true, if◌then◌else◌, arith,
}
use hermes_vector_platform.Prelude.Values.{get, text_of}
use hermes_vector_platform.Settings.{is_release_tag, is_name_char}
use hermes_vector_platform.Sidecar.Prebuilt.{
  Release, Disk, release_tag, prebuilt_version_matches, install, install_checked, install_listed,
  install_for, skip_prebuilt_download, bridge_release_target, try_install_prebuilt_bridge,
}

abbrev is_plain : ℕ → Bool
is_plain c = not (is_space c)

rstrip_plain : (s : Text) → all is_plain s ≡ true → rstrip (s ++ codes "\n") ≡ s
unfolding rstrip
rstrip_plain [] h = unfold is_space in refl
rstrip_plain (c ∷ s) h =
    let (plain, more) = &&-eq-true (is_plain c) (all is_plain s) h in
    let e : is_space c ≡ false = ground (arith) in
    rw e (ap (λ (t : Text). c ∷ t) (rstrip_plain s more))

strip_line :
    (c : ℕ) (s : Text) → all is_plain (c ∷ s) ≡ true → strip ((c ∷ s) ++ codes "\n") ≡ c ∷ s
unfolding strip lstrip
strip_line c s h =
    let (plain, more) = &&-eq-true (is_plain c) (all is_plain s) h in
    let e : is_space c ≡ false = ground (arith) in rw e (rstrip_plain (c ∷ s) h)

name_char_plain : (c : ℕ) → is_name_char c ≡ true → is_plain c ≡ true
unfolding is_space
name_char_plain c h = ground (arith)

name_plain : (s : Text) → all is_name_char s ≡ true → all is_plain s ≡ true
name_plain [] h = refl
name_plain (c ∷ s) h =
    let (first, rest) = &&-eq-true (is_name_char c) (all is_name_char s) h in
    rw (name_char_plain c first) (name_plain s rest)

strip_name : (t : Text) → (nonempty t && all is_name_char t) ≡ true → strip (t ++ codes "\n") ≡ t
strip_name [] h = absurd (ground arith)
strip_name (c ∷ s) h = strip_line c s (name_plain (c ∷ s) h)

name_if :
    (b : Bool) (s t : Text)
    → (b ≡ true → (nonempty s && all is_name_char s) ≡ true)
    → (nonempty t && all is_name_char t) ≡ true
    → (nonempty (if b then s else t) && all is_name_char (if b then s else t)) ≡ true
name_if true s t p q = p refl
name_if false s t p q = q

-- Every tag that `_release_tag` gives is made of the characters of a name.
release_tag_name :
    (r : Release) → (nonempty (release_tag r) && all is_name_char (release_tag r)) ≡ true
unfolding release_tag is_release_tag
release_tag_name r =
    let raw = strip (text_of (get (codes "tag") r.prebuilt)) in
    name_if (nonempty raw && is_release_tag raw) _ _
      (λ ok.
        let name = (&&-eq-true (nonempty raw) (is_release_tag raw) ok).1 in
        name_if (starts_with raw (codes "v")) raw (b'v' ∷ raw) (λ _. name)
          ((&&-eq-true (nonempty raw) (all is_name_char raw) name).1))
      refl

-- What an outcome says of the stamp.
record Stamped (r : Release) (out : Bool × Disk) : Type 0 where
  pub stamp_matches : (not out.0 || prebuilt_version_matches r out.1) ≡ true

module _ (r : Release) where
  Stamped-if :
      (b : Bool) (x y : Bool × Disk) → Stamped r x → Stamped r y → Stamped r (if b then x else y)
  Stamped-if true x y p q = p
  Stamped-if false x y p q = q

  install-Stamped : (raw : Text) (d : Disk) → Stamped r (install r raw d)
  unfolding install prebuilt_version_matches
  install-Stamped raw d =
      Stamped-if r.binary_written _ _
        (Stamped-if r.stamp_written _ _
          (record {
            stamp_matches =
                ap (λ (t : Text). text_eq t (release_tag r))
                  (strip_name (release_tag r) (release_tag_name r))
                ∙ text_eq_refl (release_tag r);
          })
          (record { stamp_matches = refl }))
        (record { stamp_matches = refl })

  install_checked-Stamped :
      (expected : Text) (o : Option Text) (d : Disk) → Stamped r (install_checked r expected o d)
  unfolding install_checked
  install_checked-Stamped expected none d = record { stamp_matches = refl }
  install_checked-Stamped expected (some raw) d =
      Stamped-if (text_eq (r.sha256_hex raw) expected) _ (false, d) (install-Stamped raw d)
        (record { stamp_matches = refl })

  install_listed-Stamped :
      (asset : Text) (o : Option Text) (d : Disk) → Stamped r (install_listed r asset o d)
  unfolding install_listed
  install_listed-Stamped asset none d = record { stamp_matches = refl }
  install_listed-Stamped asset (some expected) d = install_checked-Stamped expected _ d

  install_for-Stamped : (o : Option Text) (d : Disk) → Stamped r (install_for r o d)
  unfolding install_for
  install_for-Stamped none d = record { stamp_matches = refl }
  install_for-Stamped (some target) d = install_listed-Stamped _ _ d

-- Where the download returns a path, the version stamp matches the release that the settings name, so
-- that the next setup does not download it again.
pub installed_version_matches :
    (r : Release) (d : Disk)
    → (try_install_prebuilt_bridge r d).0 ≡ true
    → prebuilt_version_matches r (try_install_prebuilt_bridge r d).1 ≡ true
unfolding try_install_prebuilt_bridge
installed_version_matches r d done =
    let stamped : Stamped r (try_install_prebuilt_bridge r d) =
      Stamped-if r (skip_prebuilt_download r) (false, d) _ (record { stamp_matches = refl })
        (install_for-Stamped r (bridge_release_target r) d) in
    ground (arith, stamped.stamp_matches)
