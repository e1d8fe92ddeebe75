-- ===== src/Sidecar/Prebuilt.antt =====
-- The prebuilt sidecar of internal/bridge_bin.py: which release, and its download and installation.
-- The client of the network, the hash and the disk are fields of `Release`.
pub mod Checksum
pub mod Stamp
mod Tests
use hermes_vector_platform.Prelude.{
  Text, ℕ, Bool, true, false, not, ◌&&◌, ◌||◌, Option, none, some, List, [], ◌∷◌, ◌++◌, ◌*◌, ◌==◌,
  codes, strip, lower, mem, text_eq, starts_with, nonempty, length, all, words, split_on, get_last?,
  leb, if◌then◌else◌,
}
use hermes_vector_platform.Prelude.Values.{Value, get, has, text_of}
use hermes_vector_platform.Env.{text_or}
use hermes_vector_platform.Settings.{is_release_repo, is_release_tag, yaml_on_off}

pub data System : Type 0 where
  linux : System
  darwin : System
  other_system : System

-- A text of the network or the disk stands for bytes here.
pub record Release : Type 0 where
  -- `vector.prebuilt` of config.yaml
  pub prebuilt : Value
  pub machine : Text
  pub system : System
  -- `_http_get_bytes`, with the bound on the size; `none` where it raises
  pub http_get : Text → ℕ → Option Text
  pub decode : Text → Option Text
  pub sha256_hex : Text → Text
  -- whether the binary and the stamp can be written
  pub binary_written : Bool
  pub stamp_written : Bool

-- The folder of the prebuilt sidecar.
pub record Disk : Type 0 where
  pub binary : Option Text
  pub stamp : Option Text

abbrev pub plugin_version : Text
plugin_version = codes "0.5.3"

abbrev pub prebuilt_max_bytes : ℕ
prebuilt_max_bytes = 80 * 1024 * 1024

abbrev pub on_system : System → Text → Option Text
on_system linux a = some (a ++ codes "-unknown-linux-gnu")
on_system darwin a = some (a ++ codes "-apple-darwin")
on_system other_system a = none

unfoldable pub bridge_release_target : Release → Option Text
bridge_release_target r =
    let m = lower r.machine in
    let arch =
      if mem m (codes "amd64" ∷ codes "x86_64" ∷ codes "x64" ∷ [])
      then some (codes "x86_64")
      else if mem m (codes "arm64" ∷ codes "aarch64" ∷ [])
      then some (codes "aarch64")
      else none in
    elim arch [ none ↦ none | some a ↦ on_system r.system a ]

unfoldable pub release_repo : Release → Text
release_repo r =
    let raw = strip (text_of (get (codes "repo") r.prebuilt)) in
    if nonempty raw && is_release_repo raw then raw else codes "BonesGit/hermes-vector-platform"

unfoldable pub release_tag : Release → Text
release_tag r =
    let raw = strip (text_of (get (codes "tag") r.prebuilt)) in
    if nonempty raw && is_release_tag raw
    then (if starts_with raw (codes "v") then raw else b'v' ∷ raw)
    else b'v' ∷ plugin_version

-- `_yaml_on_off(v) == "off"`
abbrev pub is_off : Option Text → Bool
is_off none = false
is_off (some t) = text_eq t (codes "off")

unfoldable pub skip_prebuilt_download : Release → Bool
skip_prebuilt_download r =
    if has (codes "download") r.prebuilt
    then is_off (yaml_on_off (get (codes "download") r.prebuilt))
    else false

unfoldable pub prebuilt_version_matches : Release → Disk → Bool
prebuilt_version_matches r d = elim d.stamp [
  | none ↦ false
  | some stamp ↦ text_eq (strip stamp) (release_tag r)
]

unfoldable pub github_release_url : Release → Text → Text
github_release_url r asset =
    codes "https://github.com/"
    ++ (release_repo r ++ (codes "/releases/download/" ++ (release_tag r ++ (b'/' ∷ asset))))

-- Where `splitlines` cuts. Both characters of a line break of two make a cut here, which gives a blank
-- line more.
abbrev is_line_break : ℕ → Bool
is_line_break c =
    (leb 10 c && leb c 13)
    || (leb 0x1c c && leb c 0x1e)
    || (c == 0x85)
    || (c == 0x2028 || c == 0x2029)

abbrev onto_line : ℕ → List Text → List Text
onto_line c [] = (c ∷ []) ∷ []
onto_line c (line ∷ lines) = (c ∷ line) ∷ lines

unfoldable pub splitlines : Text → List Text
splitlines [] = [] ∷ []
splitlines (c ∷ s) =
    let rest = splitlines s in if is_line_break c then [] ∷ rest else onto_line c rest

unfoldable pub lstrip_stars : Text → Text
lstrip_stars [] = []
lstrip_stars (c ∷ s) = let rest = lstrip_stars s in if c == b'*' then rest else c ∷ s

-- `"0123456789abcdef"`
abbrev pub is_lower_hex : ℕ → Bool
is_lower_hex c = (leb b'0' c && leb c b'9') || (leb b'a' c && leb c b'f')

unfoldable pub is_digest : Text → Bool
is_digest digest = (length digest == 64) && all is_lower_hex digest

-- `parts[-1].lstrip("*").split("/")[-1]`
unfoldable pub entry_name : List Text → Text
entry_name parts =
    text_or (get_last? (split_on b'/' (lstrip_stars (text_or (get_last? parts) [])))) []

-- The digest that a line lists for the asset.
unfoldable pub digest_of : Text → List Text → Option Text
digest_of asset (first ∷ second ∷ more) =
    if text_eq (entry_name (first ∷ second ∷ more)) asset && is_digest (lower first)
    then some (lower first)
    else none
digest_of asset _ = none

unfoldable pub line_digest : Text → Text → Option Text
line_digest asset raw =
    let line = strip raw in
    if not (nonempty line) || starts_with line (codes "#")
    then none
    else digest_of asset (words line)

abbrev pub first_some : Option Text → Option Text → Option Text
first_some none later = later
first_some (some digest) later = some digest

unfoldable pub digest_in : Text → List Text → Option Text
digest_in asset [] = none
digest_in asset (raw ∷ lines) = first_some (line_digest asset raw) (digest_in asset lines)

unfoldable pub parse_sha256sums : Text → Text → Option Text
parse_sha256sums text asset = digest_in asset (splitlines text)

-- The digest that the release lists for the asset.
unfoldable pub listed_digest : Release → Text → Option Text
listed_digest r asset = elim (r.http_get (github_release_url r (codes "SHA256SUMS")) (64 * 1024)) [
  | none ↦ none
  | some sums ↦ elim (r.decode sums) [ none ↦ none | some text ↦ parse_sha256sums text asset ]
]

-- The binary is replaced, then the stamp is written. The answer is whether a path is returned.
unfoldable pub install : Release → Text → Disk → Bool × Disk
install r raw d =
    let replaced = record d { binary = some raw } in
    let stamped = record replaced { stamp = some (release_tag r ++ codes "\n") } in
    if r.binary_written
    then (if r.stamp_written then (true, stamped) else (false, replaced))
    else (false, d)

unfoldable pub install_checked : Release → Text → Option Text → Disk → Bool × Disk
install_checked r expected none d = (false, d)
install_checked r expected (some raw) d =
    if text_eq (r.sha256_hex raw) expected then install r raw d else (false, d)

unfoldable pub install_listed : Release → Text → Option Text → Disk → Bool × Disk
install_listed r asset none d = (false, d)
install_listed r asset (some expected) d =
    install_checked r expected (r.http_get (github_release_url r asset) prebuilt_max_bytes) d

unfoldable pub install_for : Release → Option Text → Disk → Bool × Disk
install_for r none d = (false, d)
install_for r (some target) d =
    let asset = codes "vector-bridge-" ++ target in install_listed r asset (listed_digest r asset) d

unfoldable pub try_install_prebuilt_bridge : Release → Disk → Bool × Disk
try_install_prebuilt_bridge r d =
    if skip_prebuilt_download r then (false, d) else install_for r (bridge_release_target r) d
