-- ===== src/Sidecar/Prebuilt/Tests.antt =====
-- Runs of the installation of the prebuilt sidecar.
use hermes_vector_platform.Prelude.{
  Text, ◌≡◌, refl, true, none, some, ◌++◌, codes, text_eq, starts_with, contains, if◌then◌else◌,
  strip, is_space, lower, words, split_on, mem, words_from,
}
use hermes_vector_platform.Prelude.Values.{null, get, has, text_of}
use hermes_vector_platform.Sidecar.Prebuilt.{
  Release, Disk, linux, try_install_prebuilt_bridge, parse_sha256sums, splitlines, digest_in,
  line_digest, digest_of, entry_name, is_digest, lstrip_stars, github_release_url, release_repo,
  release_tag, install, install_checked, install_listed, install_for, listed_digest,
  skip_prebuilt_download, bridge_release_target,
}
use hermes_vector_platform.Sidecar.Prebuilt.Checksum.{
  IsListed, try_install_prebuilt_bridge-IsListed,
}

abbrev a_digest : Text
a_digest = codes "00112233445566778899aabbccddeeff00112233445566778899aabbccddeeff"

abbrev sums_text : Text
sums_text = codes "# release\n" ++ (a_digest ++ codes "  vector-bridge-x86_64-unknown-linux-gnu\n")

-- A release with one binary.
abbrev one_release : Release
one_release = record {
  prebuilt = null;
  machine = codes "x86_64";
  system = linux;
  http_get = λ url bound.
      if contains (codes "SHA256SUMS") url then some sums_text else some (codes "binary");
  decode = λ bytes. some bytes;
  sha256_hex = λ bytes. a_digest;
  binary_written = true;
  stamp_written = true;
}

abbrev empty_disk : Disk
empty_disk = record { binary = none; stamp = none }

try_install_prebuilt_bridge-IsListed_example :
    IsListed one_release empty_disk (try_install_prebuilt_bridge one_release empty_disk)
try_install_prebuilt_bridge-IsListed_example =
    try_install_prebuilt_bridge-IsListed one_release empty_disk

is_installed : (try_install_prebuilt_bridge one_release empty_disk).0 ≡ true
unfolding try_install_prebuilt_bridge skip_prebuilt_download bridge_release_target install_for
    install_listed install_checked install listed_digest github_release_url release_repo release_tag
    parse_sha256sums digest_in line_digest digest_of entry_name is_digest lstrip_stars splitlines
    text_eq contains starts_with has get text_of strip is_space lower mem words words_from split_on
is_installed = refl
