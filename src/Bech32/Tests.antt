-- ===== src/Bech32/Tests.antt =====
-- Runs of the coding of internal/bech32.py at the keys of its unit tests.
use hermes_vector_platform.Prelude.{Text, ◌≡◌, refl, some, none, codes, List, ℕ, length}
use hermes_vector_platform.Bech32.Hex.{from_hex, to_hex}
use hermes_vector_platform.Bech32.RoundTrip.{npub_to_hex-hex_to_npub}
use hermes_vector_platform.Bech32.Canonical.{normalize_npub-normalize_npub}
use hermes_vector_platform.Bech32.{
  codec, hex_to_npub, npub_to_hex, normalize_npub, normalize_channel_id,
}

abbrev pub key_hex : Text
key_hex = codes "3bf0c63fcb93463407af97a5e5ee64fa883d107ef9e558472c4eb9aaaefa459d"

abbrev pub key_npub : Text
key_npub = codes "npub180cvv07tjdrrgpa0j7j7tmnyl2yr6yr7l8j4s3evf6u64th6gkwsyjh6w6"

encodes : hex_to_npub key_hex ≡ some key_npub
unfolding codec
encodes = refl

decodes : npub_to_hex key_npub ≡ some key_hex
unfolding codec
decodes = refl

-- One changed symbol breaks the checksum.
rejects :
    npub_to_hex (codes "npub180cvv07tjdrrgpa0j7j7tmnyl2yr6yr7l8j4s3evf6u64th6gkwsyjh6w7") ≡ none
unfolding codec
rejects = refl

normalizes :
    normalize_npub
      (codes "  nostr:NPUB180cvv07tjdrrgpa0j7j7tmnyl2yr6yr7l8j4s3evf6u64th6gkwsyjh6w6 ")
    ≡ some key_npub
unfolding codec
normalizes = refl

normalizes_hex : normalize_npub key_hex ≡ some key_npub
unfolding codec
normalizes_hex = refl

channel : normalize_channel_id key_hex ≡ some key_hex
unfolding codec
channel = refl

npub_to_hex-hex_to_npub_example :
    (raw : List ℕ) × (from_hex key_hex ≡ some raw)
    × (length raw ≡ 32)
    × (npub_to_hex key_npub ≡ some (to_hex raw))
npub_to_hex-hex_to_npub_example = npub_to_hex-hex_to_npub key_hex key_npub encodes

normalize_npub-normalize_npub_example : normalize_npub key_npub ≡ some key_npub
normalize_npub-normalize_npub_example =
    normalize_npub-normalize_npub key_hex key_npub normalizes_hex
