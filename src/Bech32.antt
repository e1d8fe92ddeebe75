-- ===== src/Bech32.antt =====
-- internal/bech32.py: the bech32 coding of public keys.
-- `Checksum` is `_bech32_polymod`, `Convert` is `_convertbits`, `Hex` the library's `bytes.fromhex`
-- and `bytes.hex`; this file holds the codecs themselves.
pub mod Checksum
pub mod Convert
pub mod Hex
pub mod Xor
pub mod Digits
pub mod Linear
pub mod Symbols
pub mod Residue
pub mod Regroup
pub mod Letters
pub mod RoundTrip
pub mod Canonical
pub mod Tests
use hermes_vector_platform.Prelude.{
  Text, ℕ, ◌+◌, ◌-◌, ◌*◌, ◌/◌, ◌^◌, ◌==◌, Option, none, some, List, [], ◌∷◌, ◌++◌, map, Bool, true,
  false, ◌&&◌, bit_and, bit_xor, if◌then◌else◌, codes, length, take, drop, all, strip, lower,
  starts_with, is_hex, nonempty, is_space,
}
use hermes_vector_platform.Prelude.Maybe.{◌>>=◌, ◌>>◌, guard}
use Checksum.{polymod}
use Convert.{convertbits}
use Hex.{from_hex, to_hex}

abbrev pub charset : Text
charset = codes "qpzry9x8gf2tvdw0s3jn54khce6mua7l"

abbrev pub npub_prefix : Text
npub_prefix = codes "npub1"

unfoldable pub hrp_expand : Text → List ℕ
hrp_expand hrp = map (λ c. c / 2 ^ 5) hrp ++ (0 ∷ map (λ c. bit_and c 31) hrp)

-- `_BECH32_CHARSET[d]`
unfoldable pub char_at : Text → ℕ → ℕ
char_at [] d = 0
char_at (c ∷ cs) d = if d == 0 then c else char_at cs (d - 1)

-- `_BECH32_CHARSET.index(c)`
unfoldable pub index_of : ℕ → Text → Option ℕ
index_of c [] = none
index_of c (d ∷ ds) = if d == c then some 0 else (do i ← index_of c ds; some (i + 1))

unfoldable pub indices : Text → Option (List ℕ)
indices [] = some []
indices (c ∷ s) = do i ← index_of c charset; is ← indices s; some (i ∷ is)

-- `[(polymod >> 5 * (5 - i)) & 31 for i in range(6)]`
unfoldable pub checksum_symbols : ℕ → List ℕ
checksum_symbols p = map (λ i. bit_and (p / 2 ^ (5 * (5 - i))) 31) (0 ∷ 1 ∷ 2 ∷ 3 ∷ 4 ∷ 5 ∷ [])

unfoldable pub encode_symbols : List ℕ → Text
encode_symbols symbols =
    let values = hrp_expand (codes "npub") ++ symbols in
    let p = bit_xor (polymod (values ++ (0 ∷ 0 ∷ 0 ∷ 0 ∷ 0 ∷ 0 ∷ []))) 1 in
    npub_prefix ++ map (char_at charset) (symbols ++ checksum_symbols p)

unfoldable pub hex_to_npub : Text → Option Text
hex_to_npub pubkey_hex = do
  raw ← from_hex pubkey_hex
  guard (length raw == 32)
  symbols ← convertbits 8 5 true raw
  some (encode_symbols symbols)

unfoldable pub npub_to_hex : Text → Option Text
npub_to_hex npub = do
  let text = lower (strip npub)
  guard (starts_with text npub_prefix)
  symbols ← indices (drop 5 text)
  guard (polymod (hrp_expand (codes "npub") ++ symbols) == 1)
  decoded ← convertbits 5 8 false (take (length symbols - 6) symbols)
  guard (length decoded == 32)
  some (to_hex decoded)

-- `re.fullmatch(r"[0-9a-fA-F]{64}", raw)`, and `_CHANNEL_ID_RE`
unfoldable pub is_hex_id : Text → Bool
is_hex_id raw = (length raw == 64) && all is_hex raw

abbrev pub without_scheme : Text → Text
without_scheme raw = if starts_with (lower raw) (codes "nostr:") then strip (drop 6 raw) else raw

unfoldable pub normalize_npub : Text → Option Text
normalize_npub ref =
    let raw = without_scheme (strip ref) in
    if starts_with (lower raw) npub_prefix
    then (do hx ← npub_to_hex raw; guard (nonempty hx); hex_to_npub hx)
    else if is_hex_id raw
    then hex_to_npub (lower raw)
    else none

unfoldable pub normalize_channel_id : Text → Option Text
normalize_channel_id ref = let raw = strip ref in if is_hex_id raw then some (lower raw) else none

-- To run the codecs: a test that unfolds this name computes through all of them.
unfoldable pub codec : Unit {0}
unfolding is_space lower strip starts_with is_hex char_at index_of indices checksum_symbols
    hrp_expand encode_symbols hex_to_npub npub_to_hex is_hex_id normalize_npub normalize_channel_id
    polymod convertbits from_hex to_hex Hex.hex_value Hex.hex_digit
codec = tt
