-- ===== src/Bech32/RoundTrip.antt =====
-- The two codecs of internal/bech32.py are inverse to one another on keys.
use mathlib.Core.Path.{subst}
use mathlib.Core.List.{append_assoc}
use hermes_vector_platform.Prelude.{
  ℕ, ◌-◌, ◌==◌, ==_iff, ◌≡◌, refl, sym, ap, ◌∙◌, arith, true, false, Option, some, List, ◌++◌, map,
  Text, lower, lower_char, strip, is_space, starts_with, codes, length, length-append, take,
  take-append, bit_xor,
}
use hermes_vector_platform.Prelude.Maybe.{◌>>=◌, guard, >>=-eq-some, some_inj, guard_lem}
use hermes_vector_platform.Bech32
use hermes_vector_platform.Bech32.{hex_to_npub, npub_to_hex}
use hermes_vector_platform.Bech32.Checksum.{polymod}
use hermes_vector_platform.Bech32.Convert.{convertbits}
use hermes_vector_platform.Bech32.Hex.{from_hex, to_hex}
use hermes_vector_platform.Bech32.Symbols.{AllBelow, AllBelow-append}
use hermes_vector_platform.Bech32.Residue.{residue, checksum_symbols_below, zeros}
use hermes_vector_platform.Bech32.Letters.{
  AllPlain, lower-AllPlain, strip-AllPlain, symbols-AllPlain, indices-char_at, from_hex_below,
}
use hermes_vector_platform.Bech32.Regroup.Inverse.{convertbits_pad, convertbits_strict}

abbrev values_of : List ℕ → List ℕ
values_of symbols = Bech32.hrp_expand (codes "npub") ++ symbols

-- The checksum symbols of a list of data symbols.
check_of : List ℕ → List ℕ
check_of symbols = Bech32.checksum_symbols (bit_xor (polymod (values_of symbols ++ zeros)) 1)

hrp_below : AllBelow 32 (Bech32.hrp_expand (codes "npub"))
unfolding Bech32.hrp_expand
hrp_below = omega arith

encode_symbols_lem :
    (symbols : List ℕ)
    → Bech32.encode_symbols symbols
      ≡ Bech32.npub_prefix ++ map (Bech32.char_at Bech32.charset) (symbols ++ check_of symbols)
unfolding Bech32.encode_symbols check_of
encode_symbols_lem symbols = refl

length-check_of : (symbols : List ℕ) → length (check_of symbols) ≡ 6
unfolding check_of Bech32.checksum_symbols
length-check_of symbols = refl

prefix-AllPlain : (s : Text) → AllPlain s → AllPlain (Bech32.npub_prefix ++ s)
unfolding is_space lower_char
prefix-AllPlain s h =
    ((refl, refl), ((refl, refl), ((refl, refl), ((refl, refl), ((refl, refl), h)))))

starts_with-prefix : (s : Text) → starts_with (Bech32.npub_prefix ++ s) Bech32.npub_prefix ≡ true
unfolding starts_with
starts_with-prefix s = refl

all_symbols_below :
    (symbols : List ℕ) → AllBelow 32 symbols → AllBelow 32 (symbols ++ check_of symbols)
unfolding check_of
all_symbols_below symbols h =
    AllBelow-append 32 symbols (check_of symbols) h (checksum_symbols_below _)

-- Decoding what was encoded from symbols.
decode_symbols :
    (symbols bytes : List ℕ)
    → AllBelow 32 symbols
    → length bytes ≡ 32
    → convertbits 5 8 false symbols ≡ some bytes
    → npub_to_hex (Bech32.encode_symbols symbols) ≡ some (to_hex bytes)
unfolding npub_to_hex
decode_symbols symbols bytes h size converted =
    let all_symbols : List ℕ = symbols ++ check_of symbols in
    let text : Text = Bech32.npub_prefix ++ map (Bech32.char_at Bech32.charset) all_symbols in
    let below : AllBelow 32 all_symbols = all_symbols_below symbols h in
    let plain : AllPlain text = prefix-AllPlain _ (symbols-AllPlain all_symbols below) in
    let cleaned : lower (strip text) ≡ text =
      ap lower (strip-AllPlain text plain) ∙ lower-AllPlain text plain in
    let accepted : polymod (values_of all_symbols) ≡ 1 =
      ap polymod (sym (append_assoc (Bech32.hrp_expand (codes "npub")) symbols (check_of symbols)))
      ∙ unfold check_of in residue (values_of symbols) (AllBelow-append 32 _ symbols hrp_below h) in
    let six : length all_symbols - 6 ≡ length symbols =
      omega (arith, length-append {0} symbols (check_of symbols), length-check_of symbols) in
    let data_part : take (length all_symbols - 6) all_symbols ≡ symbols =
      ap (λ (k : ℕ). take k all_symbols) six ∙ take-append symbols (check_of symbols) in
    rw (encode_symbols_lem symbols) (
      rw (cleaned, starts_with-prefix (map (Bech32.char_at Bech32.charset) all_symbols))
        (rw (indices-char_at all_symbols below, accepted, data_part, converted, size)))

-- What an encoded key looks like, and what it decodes to.
pub record IsEncoded (pubkey_hex npub : Text) : Type 0 where
  pub raw : List ℕ
  pub read : from_hex pubkey_hex ≡ some raw
  pub size : length raw ≡ 32
  pub decoded : npub_to_hex npub ≡ some (to_hex raw)
  pub symbols : List ℕ
  pub symbols_below : AllBelow 32 symbols
  pub shape : npub ≡ Bech32.npub_prefix ++ map (Bech32.char_at Bech32.charset) symbols
  pub plain : AllPlain npub

pub hex_to_npub-IsEncoded :
    (pubkey_hex npub : Text) → hex_to_npub pubkey_hex ≡ some npub → IsEncoded pubkey_hex npub
unfolding hex_to_npub
hex_to_npub-IsEncoded pubkey_hex npub h =
    let (raw, read, checked) = >>=-eq-some (from_hex pubkey_hex) _ h in
    let (_, passed, converted) = >>=-eq-some (guard (length raw == 32)) _ checked in
    let size : length raw ≡ 32 = (==_iff (length raw) 32).0 (guard_lem _ passed) in
    let (symbols, j, out, digits, short, below) =
      convertbits_pad 8 5 raw (omega arith) (from_hex_below pubkey_hex raw read) in
    let symbols_below : AllBelow 32 symbols = below in
    let encoded : Bech32.encode_symbols symbols ≡ npub = some_inj (
      sym (ap (λ (m : Option (List ℕ)). m >>= λ ds. some (Bech32.encode_symbols ds)) out)
      ∙ converted) in
    let back =
      convertbits_strict 5 8 j symbols raw short (omega arith) below
        (from_hex_below pubkey_hex raw read) digits in
    let all_symbols : List ℕ = symbols ++ check_of symbols in
    let shape = sym encoded ∙ encode_symbols_lem symbols in
    record {
      raw = raw;
      read = read;
      size = size;
      decoded = ap npub_to_hex (sym encoded) ∙ decode_symbols symbols raw symbols_below size back;
      symbols = all_symbols;
      symbols_below = all_symbols_below symbols symbols_below;
      shape = shape;
      plain = subst AllPlain (sym shape) (
          prefix-AllPlain _
            (symbols-AllPlain all_symbols (all_symbols_below symbols symbols_below)));
    }

-- A key that encodes consists of 32 bytes in hexadecimal digits, and its npub is decoded to the same
-- bytes, written in lower-case digits.
pub npub_to_hex-hex_to_npub :
    (pubkey_hex npub : Text)
    → hex_to_npub pubkey_hex ≡ some npub
    → (raw : List ℕ) × (from_hex pubkey_hex ≡ some raw)
      × (length raw ≡ 32)
      × (npub_to_hex npub ≡ some (to_hex raw))
npub_to_hex-hex_to_npub pubkey_hex npub h =
    let e = hex_to_npub-IsEncoded pubkey_hex npub h in (e.raw, e.read, e.size, e.decoded)
