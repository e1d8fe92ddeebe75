-- ===== src/Bech32/Canonical.antt =====
-- `normalize_npub` gives a canonical text, and all spellings of a key are brought to it.
use hermes_vector_platform.Prelude.{
  map, ℕ, ◌==◌, ◌≡◌, refl, sym, ap, ◌∙◌, arith, Bool, any, not, true, false, Option, none, some,
  List, [], ◌∷◌, ◌++◌, Text, lower, strip, starts_with, codes, length, nonempty, if◌then◌else◌,
}
use hermes_vector_platform.Prelude.Maybe.{◌>>=◌, guard}
use hermes_vector_platform.Bech32
use hermes_vector_platform.Bech32.{hex_to_npub, npub_to_hex, normalize_npub}
use hermes_vector_platform.Bech32.Hex.{from_hex, to_hex}
use hermes_vector_platform.Bech32.Letters.{
  lower-AllPlain, strip-AllPlain, from_hex_below, from_hex-to_hex,
}
use hermes_vector_platform.Bech32.Linear.{all_below, all_below_sound}
use hermes_vector_platform.Bech32.Symbols.{AllBelow}
use hermes_vector_platform.Bech32.RoundTrip.{hex_to_npub-IsEncoded}

nonempty-to_hex : (raw : List ℕ) → length raw ≡ 32 → nonempty (to_hex raw) ≡ true
unfolding to_hex
nonempty-to_hex [] h = absurd (omega arith)
nonempty-to_hex (b ∷ raw) h = refl

not_scheme : (letters : Text) → starts_with (Bech32.npub_prefix ++ letters) (codes "nostr:") ≡ false
unfolding starts_with
not_scheme letters = refl

is_npub : (letters : Text) → starts_with (Bech32.npub_prefix ++ letters) Bech32.npub_prefix ≡ true
unfolding starts_with
is_npub letters = refl

-- The bytes are all that the encoder reads of its argument.
hex_to_npub_same : (a b : Text) → from_hex a ≡ from_hex b → hex_to_npub a ≡ hex_to_npub b
unfolding hex_to_npub
hex_to_npub_same a b h = rw h

-- An encoded key is left alone.
pub normalize_npub-hex_to_npub :
    (pubkey_hex npub : Text) → hex_to_npub pubkey_hex ≡ some npub → normalize_npub npub ≡ some npub
unfolding normalize_npub
normalize_npub-hex_to_npub pubkey_hex npub h =
    let e = hex_to_npub-IsEncoded pubkey_hex npub h in
    let stripped = strip-AllPlain npub e.plain in
    let lowered = lower-AllPlain npub e.plain in
    let plain_start : starts_with npub (codes "nostr:") ≡ false =
      ap (λ (s : Text). starts_with s (codes "nostr:")) e.shape
      ∙ not_scheme (map (Bech32.char_at Bech32.charset) e.symbols) in
    let npub_start : starts_with npub Bech32.npub_prefix ≡ true =
      ap (λ (s : Text). starts_with s Bech32.npub_prefix) e.shape
      ∙ is_npub (map (Bech32.char_at Bech32.charset) e.symbols) in
    let again : hex_to_npub (to_hex e.raw) ≡ some npub =
      hex_to_npub_same (to_hex e.raw) pubkey_hex
        (from_hex-to_hex e.raw (from_hex_below pubkey_hex e.raw e.read) ∙ sym e.read)
      ∙ h in
    rw (stripped, lowered, plain_start, lowered, npub_start, e.decoded)
      (rw (nonempty-to_hex e.raw e.size) again)

-- Whatever a result is made of, the encoder made it.
abbrev IsMade : Option Text → Type 0
IsMade o =
    (npub : Text) → o ≡ some npub → (pubkey_hex : Text) × (hex_to_npub pubkey_hex ≡ some npub)

IsMade-if : (b : Bool) (x y : Option Text) → IsMade x → IsMade y → IsMade (if b then x else y)
IsMade-if true x y p q = p
IsMade-if false x y p q = q

IsMade-bind {ℓ} :
    {A : Type ℓ} (m : Option A) (f : A → Option Text) → ((a : A) → IsMade (f a)) → IsMade (m >>= f)
IsMade-bind none f p = λ npub e. absurd (ground arith)
IsMade-bind (some a) f p = p a

normalize_npub-IsMade : (ref : Text) → IsMade (normalize_npub ref)
unfolding normalize_npub
normalize_npub-IsMade ref =
    let raw : Text = Bech32.without_scheme (strip ref) in
    IsMade-if (starts_with (lower raw) Bech32.npub_prefix) _ _
      (IsMade-bind (npub_to_hex raw) _
        (λ hx. IsMade-bind (guard (nonempty hx)) _ (λ _ npub e. (hx, e))))
      (IsMade-if (Bech32.is_hex_id raw) _ _ (λ npub e. (lower raw, e))
        (λ npub e. absurd (ground arith)))

-- A key that a reference is normalized to is normalized to itself.
pub normalize_npub-normalize_npub :
    (ref npub : Text) → normalize_npub ref ≡ some npub → normalize_npub npub ≡ some npub
normalize_npub-normalize_npub ref npub h =
    let (pubkey_hex, made) = normalize_npub-IsMade ref npub h in
    normalize_npub-hex_to_npub pubkey_hex npub made

-- A comma stands in no canonical key, so keys can be listed with commas between them.
abbrev pub is_comma : ℕ → Bool
is_comma c = c == b','

charset_commas : all_below 32 (λ d. not (is_comma (Bech32.char_at Bech32.charset d))) ≡ true
unfolding all_below Bech32.char_at
charset_commas = refl

no_commas :
    (ds : List ℕ) → AllBelow 32 ds → any is_comma (map (Bech32.char_at Bech32.charset) ds) ≡ false
no_commas [] h = refl
no_commas (d ∷ ds) (p, h) =
    let here =
      all_below_sound 32 (λ d'. not (is_comma (Bech32.char_at Bech32.charset d'))) d charset_commas
        p in
    let rest = no_commas ds h in ground (arith, here, rest)

pub normalize_npub_commas :
    (ref npub : Text) → normalize_npub ref ≡ some npub → any is_comma npub ≡ false
normalize_npub_commas ref npub h =
    let (pubkey_hex, made) = normalize_npub-IsMade ref npub h in
    let e = hex_to_npub-IsEncoded pubkey_hex npub made in
    ap (any is_comma) e.shape ∙ no_commas e.symbols e.symbols_below

-- A canonical key is not the empty text.
pub normalize_npub-nonempty :
    (ref npub : Text) → normalize_npub ref ≡ some npub → nonempty npub ≡ true
normalize_npub-nonempty ref npub h =
    let (pubkey_hex, made) = normalize_npub-IsMade ref npub h in
    ap nonempty (hex_to_npub-IsEncoded pubkey_hex npub made).shape

-- White space round a canonical key is not part of it, and there is none.
pub strip_canonical : (ref npub : Text) → normalize_npub ref ≡ some npub → strip npub ≡ npub
strip_canonical ref npub h =
    let (pubkey_hex, made) = normalize_npub-IsMade ref npub h in
    strip-AllPlain npub (hex_to_npub-IsEncoded pubkey_hex npub made).plain
