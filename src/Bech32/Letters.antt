-- ===== src/Bech32/Letters.antt =====
-- The characters of an encoded key: they survive `strip` and `lower`, and `index` reads them back.
use mathlib.Core.Path.{subst}
use hermes_vector_platform.Prelude.{
  ℕ, ◌+◌, ◌*◌, ◌/◌, ◌%◌, ◌<◌, ◌==◌, leb, ◌≡◌, refl, ap, ◌∙◌, arith, Bool, true, false, not, ◌&&◌,
  ◌||◌, &&-eq-true, Option, none, some, List, [], ◌∷◌, map, Text, text_eq, text_eq_iff, is_space,
  lower_char, lower, strip, lstrip, rstrip, if◌then◌else◌,
}
use hermes_vector_platform.Prelude.Maybe.{◌>>=◌}
use hermes_vector_platform.Bech32
use hermes_vector_platform.Bech32.Hex.{hex_value, hex_digit, from_hex, to_hex}
use hermes_vector_platform.Bech32.Linear.{all_below, all_below_sound}
use hermes_vector_platform.Bech32.Symbols.{AllBelow}

-- A character that `strip` and `lower` leave alone.
abbrev pub IsPlain : ℕ → Type 0
IsPlain c = (is_space c ≡ false) × (lower_char c ≡ c ∷ [])

abbrev pub AllPlain : Text → Type 0
AllPlain [] = Unit
AllPlain (c ∷ s) = IsPlain c × AllPlain s

pub lower-AllPlain : (s : Text) → AllPlain s → lower s ≡ s
unfolding lower
lower-AllPlain [] h = refl
lower-AllPlain (c ∷ s) ((p, q), h) = ground (arith, lower-AllPlain s h)

lstrip-AllPlain : (s : Text) → AllPlain s → lstrip s ≡ s
unfolding lstrip
lstrip-AllPlain [] h = refl
lstrip-AllPlain (c ∷ s) ((p, q), h) = rw p

rstrip-AllPlain : (s : Text) → AllPlain s → rstrip s ≡ s
unfolding rstrip
rstrip-AllPlain [] h = refl
rstrip-AllPlain (c ∷ s) ((p, q), h) = rw (p, rstrip-AllPlain s h)

pub strip-AllPlain : (s : Text) → AllPlain s → strip s ≡ s
strip-AllPlain s h = unfold strip in (ap rstrip (lstrip-AllPlain s h) ∙ rstrip-AllPlain s h)

plain_char : ℕ → Bool
plain_char c = not (is_space c) && text_eq (lower_char c) (c ∷ [])

plain_char-IsPlain : (c : ℕ) → plain_char c ≡ true → IsPlain c
unfolding plain_char
plain_char-IsPlain c h = (ground arith, (text_eq_iff (lower_char c) (c ∷ [])).0 (ground arith))

charset_plain : all_below 32 (λ d. plain_char (Bech32.char_at Bech32.charset d)) ≡ true
unfolding all_below plain_char Bech32.char_at is_space lower_char text_eq
charset_plain = refl

pub symbols-AllPlain :
    (ds : List ℕ) → AllBelow 32 ds → AllPlain (map (Bech32.char_at Bech32.charset) ds)
symbols-AllPlain [] h = tt
symbols-AllPlain (d ∷ ds) (p, h) = (
  plain_char-IsPlain (Bech32.char_at Bech32.charset d)
      (all_below_sound 32 (λ d'. plain_char (Bech32.char_at Bech32.charset d')) d charset_plain p),
  symbols-AllPlain ds h,
)

reads_back : ℕ → Option ℕ → Bool
reads_back d none = false
reads_back d (some e) = e == d

reads_back_lem : (d : ℕ) (o : Option ℕ) → reads_back d o ≡ true → o ≡ some d
unfolding reads_back
reads_back_lem d none h = absurd (ground arith)
reads_back_lem d (some e) h = ground arith

charset_index :
    all_below 32
      (λ d. reads_back d (Bech32.index_of (Bech32.char_at Bech32.charset d) Bech32.charset))
    ≡ true
unfolding all_below reads_back Bech32.char_at Bech32.index_of
charset_index = refl

pub indices-char_at :
    (ds : List ℕ)
    → AllBelow 32 ds
    → Bech32.indices (map (Bech32.char_at Bech32.charset) ds) ≡ some ds
unfolding Bech32.indices
indices-char_at [] h = refl
indices-char_at (d ∷ ds) (p, h) =
    let here : Bech32.index_of (Bech32.char_at Bech32.charset d) Bech32.charset ≡ some d =
      reads_back_lem d _ (
        all_below_sound 32
          (λ d'. reads_back d' (Bech32.index_of (Bech32.char_at Bech32.charset d') Bech32.charset))
          d charset_index p) in
    rw (here, indices-char_at ds h)

-- Bytes in hexadecimal digits.
hex_pair : ℕ → Bool
hex_pair v =
    reads_back v (hex_value (hex_digit v))
    && (plain_char (hex_digit v)
        && not ((leb 9 (hex_digit v) && leb (hex_digit v) 13) || hex_digit v == 32))

hex_table : all_below 16 hex_pair ≡ true
unfolding all_below hex_pair reads_back hex_value hex_digit plain_char is_space lower_char text_eq
hex_table = refl

hex_pair_lem :
    (v : ℕ)
    → v < 16
    → (hex_value (hex_digit v) ≡ some v)
      × IsPlain (hex_digit v)
      × (((leb 9 (hex_digit v) && leb (hex_digit v) 13) || hex_digit v == 32) ≡ false)
unfolding hex_pair
hex_pair_lem v h =
    let checked = all_below_sound 16 hex_pair v hex_table h in
    let (value, rest) =
      &&-eq-true (reads_back v (hex_value (hex_digit v)))
        (plain_char (hex_digit v)
          && not ((leb 9 (hex_digit v) && leb (hex_digit v) 13) || hex_digit v == 32))
        checked in
    let (plain, printed) =
      &&-eq-true (plain_char (hex_digit v))
        (not ((leb 9 (hex_digit v) && leb (hex_digit v) 13) || hex_digit v == 32)) rest in
    (
      reads_back_lem v (hex_value (hex_digit v)) value,
      plain_char-IsPlain (hex_digit v) plain,
      ground arith,
    )

pub from_hex-to_hex : (bs : List ℕ) → AllBelow 256 bs → from_hex (to_hex bs) ≡ some bs
unfolding from_hex to_hex
from_hex-to_hex [] h = refl
from_hex-to_hex (b ∷ bs) (p, h) =
    let (hi, _, visible) = hex_pair_lem (b / 16) (omega arith) in
    let (lo, _, _) = hex_pair_lem (b % 16) (omega arith) in
    let joined : b / 16 * 16 + b % 16 ≡ b = omega arith in
    rw (visible, hi, lo, from_hex-to_hex bs h, joined)

pub to_hex-AllPlain : (bs : List ℕ) → AllBelow 256 bs → AllPlain (to_hex bs)
unfolding to_hex
to_hex-AllPlain [] h = tt
to_hex-AllPlain (b ∷ bs) (p, h) = (
  (hex_pair_lem (b / 16) (omega arith)).1,
  ((hex_pair_lem (b % 16) (omega arith)).1, to_hex-AllPlain bs h),
)

-- What `bytes.fromhex` reads are bytes.
hex_value_lt : (c v : ℕ) → hex_value c ≡ some v → v < 16
unfolding hex_value
hex_value_lt c v h = ground arith

abbrev SomeBelow : Option (List ℕ) → Type 0
SomeBelow none = Unit
SomeBelow (some bs) = AllBelow 256 bs

pair_below :
    (hi lo : Option ℕ) (rest : Option (List ℕ))
    → ((v : ℕ) → hi ≡ some v → v < 16)
    → ((v : ℕ) → lo ≡ some v → v < 16)
    → SomeBelow rest
    → SomeBelow (do h ← hi; l ← lo; bs ← rest; some ((h * 16 + l) ∷ bs))
pair_below none lo rest p q r = tt
pair_below (some h) none rest p q r = tt
pair_below (some h) (some l) none p q r = tt
pair_below (some h) (some l) (some bs) p q r = (omega (arith, p h refl, q l refl), r)

if_below :
    (b : Bool) (x y : Option (List ℕ)) → SomeBelow x → SomeBelow y → SomeBelow (if b then x else y)
if_below true x y p q = p
if_below false x y p q = q

from_hex-SomeBelow : (s : Text) → SomeBelow (from_hex s)
unfolding from_hex
from_hex-SomeBelow [] = tt
from_hex-SomeBelow (c ∷ []) = if_below ((leb 9 c && leb c 13) || c == 32) (some []) none tt tt
from_hex-SomeBelow (c ∷ d ∷ s) =
    if_below ((leb 9 c && leb c 13) || c == 32) (from_hex (d ∷ s)) _ (from_hex-SomeBelow (d ∷ s)) (
      pair_below (hex_value c) (hex_value d) (from_hex s) (hex_value_lt c) (hex_value_lt d)
        (from_hex-SomeBelow s))

pub from_hex_below : (s : Text) (bs : List ℕ) → from_hex s ≡ some bs → AllBelow 256 bs
from_hex_below s bs h = subst SomeBelow h (from_hex-SomeBelow s)
