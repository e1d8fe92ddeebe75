-- ===== src/Bech32/Hex.antt =====
-- `bytes.fromhex` and `bytes.hex`, which internal/bech32.py calls.
use hermes_vector_platform.Prelude.{
  Text, ℕ, ◌+◌, ◌-◌, ◌*◌, ◌/◌, ◌%◌, ◌==◌, leb, ltb, ◌&&◌, ◌||◌, Option, none, some, List, [], ◌∷◌,
  if◌then◌else◌,
}
use hermes_vector_platform.Prelude.Maybe.{◌>>=◌}

unfoldable pub hex_value : ℕ → Option ℕ
hex_value c =
    if leb b'0' c && leb c b'9'
    then some (c - b'0')
    else if leb b'a' c && leb c b'f'
    then some (c - b'a' + 10)
    else if leb b'A' c && leb c b'F'
    then some (c - b'A' + 10)
    else none

unfoldable pub hex_digit : ℕ → ℕ
hex_digit v = if ltb v 10 then v + b'0' else v - 10 + b'a'

-- ASCII white space may stand between the bytes.
unfoldable pub from_hex : Text → Option (List ℕ)
from_hex [] = some []
from_hex (c ∷ []) = if (leb 9 c && leb c 13) || c == 32 then some [] else none
from_hex (c ∷ d ∷ s) =
    let skipped = from_hex (d ∷ s) in
    let paired = (do
      hi ← hex_value c
      lo ← hex_value d
      bs ← from_hex s
      some ((hi * 16 + lo) ∷ bs)) in
    if (leb 9 c && leb c 13) || c == 32 then skipped else paired

unfoldable pub to_hex : List ℕ → Text
to_hex [] = []
to_hex (b ∷ bs) = hex_digit (b / 16) ∷ hex_digit (b % 16) ∷ to_hex bs
