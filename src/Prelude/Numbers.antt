-- ===== src/Prelude/Numbers.antt =====
-- `int(text)`: white space round the number, a sign, and ASCII digits with single underscores
-- between them. A number is its sign and its magnitude.
use Prim.Native.Nat.{ℕ, ◌+◌, ◌-◌, ◌*◌}
use mathlib.Core.Bool.{Bool, true, false, ◌&&◌, ◌||◌}
use mathlib.Core.List.{[], ◌∷◌}
use mathlib.Core.Option.{Option, none, some}
use hermes_vector_platform.Prelude.Tests.{leb, ◌==◌, if◌then◌else◌}
use hermes_vector_platform.Prelude.Strings.{Text, strip}
use hermes_vector_platform.Prelude.Maybe.{◌>>=◌}

abbrev pub is_digit : ℕ → Bool
is_digit c = leb b'0' c && leb c b'9'

unfoldable pub parse_digits : ℕ → Bool → Text → Option ℕ
parse_digits acc after_digit [] = if after_digit then some acc else none
parse_digits acc after_digit (c ∷ s) =
    let rest = parse_digits (if is_digit c then acc * 10 + (c - b'0') else acc) (is_digit c) s in
    if is_digit c || (c == b'_' && after_digit) then rest else none

pub record Signed : Type 0 where
  pub negative : Bool
  pub magnitude : ℕ

abbrev pub is_negative : Signed → Bool
is_negative n = n.negative && (if n.magnitude == 0 then false else true)

signed : Text → Option Signed
signed [] = none
signed (c ∷ s) =
    if c == b'-'
    then (do n ← parse_digits 0 false s; some (record { negative = true; magnitude = n }))
    else if c == b'+'
    then (do n ← parse_digits 0 false s; some (record { negative = false; magnitude = n }))
    else (do n ← parse_digits 0 false (c ∷ s); some (record { negative = false; magnitude = n }))

unfoldable pub parse_int : Text → Option Signed
unfolding parse_digits signed strip
parse_int text = signed (strip text)
