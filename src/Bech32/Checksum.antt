-- ===== src/Bech32/Checksum.antt =====
-- `_bech32_polymod` of internal/bech32.py.
use hermes_vector_platform.Prelude.{
  ℕ, ◌+◌, ◌*◌, ◌/◌, ◌^◌, ◌==◌, List, [], ◌∷◌, bit_and, bit_xor, if◌then◌else◌,
}

abbrev pub generator : List ℕ
generator = 0x3B6A57B2 ∷ 0x26508E6D ∷ 0x1EA119FA ∷ 0x3D4233DD ∷ 0x2A1462B3 ∷ []

-- The inner loop: `chk ^= generator[i] if ((top >> i) & 1) else 0`.
unfoldable pub mix : ℕ → ℕ → List ℕ → ℕ → ℕ
mix top i [] chk = chk
mix top i (g ∷ gs) chk =
    mix top (i + 1) gs (bit_xor chk (if bit_and (top / 2 ^ i) 1 == 0 then 0 else g))

unfoldable pub polymod_step : ℕ → ℕ → ℕ
unfolding mix
polymod_step chk value =
    mix (chk / 2 ^ 25) 0 generator (bit_xor (bit_and chk 0x1FFFFFF * 2 ^ 5) value)

unfoldable pub polymod_from : ℕ → List ℕ → ℕ
unfolding polymod_step
polymod_from chk [] = chk
polymod_from chk (value ∷ values) = polymod_from (polymod_step chk value) values

unfoldable pub polymod : List ℕ → ℕ
unfolding polymod_from
polymod values = polymod_from 1 values
