-- ===== src/Env/Tests.antt =====
-- Runs of the environment reads.
use hermes_vector_platform.Prelude.{
  ◌≡◌, refl, true, false, none, some, codes, text_eq, if◌then◌else◌, strip, lower, mem, is_space,
}
use hermes_vector_platform.Env.{Environ, pairing_enabled}

abbrev pairing_off : Environ
pairing_off = record {
  scoped_secret = none;
  vars = λ name. if text_eq name (codes "VECTOR_PAIRING") then some (codes " Off") else none;
}

abbrev empty : Environ
empty = record { scoped_secret = none; vars = λ name. none }

pairing_is_off : pairing_enabled pairing_off ≡ false
unfolding pairing_enabled text_eq strip lower mem is_space
pairing_is_off = refl

pairing_is_on : pairing_enabled empty ≡ true
unfolding pairing_enabled text_eq strip lower mem is_space
pairing_is_on = refl
