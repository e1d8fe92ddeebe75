-- ===== src/Env.antt =====
-- internal/env.py: reads of the profile's environment, and feature flags.
mod Tests
use hermes_vector_platform.Prelude.{
  Text, ℕ, Bool, true, false, Option, none, some, List, [], ◌∷◌, codes, strip, lower, mem, nonempty,
  or_else, if◌then◌else◌,
}
use hermes_vector_platform.Prelude.Numbers.{Signed, parse_int, is_negative}

-- `gateway.platforms._shared.get_scoped_secret` where the gateway has it, and `os.environ`.
pub record Environ : Type 0 where
  pub scoped_secret : Option (Text → Option Text → Option Text)
  pub vars : Text → Option Text

-- `default if val is None else val`
abbrev pub or_default : Option Text → Option Text → Option Text
or_default none default = default
or_default (some val) default = some val

unfoldable pub scoped_env : Environ → Text → Option Text → Option Text
scoped_env e name default = elim e.scoped_secret [
  | none ↦ or_default (e.vars name) default
  | some get ↦ get name default
]

abbrev pub text_or : Option Text → Text → Text
text_or none default = default
text_or (some val) default = val

unfoldable pub scoped_env_str : Environ → Text → Text
unfolding scoped_env
scoped_env_str e name = text_or (scoped_env e name (some [])) []

unfoldable pub env_flag : Environ → Text → Text → Text
unfolding scoped_env
env_flag e name default = lower (strip (or_else (text_or (scoped_env e name none) []) default))

abbrev on_words : List Text
on_words = codes "1" ∷ codes "true" ∷ codes "yes" ∷ codes "on" ∷ []

abbrev off_words : List Text
off_words =
    codes "off" ∷ codes "0" ∷ codes "false" ∷ codes "no" ∷ codes "disabled" ∷ codes "ignore" ∷ []

unfoldable pub pairing_enabled : Environ → Bool
unfolding env_flag
pairing_enabled e =
    if mem (env_flag e (codes "VECTOR_PAIRING") (codes "on")) off_words then false else true

unfoldable pub processing_reactions_enabled : Environ → Bool
unfolding env_flag
processing_reactions_enabled e = mem (env_flag e (codes "VECTOR_REACTIONS") []) on_words

unfoldable pub create_community_enabled : Environ → Bool
unfolding env_flag
create_community_enabled e = mem (env_flag e (codes "VECTOR_CREATE_COMMUNITY") []) on_words

unfoldable pub community_download_all : Environ → Bool
unfolding env_flag
community_download_all e = mem (env_flag e (codes "VECTOR_COMMUNITY_DOWNLOAD_ALL") []) on_words

unfoldable pub group_context_enabled : Environ → Bool
unfolding env_flag
group_context_enabled e = mem (env_flag e (codes "VECTOR_GROUP_CONTEXT") []) on_words

-- `value if value >= 0 else default`, and `default` where `int` raises
abbrev nonneg_or : Option Signed → ℕ → ℕ
nonneg_or none default = default
nonneg_or (some n) default = if is_negative n then default else n.magnitude

unfoldable pub env_nonneg_int : Environ → Text → ℕ → ℕ
unfolding scoped_env_str parse_int
env_nonneg_int e name default =
    let raw = strip (scoped_env_str e name) in
    if nonempty raw then nonneg_or (parse_int raw) default else default

unfoldable pub group_context_max : Environ → ℕ
unfolding env_nonneg_int
group_context_max e = env_nonneg_int e (codes "VECTOR_GROUP_CONTEXT_MAX") 20

unfoldable pub group_context_max_chars : Environ → ℕ
unfolding env_nonneg_int
group_context_max_chars e = env_nonneg_int e (codes "VECTOR_GROUP_CONTEXT_MAX_CHARS") 8000

unfoldable pub group_context_max_age_secs : Environ → ℕ
unfolding env_nonneg_int
group_context_max_age_secs e = env_nonneg_int e (codes "VECTOR_GROUP_CONTEXT_MAX_AGE_SECS") 7200
