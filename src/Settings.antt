-- ===== src/Settings.antt =====
-- internal/yaml_config.py: the `vector:` block of config.yaml, translated into the process environment
-- and the settings that the adapter is constructed with. `os.environ` is a dictionary here; whether a
-- secondary profile loads its settings, a question to the gateway, is the argument `skip`.
pub mod Apply
pub mod Keeps
pub mod Environ
pub mod Strangers
pub mod Display
pub mod Merge
pub mod Wizard
mod Tests
use hermes_vector_platform.Prelude.{
  Text, ℕ, suc, Bool, true, false, not, ◌&&◌, ◌||◌, Option, none, some, List, [], ◌∷◌, ◌++◌, codes,
  strip, lower, mem, nonempty, all, split_on, join, starts_with, leb, ◌==◌, if◌then◌else◌,
}
use hermes_vector_platform.Prelude.Dicts.{Dict, lookup, put}
use hermes_vector_platform.Prelude.Numbers.{Signed, parse_int, is_negative}
use hermes_vector_platform.Prelude.Values.{
  Value, null, bool, show, get, text_of, items_of, is_arr, digits_of,
}
use hermes_vector_platform.Env.{text_or}

-- `"on" if flag else "off"`
abbrev pub on_off : Bool → Text
on_off flag = if flag then codes "on" else codes "off"

abbrev yes_words : List Text
yes_words = codes "on" ∷ codes "true" ∷ codes "1" ∷ codes "yes" ∷ []

abbrev no_words : List Text
no_words = codes "off" ∷ codes "false" ∷ codes "0" ∷ codes "no" ∷ []

unfoldable pub on_off_text : Text → Option Text
on_off_text text =
    if mem text yes_words
    then some (codes "on")
    else if mem text no_words
    then some (codes "off")
    else none

unfoldable pub yaml_on_off : Value → Option Text
unfolding on_off_text
yaml_on_off null = none
yaml_on_off (bool flag) = some (on_off flag)
yaml_on_off v = on_off_text (lower (strip (show v)))

-- The items of a list that are not blank, without the white space round them.
unfoldable pub filled : List Value → List Text
filled [] = []
filled (v ∷ vs) =
    let rest = filled vs in if nonempty (strip (show v)) then strip (show v) ∷ rest else rest

-- `yaml.safe_load` gives no tuples.
unfoldable pub yaml_list_to_csv : Value → Text
unfolding filled
yaml_list_to_csv null = []
yaml_list_to_csv v = if is_arr v then join (codes ",") (filled (items_of v)) else strip (show v)

-- `str(count) if count >= 0 else None`, and None where `int` raises
unfoldable pub count_text : Option Signed → Option Text
count_text none = none
count_text (some n) = if is_negative n then none else some (digits_of (suc n.magnitude) n.magnitude)

unfoldable pub yaml_count : Value → Option Text
unfolding count_text parse_int
yaml_count null = none
yaml_count (bool flag) = none
yaml_count v = count_text (parse_int (strip (show v)))

-- `(os.getenv(key) or "").strip()` holds
abbrev pub is_set : Text → Dict → Bool
is_set key environ = nonempty (strip (text_or (lookup key environ) []))

unfoldable pub set_env_if_unset : Bool → Text → Text → Dict → Dict
set_env_if_unset skip key value environ =
    if skip then environ else if is_set key environ then environ else put key value environ

-- A character of the names on GitHub.
abbrev pub is_name_char : ℕ → Bool
is_name_char c =
    (leb b'A' c && leb c b'Z')
    || (leb b'a' c && leb c b'z')
    || (leb b'0' c && leb c b'9')
    || (c == b'_' || (c == b'.' || c == b'-'))

abbrev is_release_name : Text → Bool
is_release_name name = nonempty name && all is_name_char name

abbrev two_names : List Text → Bool
two_names (owner ∷ name ∷ []) = is_release_name owner && is_release_name name
two_names parts = false

-- `_RELEASE_REPO_RE.fullmatch(repo)` and `_RELEASE_TAG_RE.fullmatch(tag)`
unfoldable pub is_release_repo : Text → Bool
is_release_repo repo = two_names (split_on b'/' repo)

unfoldable pub is_release_tag : Text → Bool
is_release_tag tag = is_release_name tag

-- What `_apply_yaml_config` has so far: its result and the environment of the process.
pub record Seeding : Type 0 where
  pub seeded : Dict
  pub environ : Dict

abbrev pub Step : Type 0
Step = Seeding → Seeding

unfoldable pub stay : Step
stay s = s

infixl 5 ◌⨾◌
unfoldable pub ◌⨾◌ : Step → Step → Step
◌⨾◌ f g s = g (f s)

-- `seeded[key] = value`
unfoldable pub seed : Text → Text → Step
seed key value s = record s { seeded = put key value s.seeded }

-- `_set_env_if_unset(key, value, skip=skip)`
unfoldable pub publish : Bool → Text → Text → Step
publish skip key value s = record s { environ = set_env_if_unset skip key value s.environ }
