-- ===== src/Settings/Tests.antt =====
-- Runs of internal/yaml_config.py.
use hermes_vector_platform.Prelude.{
  Text, ◌≡◌, refl, true, false, some, [], ◌∷◌, codes, text_eq, strip, lower, mem, is_space,
  nonempty, split_on,
}
use hermes_vector_platform.Prelude.Dicts.{Dict, Map, lookup}
use hermes_vector_platform.Prelude.Values.{
  Value, obj, str, field, end, get, find, text_of, truthy, show, is_obj,
}
use hermes_vector_platform.Env
use hermes_vector_platform.Env.{pairing_enabled, scoped_env, text_or}
use hermes_vector_platform.Groups.{
  npub_or_text, sender_is_authorized, allowed_npubs, npubs_from_env, npubs_from_csv, collect,
}
use hermes_vector_platform.Bech32.{codec}
use hermes_vector_platform.Adapter.{World}
use hermes_vector_platform.Adapter.Act.{turns}
use hermes_vector_platform.Inbound.{direct_peer}
use hermes_vector_platform.Inbound.Direct.{direct_message}
use hermes_vector_platform.Inbound.Tests.{idle, hello, open_world}
use hermes_vector_platform.Settings.{is_set}
use hermes_vector_platform.Settings.Apply.{apply_yaml_config}
use hermes_vector_platform.Settings.Keeps.{pairing_key}
use hermes_vector_platform.Settings.Environ.{process, process_environment_wins}
use hermes_vector_platform.Settings.Strangers.{ignored_strangers_start_no_turn}
use hermes_vector_platform.Settings.Display.{
  Yaml, text, merge_vector_display_config, merge_root, merged, display_config_is_writable,
}
use hermes_vector_platform.Settings.Merge.{HasDisplaySettings, platform_display}
use hermes_vector_platform.Settings.Wizard.{config_merge_keeps_the_rest}

abbrev ignoring : Value
ignoring = obj [] (field (codes "unauthorized_dm_behavior") (str (codes "ignore")) end)

abbrev quiet_environ : Dict
quiet_environ =
    (codes "VECTOR_BOT_NAME", codes "Ada") ∷ (codes "VECTOR_ALLOWED_USERS", codes "bob") ∷ []

unset_pairing : is_set pairing_key quiet_environ ≡ false
unfolding text_eq strip is_space lookup
unset_pairing = refl

named_bot : nonempty (strip (codes "Ada")) ≡ true
unfolding strip is_space
named_bot = refl

says_ignore :
    lower (strip (text_of (get (codes "unauthorized_dm_behavior") ignoring))) ≡ codes "ignore"
unfolding text_of get find text_eq strip lower is_space truthy show
says_ignore = refl

process_environment_wins_example :
    lookup (codes "VECTOR_BOT_NAME") (apply_yaml_config false ignoring quiet_environ).1
    ≡ some (codes "Ada")
process_environment_wins_example =
    process_environment_wins false ignoring quiet_environ (codes "VECTOR_BOT_NAME") (codes "Ada")
      (unfold text_eq lookup in refl) named_bot

abbrev ignoring_world : World
ignoring_world = record open_world {
  env = process (apply_yaml_config false ignoring quiet_environ).1;
}

only_bob :
    lookup (codes "VECTOR_ALLOWED_USERS") (apply_yaml_config false ignoring quiet_environ).1
    ≡ some (codes "bob")
only_bob =
    process_environment_wins false ignoring quiet_environ (codes "VECTOR_ALLOWED_USERS")
      (codes "bob") (unfold text_eq lookup in refl) (unfold strip is_space in refl)

stranger : sender_is_authorized ignoring_world.env (direct_peer hello) ≡ false
unfolding codec sender_is_authorized npub_or_text allowed_npubs npubs_from_env npubs_from_csv
    collect Env.scoped_env_str scoped_env text_eq mem text_of get find truthy show strip split_on
    is_space
stranger = rw only_bob refl

ignored_strangers_start_no_turn_example :
    turns (direct_message ignoring_world hello idle).1.trace ≡ turns []
ignored_strangers_start_no_turn_example =
    ignored_strangers_start_no_turn ignoring quiet_environ ignoring_world hello idle refl
      unset_pairing says_ignore stranger

-- A file that both libraries read as a mapping with one key.
abbrev kept_root : Value
kept_root = obj [] (field (codes "model") (str (codes "m")) end)

abbrev one_yaml : Yaml
one_yaml = record {
  safe_load = λ t. some kept_root;
  ruamel_load = λ t. some kept_root;
  ruamel_writes = λ v. true;
  pyyaml_installed = true;
  pyyaml_writes = λ v. true;
}

abbrev one_file : Text
one_file = codes "model: m"

filled_file : nonempty (strip one_file) ≡ true
unfolding strip is_space
filled_file = refl

written_root :
    (platform : Map Value)
    → merge_vector_display_config one_yaml platform (text one_file)
      ≡ some (merged platform kept_root)
unfolding merge_vector_display_config display_config_is_writable merge_root is_obj
written_root platform = rw filled_file refl

config_merge_keeps_the_rest_example :
    (get (codes "model") (merged [] kept_root) ≡ get (codes "model") kept_root)
    × HasDisplaySettings (platform_display (merged [] kept_root))
config_merge_keeps_the_rest_example =
    config_merge_keeps_the_rest one_yaml [] one_file (merged [] kept_root) kept_root (codes "model")
      refl filled_file refl (written_root []) (unfold text_eq in (refl, refl))
