-- ===== src/Settings/Display.antt =====
-- `_merge_vector_display_config` of internal/yaml_config.py, which writes the display settings of the
-- platform and the answers of the wizard into config.yaml. The YAML libraries are the record `Yaml`;
-- comments, quoting and the layout of the file are theirs and are not modelled.
use hermes_vector_platform.Prelude.{
  Text, Bool, true, false, not, ◌&&◌, Option, none, some, [], ◌∷◌, codes, strip, nonempty,
  if◌then◌else◌,
}
use hermes_vector_platform.Prelude.Dicts.{Map}
use hermes_vector_platform.Prelude.Values.{
  Value, null, bool, str, arr, obj, nil, end, field, get, is_obj,
}
use hermes_vector_platform.Prelude.Fields.{set, unset, within, mapping}

-- `None` where a loader raises, or where its library is not installed.
pub record Yaml : Type 0 where
  pub safe_load : Text → Option Value
  pub ruamel_load : Text → Option Value
  -- whether the library is there and the dump and the replacement of the file succeed
  pub ruamel_writes : Value → Bool
  pub pyyaml_installed : Bool
  pub pyyaml_writes : Value → Bool

pub data ConfigFile : Type 0 where
  absent : ConfigFile
  unreadable : ConfigFile
  text : Text → ConfigFile

-- `loaded is not None and not isinstance(loaded, dict)` is refused.
abbrev pub is_root : Value → Bool
is_root null = true
is_root v = is_obj v

abbrev pub loaded_root : Option Value → Bool
loaded_root none = false
loaded_root (some v) = is_root v

unfoldable pub display_config_is_writable : Yaml → ConfigFile → Bool
display_config_is_writable yaml absent = true
display_config_is_writable yaml unreadable = false
display_config_is_writable yaml (text raw) =
    if nonempty (strip raw) then loaded_root (yaml.safe_load raw) else true

-- `_VECTOR_DISPLAY_SETTINGS`, key by key
unfoldable pub display_settings : Value → Value
display_settings vector = set (codes "streaming") (bool false) (
    set (codes "busy_ack_detail") (bool false) (
      set (codes "long_running_notifications") (bool false) (
        set (codes "interim_assistant_messages") (bool false)
          (set (codes "tool_progress") (str (codes "new")) vector))))

unfoldable pub apply_vector_display_settings : Value → Value
apply_vector_display_settings root =
    within (codes "display") (within (codes "platforms") (within (codes "vector") display_settings))
      root

-- `value is None or value == {} or value == []`
unfoldable pub clears : Value → Bool
clears null = true
clears (obj t end) = true
clears (arr t nil) = true
clears v = false

unfoldable pub set_or_pop : Map Value → Value → Value
set_or_pop [] vector = vector
set_or_pop ((key, value) ∷ platform) vector =
    let cleared = clears value in
    set_or_pop platform (if cleared then unset key vector else set key value vector)

abbrev pub no_fields : Value → Bool
no_fields (obj t end) = true
no_fields v = false

unfoldable pub apply_vector_platform_settings : Map Value → Value → Value
apply_vector_platform_settings platform root =
    let vector = set_or_pop platform (mapping (get (codes "vector") root)) in
    if not (nonempty platform)
    then root
    else if no_fields vector
    then unset (codes "vector") root
    else set (codes "vector") vector root

-- The mapping that is written back.
unfoldable pub merged : Map Value → Value → Value
merged platform root =
    apply_vector_platform_settings platform (apply_vector_display_settings (mapping root))

-- The root of a file that is absent or blank is an empty mapping.
abbrev pub root_of : (Text → Option Value) → ConfigFile → Option Value
root_of load absent = some null
root_of load unreadable = none
root_of load (text raw) = if nonempty (strip raw) then load raw else some null

-- What is written, if anything is.
unfoldable pub merge_root : (Value → Bool) → Map Value → Option Value → Option Value
merge_root writes platform none = none
merge_root writes platform (some root) =
    if is_root root && writes (merged platform root) then some (merged platform root) else none

abbrev pub first_of : Option Value → Option Value → Option Value
first_of none second = second
first_of (some v) second = some v

-- The mapping that replaces the file, `none` where the answer is False and the file stays.
unfoldable pub merge_vector_display_config : Yaml → Map Value → ConfigFile → Option Value
merge_vector_display_config yaml platform file =
    if display_config_is_writable yaml file
    then first_of (merge_root yaml.ruamel_writes platform (root_of yaml.ruamel_load file)) (
        if yaml.pyyaml_installed
        then merge_root yaml.pyyaml_writes platform (root_of yaml.safe_load file)
        else none)
    else none

-- The wizard's answers.
unfoldable pub build_setup_vector_yaml : Text → Text → Bool → Map Value
build_setup_vector_yaml bot_name bot_about pairing_on =
    let about = if nonempty bot_about then field (codes "about") (str bot_about) end else end in
    let bot = if nonempty bot_name then field (codes "name") (str bot_name) about else about in
    (codes "bot", if no_fields (obj [] bot) then null else obj [] bot)
    ∷ (codes "unauthorized_dm_behavior", if pairing_on then null else str (codes "ignore"))
    ∷ []
