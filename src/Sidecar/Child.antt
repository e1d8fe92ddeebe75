-- ===== src/Sidecar/Child.antt =====
-- The environment of the sidecar process: `_rewrite_sidecar_profile_env`, `_overlay_sidecar_extra_env`
-- and `_bridge_cli_env` of internal/setup.py, and `spawn` of internal/sidecar.py.
use hermes_vector_platform.Prelude.{
  Text, Bool, not, ◌||◌, Option, none, some, List, [], ◌∷◌, codes, strip, mem, starts_with,
  nonempty, join, if◌then◌else◌,
}
use hermes_vector_platform.Prelude.Dicts.{Dict, Map, put, pop}
use hermes_vector_platform.Prelude.Values.{Value, null, bool, str, show, get, is_arr, items_of}
use hermes_vector_platform.Settings.{is_set, on_off, filled}

abbrev pub is_vector_key : Text → Bool
is_vector_key key = starts_with key (codes "VECTOR_")

-- What the secret scope is never copied under.
abbrev pub secret_keys : List Text
secret_keys = codes "VECTOR_NSEC" ∷ codes "VECTOR_MNEMONIC" ∷ codes "VECTOR_STUB" ∷ []

unfoldable pub drop_vector_keys : Dict → Dict
drop_vector_keys [] = []
drop_vector_keys ((key, value) ∷ env) =
    let rest = drop_vector_keys env in if is_vector_key key then rest else (key, value) ∷ rest

-- `str(val).strip() if val is not None else ""`
abbrev pub scope_text : Value → Text
scope_text null = []
scope_text v = strip (show v)

unfoldable pub restore_scope : Map Value → Dict → Dict
restore_scope [] env = env
restore_scope ((key, val) ∷ scope) env =
    let skipped =
      not (is_vector_key key) || (mem key secret_keys || not (nonempty (scope_text val))) in
    restore_scope scope (if skipped then env else put key (scope_text val) env)

-- `scope` is the secret scope of the gateway, where multiplexing is on and one is installed.
unfoldable pub rewrite_sidecar_profile_env : Option (Map Value) → Dict → Dict
rewrite_sidecar_profile_env none env = env
rewrite_sidecar_profile_env (some scope) env = restore_scope scope (drop_vector_keys env)

abbrev pub overlay_mapping : Dict
overlay_mapping =
    (codes "VECTOR_INVITE_POLICY", codes "invite_policy")
    ∷ (codes "VECTOR_TRUSTED_INVITERS", codes "trusted_inviters")
    ∷ (codes "VECTOR_SLASH_COMMANDS", codes "slash_commands")
    ∷ (codes "VECTOR_MISSED_REACT", codes "missed_react")
    ∷ (codes "VECTOR_MISSED_REACT_EMOJI", codes "missed_react_emoji")
    ∷ (codes "VECTOR_SSE_REPLAY_MAX", codes "replay_max")
    ∷ (codes "VECTOR_SSE_REPLAY_MAX_AGE_SECS", codes "replay_max_age_secs")
    ∷ (codes "VECTOR_COMMUNITY_NAME", codes "community_name")
    ∷ (codes "VECTOR_CREATE_COMMUNITY", codes "create_community")
    ∷ (codes "VECTOR_COMMUNITY_DOWNLOAD_ALL", codes "community_download_all")
    ∷ (codes "VECTOR_REACTIONS", codes "reactions")
    ∷ (codes "VECTOR_GROUP_ALLOWED_USERS", codes "group_allowed_users")
    ∷ (codes "VECTOR_GROUP_ALLOW_ALL", codes "group_allowed_chats")
    ∷ []

-- The text of a setting, `none` where it is left out.
unfoldable pub extra_text : Value → Option Text
extra_text null = none
extra_text (bool flag) = some (on_off flag)
extra_text (str t) = if nonempty t then some t else none
extra_text v = some (if is_arr v then join (codes ",") (filled (items_of v)) else show v)

abbrev pub put_option : Text → Option Text → Dict → Dict
put_option key none env = env
put_option key (some value) env = put key value env

unfoldable pub overlay : Dict → Value → Dict → Dict
overlay [] extra env = env
overlay ((env_key, extra_key) ∷ mapping) extra env =
    let set = is_set env_key env in
    overlay mapping extra
      (if set then env else put_option env_key (extra_text (get extra_key extra)) env)

unfoldable pub overlay_sidecar_extra_env : Value → Dict → Dict
overlay_sidecar_extra_env extra env = overlay overlay_mapping extra env

-- What `spawn` reads from the adapter. A picture is the resolved path where it is a file.
pub record Instance : Type 0 where
  pub data_dir : Text
  pub bridge_port : Text
  pub bridge_host : Text
  pub token : Text
  pub bot_name : Text
  pub bot_about : Text
  pub avatar_file : Option Text
  pub banner_file : Option Text
  pub extra : Value

unfoldable pub pop_all : List Text → Dict → Dict
pop_all [] env = env
pop_all (key ∷ keys) env = pop_all keys (pop key env)

-- `env.update({…})`
unfoldable pub put_all : Dict → Dict → Dict
put_all [] env = env
put_all ((key, value) ∷ more) env = put_all more (put key value env)

abbrev pub instance_env : Instance → Dict
instance_env i =
    (codes "VECTOR_DATA_DIR", i.data_dir)
    ∷ (codes "VECTOR_BRIDGE_PORT", i.bridge_port)
    ∷ (codes "VECTOR_BRIDGE_HOST", i.bridge_host)
    ∷ (codes "VECTOR_SIDECAR_TOKEN", i.token)
    ∷ (codes "VECTOR_SIDECAR_WATCH_STDIN", codes "1")
    ∷ []

abbrev pub profile_keys : List Text
profile_keys =
    codes "VECTOR_BOT_NAME"
    ∷ codes "VECTOR_BOT_ABOUT"
    ∷ codes "VECTOR_BOT_AVATAR"
    ∷ codes "VECTOR_BOT_BANNER"
    ∷ []

abbrev pub put_text : Text → Text → Dict → Dict
put_text key value env = if nonempty value then put key value env else env

unfoldable pub put_profile : Instance → Dict → Dict
put_profile i env = put_option (codes "VECTOR_BOT_BANNER") i.banner_file (
    put_option (codes "VECTOR_BOT_AVATAR") i.avatar_file (
      put_text (codes "VECTOR_BOT_ABOUT") i.bot_about
        (put_text (codes "VECTOR_BOT_NAME") i.bot_name env)))

-- The three calls of `env.pop` at the end
unfoldable pub pop_secrets : Dict → Dict
pop_secrets env =
    pop (codes "VECTOR_STUB") (pop (codes "VECTOR_MNEMONIC") (pop (codes "VECTOR_NSEC") env))

-- The environment that `spawn` starts the process with.
unfoldable pub spawn_env : Option (Map Value) → Instance → Dict → Dict
spawn_env scope i environ =
    let env = put_all (instance_env i) (rewrite_sidecar_profile_env scope environ) in
    pop_secrets (put_profile i (overlay_sidecar_extra_env i.extra (pop_all profile_keys env)))

-- The environment of `vector-bridge --check` and `--setup`.
unfoldable pub bridge_cli_env : Text → Dict → Dict
bridge_cli_env data_dir environ =
    pop (codes "VECTOR_SIDECAR_TOKEN")
      (pop_secrets (put (codes "VECTOR_DATA_DIR") data_dir environ))
