-- ===== src/Settings/Apply.antt =====
-- `_apply_yaml_config` of internal/yaml_config.py, section by section. A section that is no mapping has
-- no keys, and so has a block that is no mapping.
use hermes_vector_platform.Prelude.{
  Text, Bool, ◌&&◌, Option, none, some, [], ◌∷◌, codes, strip, lower, nonempty, text_eq,
  starts_with, if◌then◌else◌,
}
use hermes_vector_platform.Prelude.Dicts.{Dict}
use hermes_vector_platform.Prelude.Values.{Value, get, has, text_of}
use hermes_vector_platform.Settings.{
  Step, stay, ◌⨾◌, seed, publish, yaml_on_off, yaml_list_to_csv, yaml_count, is_release_repo,
  is_release_tag,
}

-- `str(section.get(key) or "").strip()`
abbrev pub stripped : Text → Value → Text
stripped key section = strip (text_of (get key section))

module _ (skip : Bool) where
  -- A setting that is seeded and published.
  unfoldable pub seed_env : Text → Text → Text → Step
  seed_env extra_key env_key value = seed extra_key value ⨾ publish skip env_key value

  -- `if value: …`
  unfoldable pub seed_text : Text → Text → Text → Step
  seed_text extra_key env_key value =
      if nonempty value then seed_env extra_key env_key value else stay

  -- `if value is not None: …`
  unfoldable pub seed_option : Text → Text → Option Text → Step
  seed_option extra_key env_key none = stay
  seed_option extra_key env_key (some value) = seed_env extra_key env_key value

  -- `if key in section: …` for a flag and for a count
  unfoldable pub seed_flag : Value → Text → Text → Text → Step
  seed_flag section key extra_key env_key =
      if has key section
      then seed_option extra_key env_key (yaml_on_off (get key section))
      else stay

  unfoldable pub seed_count : Value → Text → Text → Text → Step
  seed_count section key extra_key env_key =
      if has key section then seed_option extra_key env_key (yaml_count (get key section)) else stay

  unfoldable pub apply_bot : Value → Step
  apply_bot bot =
      seed_text (codes "bot_name") (codes "VECTOR_BOT_NAME") (stripped (codes "name") bot)
      ⨾ seed_text (codes "bot_about") (codes "VECTOR_BOT_ABOUT") (stripped (codes "about") bot)
      ⨾ seed_text (codes "bot_avatar") (codes "VECTOR_BOT_AVATAR") (stripped (codes "avatar") bot)
      ⨾ seed_text (codes "bot_banner") (codes "VECTOR_BOT_BANNER") (stripped (codes "banner") bot)

  unfoldable pub apply_flags : Value → Step
  apply_flags cfg =
      seed_flag cfg (codes "reactions") (codes "reactions") (codes "VECTOR_REACTIONS")
      ⨾ seed_flag cfg (codes "missed_react") (codes "missed_react") (codes "VECTOR_MISSED_REACT")
      ⨾ seed_text (codes "missed_react_emoji") (codes "VECTOR_MISSED_REACT_EMOJI")
          (stripped (codes "missed_react_emoji") cfg)
      ⨾ seed_flag cfg (codes "slash_commands") (codes "slash_commands")
          (codes "VECTOR_SLASH_COMMANDS")

  unfoldable pub apply_replay : Value → Step
  apply_replay replay =
      seed_count replay (codes "max_messages") (codes "replay_max") (codes "VECTOR_SSE_REPLAY_MAX")
      ⨾ seed_count replay (codes "max_age_secs") (codes "replay_max_age_secs")
          (codes "VECTOR_SSE_REPLAY_MAX_AGE_SECS")

  unfoldable pub apply_group_context : Value → Step
  apply_group_context section =
      seed_flag section (codes "enabled") (codes "group_context") (codes "VECTOR_GROUP_CONTEXT")
      ⨾ seed_count section (codes "max_messages") (codes "group_context_max")
          (codes "VECTOR_GROUP_CONTEXT_MAX")
      ⨾ seed_count section (codes "max_chars") (codes "group_context_max_chars")
          (codes "VECTOR_GROUP_CONTEXT_MAX_CHARS")
      ⨾ seed_count section (codes "max_age_secs") (codes "group_context_max_age_secs")
          (codes "VECTOR_GROUP_CONTEXT_MAX_AGE_SECS")

  -- The settings of the download stay out of the environment.
  unfoldable pub seed_download : Option Text → Step
  seed_download none = stay
  seed_download (some download) = seed (codes "prebuilt_download") download

  abbrev with_v : Text → Text
  with_v tag = if starts_with tag (codes "v") then tag else b'v' ∷ tag

  unfoldable pub apply_prebuilt : Value → Step
  apply_prebuilt prebuilt =
      let repo = stripped (codes "repo") prebuilt in
      let tag = stripped (codes "tag") prebuilt in
      (if has (codes "download") prebuilt
        then seed_download (yaml_on_off (get (codes "download") prebuilt))
        else stay)
      ⨾ (if nonempty repo && is_release_repo repo then seed (codes "prebuilt_repo") repo else stay)
      ⨾ (if nonempty tag && is_release_tag tag
          then seed (codes "prebuilt_tag") (with_v tag)
          else stay)

  -- `unauthorized_dm_behavior`
  unfoldable pub apply_behavior : Text → Step
  apply_behavior behavior =
      if text_eq behavior (codes "ignore")
      then publish skip (codes "VECTOR_PAIRING") (codes "off")
      else if text_eq behavior (codes "pair")
      then publish skip (codes "VECTOR_PAIRING") (codes "on")
      else stay

  unfoldable pub apply_communities : Value → Step
  apply_communities section =
      seed_flag section (codes "create") (codes "create_community")
        (codes "VECTOR_CREATE_COMMUNITY")
      ⨾ seed_text (codes "community_name") (codes "VECTOR_COMMUNITY_NAME")
          (stripped (codes "name") section)
      ⨾ seed_flag section (codes "download_all") (codes "community_download_all")
          (codes "VECTOR_COMMUNITY_DOWNLOAD_ALL")
      ⨾ seed_text (codes "invite_policy") (codes "VECTOR_INVITE_POLICY")
          (lower (stripped (codes "invite_policy") section))
      ⨾ seed_text (codes "group_allowed_users") (codes "VECTOR_GROUP_ALLOWED_USERS")
          (yaml_list_to_csv (get (codes "group_allowed_users") section))
      ⨾ seed_text (codes "group_allowed_chats") (codes "VECTOR_GROUP_ALLOW_ALL")
          (yaml_list_to_csv (get (codes "open_channels") section))
      ⨾ seed_text (codes "trusted_inviters") (codes "VECTOR_TRUSTED_INVITERS")
          (yaml_list_to_csv (get (codes "trusted_inviters") section))

  -- The sections before and after the one on strangers.
  unfoldable pub apply_first : Value → Step
  apply_first cfg =
      apply_bot (get (codes "bot") cfg)
      ⨾ apply_flags cfg
      ⨾ apply_replay (get (codes "replay") cfg)
      ⨾ apply_group_context (get (codes "group_context") cfg)
      ⨾ apply_prebuilt (get (codes "prebuilt") cfg)

  unfoldable pub apply_all : Value → Step
  apply_all cfg =
      apply_first cfg
      ⨾ apply_behavior (lower (stripped (codes "unauthorized_dm_behavior") cfg))
      ⨾ apply_communities (get (codes "communities") cfg)

  -- The settings, `none` where there are none, and the environment behind the call.
  unfoldable pub apply_yaml_config : Value → Dict → Option Dict × Dict
  apply_yaml_config cfg environ =
      let s = apply_all cfg (record { seeded = []; environ = environ }) in
      (if nonempty s.seeded then some s.seeded else none, s.environ)
