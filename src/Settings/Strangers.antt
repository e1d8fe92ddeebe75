-- ===== src/Settings/Strangers.antt =====
-- config.yaml and the handler of DMs together.
use hermes_vector_platform.Prelude.{◌≡◌, ap, ◌∙◌, false, codes, lower}
use hermes_vector_platform.Prelude.Dicts.{Dict}
use hermes_vector_platform.Prelude.Values.{Value}
use hermes_vector_platform.Env.{pairing_enabled}
use hermes_vector_platform.Groups.{sender_is_authorized}
use hermes_vector_platform.Adapter.{Adapter, World}
use hermes_vector_platform.Adapter.Act.{turns}
use hermes_vector_platform.Inbound.{direct_peer}
use hermes_vector_platform.Inbound.Direct.{direct_message}
use hermes_vector_platform.Inbound.Gates.{strangers_are_shut_out}
use hermes_vector_platform.Settings.{is_set}
use hermes_vector_platform.Settings.Apply.{stripped, apply_yaml_config}
use hermes_vector_platform.Settings.Keeps.{pairing_key}
use hermes_vector_platform.Settings.Environ.{process, ignore_disables_pairing}

-- Where config.yaml says `unauthorized_dm_behavior: ignore`, VECTOR_PAIRING is unset or blank, and the
-- adapter reads the environment that the settings were published to, a DM from a sender that is not
-- on VECTOR_ALLOWED_USERS starts no agent turn.
pub ignored_strangers_start_no_turn :
    (cfg : Value) (environ : Dict) (w : World) (msg : Value) (s : Adapter)
    → w.env ≡ process (apply_yaml_config false cfg environ).1
    → is_set pairing_key environ ≡ false
    → lower (stripped (codes "unauthorized_dm_behavior") cfg) ≡ codes "ignore"
    → sender_is_authorized w.env (direct_peer msg) ≡ false
    → turns (direct_message w msg s).1.trace ≡ turns s.trace
ignored_strangers_start_no_turn cfg environ w msg s env unset ignore out =
    strangers_are_shut_out w msg s
      (ap pairing_enabled env ∙ ignore_disables_pairing cfg environ unset ignore) out
