-- ===== src/Sidecar/Tests.antt =====
-- Runs of the environment that the sidecar is started with.
use hermes_vector_platform.Prelude.{◌≡◌, refl, none, some, [], codes, ◌∷◌, starts_with}
use hermes_vector_platform.Prelude.Dicts.{Dict, Map, lookup}
use hermes_vector_platform.Prelude.Values.{Value, str, null}
use hermes_vector_platform.Sidecar.Child.{Instance, spawn_env, bridge_cli_env}
use hermes_vector_platform.Sidecar.Secrets.{IsClean, HasInstance, spawn_env_has_no_secrets}
use hermes_vector_platform.Sidecar.Isolation.{spawn_env_isolates_profiles}

abbrev instance_a : Instance
instance_a = record {
  data_dir = codes "/data";
  bridge_port = codes "8797";
  bridge_host = codes "127.0.0.1";
  token = codes "t";
  bot_name = codes "Ada";
  bot_about = [];
  avatar_file = none;
  banner_file = none;
  extra = null;
}

abbrev leaky : Dict
leaky = (codes "VECTOR_NSEC", codes "nsec1") ∷ (codes "VECTOR_ALLOWED_USERS", codes "alice") ∷ []

abbrev scope_b : Map Value
scope_b =
    (codes "VECTOR_ALLOWED_USERS", str (codes "bob"))
    ∷ (codes "VECTOR_NSEC", str (codes "nsec2"))
    ∷ []

spawn_env_has_no_secrets_example :
    let env = spawn_env (some scope_b) instance_a leaky in
    let cli = bridge_cli_env (codes "/data") leaky in
    IsClean env
    × HasInstance instance_a env
    × IsClean cli
    × (lookup (codes "VECTOR_SIDECAR_TOKEN") cli ≡ none)
    × (lookup (codes "VECTOR_DATA_DIR") cli ≡ some (codes "/data"))
spawn_env_has_no_secrets_example =
    spawn_env_has_no_secrets (some scope_b) instance_a leaky (codes "/data")

spawn_env_isolates_profiles_example :
    lookup (codes "VECTOR_ALLOWED_USERS") (spawn_env (some scope_b) instance_a leaky)
    ≡ lookup (codes "VECTOR_ALLOWED_USERS") (spawn_env (some scope_b) instance_a [])
spawn_env_isolates_profiles_example =
    spawn_env_isolates_profiles scope_b instance_a leaky [] (codes "VECTOR_ALLOWED_USERS")
      (unfold starts_with in refl)
