-- ===== src/Settings/Keeps.antt =====
-- What the sections of `_apply_yaml_config` keep, from what a single write keeps.
use hermes_vector_platform.Prelude.{
  Text, ◌≡◌, refl, Bool, true, false, Option, none, some, codes, text_eq, nonempty, if◌then◌else◌,
}
use hermes_vector_platform.Prelude.Values.{Value}
use hermes_vector_platform.Settings.{Seeding, Step, stay, ◌⨾◌, seed, publish}
use hermes_vector_platform.Settings.Apply.{
  seed_env, seed_text, seed_option, seed_flag, seed_count, apply_bot, apply_flags, apply_replay,
  apply_group_context, seed_download, apply_prebuilt, apply_behavior, apply_communities,
  apply_first, apply_all,
}

-- `f` keeps `P`.
pub record Keeps (P : Seeding → Type 0) (f : Step) : Type 0 where
  pub at : (s : Seeding) → P s → P (f s)

abbrev pub pairing_key : Text
pairing_key = codes "VECTOR_PAIRING"

module _ {P : Seeding → Type 0} where
  Keeps-stay : Keeps P stay
  Keeps-stay = record { at = λ s h. unfold stay in h }

  pub Keeps-⨾ : (f g : Step) → Keeps P f → Keeps P g → Keeps P (f ⨾ g)
  Keeps-⨾ f g p q = record { at = λ s h. unfold ◌⨾◌ in q.at (f s) (p.at s h) }

  Keeps-if : (b : Bool) (f g : Step) → Keeps P f → Keeps P g → Keeps P (if b then f else g)
  Keeps-if true f g p q = p
  Keeps-if false f g p q = q

ruleset steps = (Keeps-stay, Keeps-⨾, Keeps-if)

module _ (skip : Bool) (P : Seeding → Type 0)
    (seed-Keeps : (key value : Text) → Keeps P (seed key value))
    (publish-Keeps : (key value : Text)
      → text_eq key pairing_key ≡ false
      → Keeps P (publish skip key value)) where
  seed_env-Keeps :
      (extra_key env_key value : Text)
      → text_eq env_key pairing_key ≡ false
      → Keeps P (seed_env skip extra_key env_key value)
  unfolding seed_env
  seed_env-Keeps extra_key env_key value other = search (steps, seed-Keeps, publish-Keeps)

  seed_text-Keeps :
      (extra_key env_key value : Text)
      → text_eq env_key pairing_key ≡ false
      → Keeps P (seed_text skip extra_key env_key value)
  unfolding seed_text
  seed_text-Keeps extra_key env_key value other =
      Keeps-if (nonempty value) _ _ (seed_env-Keeps extra_key env_key value other) Keeps-stay

  seed_option-Keeps :
      (extra_key env_key : Text) (o : Option Text)
      → text_eq env_key pairing_key ≡ false
      → Keeps P (seed_option skip extra_key env_key o)
  unfolding seed_option
  seed_option-Keeps extra_key env_key none other = Keeps-stay
  seed_option-Keeps extra_key env_key (some value) other =
      seed_env-Keeps extra_key env_key value other

  seed_flag-Keeps :
      (section : Value) (key extra_key env_key : Text)
      → text_eq env_key pairing_key ≡ false
      → Keeps P (seed_flag skip section key extra_key env_key)
  unfolding seed_flag
  seed_flag-Keeps section key extra_key env_key other =
      Keeps-if _ _ _ (seed_option-Keeps extra_key env_key _ other) Keeps-stay

  seed_count-Keeps :
      (section : Value) (key extra_key env_key : Text)
      → text_eq env_key pairing_key ≡ false
      → Keeps P (seed_count skip section key extra_key env_key)
  unfolding seed_count
  seed_count-Keeps section key extra_key env_key other =
      Keeps-if _ _ _ (seed_option-Keeps extra_key env_key _ other) Keeps-stay

  ruleset settings = (steps, seed_text-Keeps, seed_flag-Keeps, seed_count-Keeps, refl)

  apply_bot-Keeps : (bot : Value) → Keeps P (apply_bot skip bot)
  unfolding apply_bot text_eq
  apply_bot-Keeps bot = search (settings)

  apply_flags-Keeps : (cfg : Value) → Keeps P (apply_flags skip cfg)
  unfolding apply_flags text_eq
  apply_flags-Keeps cfg = search (settings)

  apply_replay-Keeps : (replay : Value) → Keeps P (apply_replay skip replay)
  unfolding apply_replay text_eq
  apply_replay-Keeps replay = search (settings)

  apply_group_context-Keeps : (section : Value) → Keeps P (apply_group_context skip section)
  unfolding apply_group_context text_eq
  apply_group_context-Keeps section = search (settings)

  seed_download-Keeps : (o : Option Text) → Keeps P (seed_download skip o)
  unfolding seed_download
  seed_download-Keeps none = Keeps-stay
  seed_download-Keeps (some download) = seed-Keeps _ download

  apply_prebuilt-Keeps : (prebuilt : Value) → Keeps P (apply_prebuilt skip prebuilt)
  unfolding apply_prebuilt
  apply_prebuilt-Keeps prebuilt = search (steps, seed-Keeps, seed_download-Keeps)

  pub apply_communities-Keeps : (section : Value) → Keeps P (apply_communities skip section)
  unfolding apply_communities text_eq
  apply_communities-Keeps section = search (settings) depth 9

  pub apply_first-Keeps : (cfg : Value) → Keeps P (apply_first skip cfg)
  unfolding apply_first
  apply_first-Keeps cfg = search (
    steps, apply_bot-Keeps, apply_flags-Keeps, apply_replay-Keeps, apply_group_context-Keeps,
    apply_prebuilt-Keeps,
  )

  -- Where the write for strangers keeps `P` too, so does the whole translation.
  pub apply_all-Keeps :
      ((value : Text) → Keeps P (publish skip pairing_key value))
      → (cfg : Value) → Keeps P (apply_all skip cfg)
  unfolding apply_all apply_behavior
  apply_all-Keeps pairing cfg = search (steps, apply_first-Keeps, apply_communities-Keeps, pairing)
