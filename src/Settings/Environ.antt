-- ===== src/Settings/Environ.antt =====
-- The environment of the process behind `_apply_yaml_config`.
use hermes_vector_platform.Prelude.{
  Text, is_space, ◌≡◌, refl, ap, ◌∙◌, Bool, true, false, Option, none, some, [], codes, text_eq,
  text_eq_iff, strip, lower, mem, nonempty, Bool-cases, inl, inr, if◌then◌else◌, arith,
}
use hermes_vector_platform.Prelude.Dicts.{Dict, lookup, lookup-put}
use hermes_vector_platform.Prelude.Values.{Value, get}
use hermes_vector_platform.Env.{Environ, text_or, pairing_enabled, env_flag, scoped_env}
use hermes_vector_platform.Settings.{Seeding, ◌⨾◌, seed, publish, is_set, set_env_if_unset}
use hermes_vector_platform.Settings.Apply.{
  stripped, apply_first, apply_behavior, apply_all, apply_yaml_config,
}
use hermes_vector_platform.Settings.Keeps.{
  Keeps, pairing_key, apply_all-Keeps, apply_first-Keeps, apply_communities-Keeps,
}

-- The environment holds the value under the key.
abbrev Reads : Text → Option Text → Seeding → Type 0
Reads key o s = lookup key s.environ ≡ o

seed-Reads : (key : Text) (o : Option Text) (k v : Text) → Keeps (Reads key o) (seed k v)
seed-Reads key o k v = record { at = λ s h. unfold seed in h }

-- A write leaves a variable that is set, and one of another name.
pub lookup-set_env :
    (skip : Bool) (key k value : Text) (environ : Dict)
    → lookup k (set_env_if_unset skip key value environ) ≡ (
        if skip
        then lookup k environ
        else if is_set key environ
        then lookup k environ
        else if text_eq k key
        then some value
        else lookup k environ)
unfolding set_env_if_unset
lookup-set_env true key k value environ = refl
lookup-set_env false key k value environ = elim (Bool-cases (is_set key environ)) [
  | inl set ↦ rw set
  | inr unset ↦ rw unset (lookup-put k key value environ)
]

publish-Reads_set :
    (skip : Bool) (key old : Text)
    → nonempty (strip old) ≡ true
    → (k v : Text) → Keeps (Reads key (some old)) (publish skip k v)
publish-Reads_set skip key old filled k v = record {
  at = λ s h. unfold publish in kept s h (lookup-set_env skip k key v s.environ);
}
  where
    kept :
        (s : Seeding)
        → lookup key s.environ ≡ some old
        → lookup key (set_env_if_unset skip k v s.environ) ≡ (
            if skip
            then lookup key s.environ
            else if is_set k s.environ
            then lookup key s.environ
            else if text_eq key k
            then some v
            else lookup key s.environ)
        → lookup key (set_env_if_unset skip k v s.environ) ≡ some old
    kept s h e = ground (arith, text_eq_iff key k)

-- A variable of the process that is not blank keeps its value, whatever config.yaml says.
pub process_environment_wins :
    (skip : Bool) (cfg : Value) (environ : Dict) (key value : Text)
    → lookup key environ ≡ some value
    → nonempty (strip value) ≡ true
    → lookup key (apply_yaml_config skip cfg environ).1 ≡ some value
unfolding apply_yaml_config
process_environment_wins skip cfg environ key value h filled =
    (apply_all-Keeps skip (Reads key (some value)) (seed-Reads key (some value))
        (λ k v other. publish-Reads_set skip key value filled k v)
        (publish-Reads_set skip key value filled pairing_key) cfg).at
      (record { seeded = []; environ = environ }) h

-- A secondary profile writes nothing into the environment of the process.
pub secondary_profile_publishes_nothing :
    (cfg : Value) (environ : Dict) → (apply_yaml_config true cfg environ).1 ≡ environ
unfolding apply_yaml_config
secondary_profile_publishes_nothing cfg environ =
    (apply_all-Keeps true (λ s. s.environ ≡ environ) seeds (λ k v other. publishes k v)
        (publishes pairing_key) cfg).at
      (record { seeded = []; environ = environ }) refl
  where
    seeds : (k v : Text) → Keeps (λ s. s.environ ≡ environ) (seed k v)
    seeds k v = record { at = λ s h. unfold seed in h }

    publishes : (k v : Text) → Keeps (λ s. s.environ ≡ environ) (publish true k v)
    publishes k v = record { at = λ s h. unfold publish set_env_if_unset in h }

publish-Reads_other :
    (skip : Bool) (o : Option Text) (k v : Text)
    → text_eq k pairing_key ≡ false
    → Keeps (Reads pairing_key o) (publish skip k v)
publish-Reads_other skip o k v other = record {
  at = λ s h. unfold publish in kept s h (lookup-set_env skip k pairing_key v s.environ);
}
  where
    kept :
        (s : Seeding)
        → lookup pairing_key s.environ ≡ o
        → lookup pairing_key (set_env_if_unset skip k v s.environ) ≡ (
            if skip
            then lookup pairing_key s.environ
            else if is_set k s.environ
            then lookup pairing_key s.environ
            else if text_eq pairing_key k
            then some v
            else lookup pairing_key s.environ)
        → lookup pairing_key (set_env_if_unset skip k v s.environ) ≡ o
    kept s h e = ground (arith, text_eq_iff pairing_key k, text_eq_iff k pairing_key)

behavior_ignore :
    (s : Seeding)
    → is_set pairing_key s.environ ≡ false
    → lookup pairing_key (apply_behavior false (codes "ignore") s).environ ≡ some (codes "off")
unfolding apply_behavior publish text_eq
behavior_ignore s unset =
    lookup-set_env false pairing_key pairing_key (codes "off") s.environ ∙ rw unset

-- In the first profile, with VECTOR_PAIRING unset, `unauthorized_dm_behavior: ignore` turns it off.
ignore_turns_off :
    (cfg : Value) (environ : Dict)
    → is_set pairing_key environ ≡ false
    → lower (stripped (codes "unauthorized_dm_behavior") cfg) ≡ codes "ignore"
    → lookup pairing_key (apply_yaml_config false cfg environ).1 ≡ some (codes "off")
unfolding apply_yaml_config apply_all ◌⨾◌
ignore_turns_off cfg environ unset ignore =
    let start : Seeding = record { seeded = []; environ = environ } in
    let old = lookup pairing_key environ in
    let first =
      (apply_first-Keeps false (Reads pairing_key old) (seed-Reads pairing_key old)
          (publish-Reads_other false old) cfg).at
        start refl in
    let behind = apply_first false cfg start in
    let still : is_set pairing_key behind.environ ≡ false =
      ap (λ (o : Option Text). nonempty (strip (text_or o []))) first ∙ unset in
    let off = codes "off" in
    (apply_communities-Keeps false (Reads pairing_key (some off))
        (seed-Reads pairing_key (some off)) (publish-Reads_other false (some off))
        (get (codes "communities") cfg)).at
      (apply_behavior false (lower (stripped (codes "unauthorized_dm_behavior") cfg)) behind)
      (rw ignore (behavior_ignore behind still))

-- The environment that the gateway's process reads, where it has no secret scope.
abbrev pub process : Dict → Environ
process environ = record { scoped_secret = none; vars = λ name. lookup name environ }

-- In the first profile, with VECTOR_PAIRING unset or blank, `unauthorized_dm_behavior: ignore` of
-- config.yaml switches pairing off.
pub ignore_disables_pairing :
    (cfg : Value) (environ : Dict)
    → is_set pairing_key environ ≡ false
    → lower (stripped (codes "unauthorized_dm_behavior") cfg) ≡ codes "ignore"
    → pairing_enabled (process (apply_yaml_config false cfg environ).1) ≡ false
unfolding pairing_enabled scoped_env env_flag
ignore_disables_pairing cfg environ unset ignore =
    rw (ignore_turns_off cfg environ unset ignore) (unfold strip lower mem text_eq is_space in refl)
