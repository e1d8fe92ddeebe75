-- ===== src/Sidecar/Isolation.antt =====
-- A secondary profile's sidecar sees nothing of the first profile's VECTOR_ variables.
use hermes_vector_platform.Prelude.{
  Text, ◌≡◌, refl, sym, ap, ◌∙◌, inl, inr, Bool, true, false, ◌&&◌, Option, none, some, List, [],
  ◌∷◌, codes, text_eq, eq_of_text_eq, ◌≢◌, starts_with, strip, nonempty, Bool-cases, &&-eq-true,
  if◌then◌else◌,
}
use hermes_vector_platform.Prelude.Dicts.{Dict, Map, lookup, put, pop, lookup-put, lookup-pop}
use hermes_vector_platform.Prelude.Values.{Value, get}
use hermes_vector_platform.Env.{text_or}
use hermes_vector_platform.Settings.{is_set}
use hermes_vector_platform.Sidecar.Child.{
  is_vector_key, pop_secrets, drop_vector_keys, restore_scope, scope_text,
  rewrite_sidecar_profile_env, extra_text, put_option, put_text, overlay, overlay_mapping,
  overlay_sidecar_extra_env, Instance, instance_env, profile_keys, pop_all, put_all, put_profile,
  spawn_env,
}

-- Two environments hold the same VECTOR_ variables.
record Agree (a b : Dict) : Type 0 where
  at : (k : Text) → is_vector_key k ≡ true → lookup k a ≡ lookup k b

put-Agree : (key value : Text) (a b : Dict) → Agree a b → Agree (put key value a) (put key value b)
put-Agree key value a b h = record {
  at = λ k v.
      lookup-put k key value a
      ∙ (ap (λ (o : Option Text). if text_eq k key then some value else o) (h.at k v)
          ∙ sym (lookup-put k key value b));
}

pop-Agree : (key : Text) (a b : Dict) → Agree a b → Agree (pop key a) (pop key b)
pop-Agree key a b h = record {
  at = λ k v.
      lookup-pop k key a
      ∙ (ap (λ (o : Option Text). if text_eq k key then none else o) (h.at k v)
          ∙ sym (lookup-pop k key b));
}

if-Agree :
    (t : Bool) (a b c d : Dict)
    → Agree a b
    → Agree c d
    → Agree (if t then a else c) (if t then b else d)
if-Agree true a b c d h k = h
if-Agree false a b c d h k = k

true_ne_false : true ≢ false
true_ne_false e = cc

-- Nothing of the VECTOR_ variables is left.
lookup-drop_vector_keys :
    (k : Text) (env : Dict) → is_vector_key k ≡ true → lookup k (drop_vector_keys env) ≡ none
unfolding drop_vector_keys lookup
lookup-drop_vector_keys k [] v = refl
lookup-drop_vector_keys k ((key, value) ∷ env) v = elim (Bool-cases (is_vector_key key)) [
  | inl vector ↦ rw vector (lookup-drop_vector_keys k env v)
  | inr other ↦
      let differ : text_eq key k ≡ false = elim (Bool-cases (text_eq key k)) [
        | inl same ↦ absurd (
            true_ne_false (
              sym v
              ∙ (ap (λ (t : Text). is_vector_key t) (sym (eq_of_text_eq key k same)) ∙ other)))
        | inr differ ↦ differ
      ] in
      rw other (rw differ (lookup-drop_vector_keys k env v))
]

restore_scope-Agree :
    (scope : Map Value) (a b : Dict)
    → Agree a b
    → Agree (restore_scope scope a) (restore_scope scope b)
unfolding restore_scope
restore_scope-Agree [] a b h = h
restore_scope-Agree ((key, val) ∷ scope) a b h =
    restore_scope-Agree scope _ _ (if-Agree _ _ _ _ _ h (put-Agree key (scope_text val) a b h))

rewrite-Agree :
    (scope : Map Value) (a b : Dict)
    → Agree
        (rewrite_sidecar_profile_env (some scope) a)
        (rewrite_sidecar_profile_env (some scope) b)
unfolding rewrite_sidecar_profile_env
rewrite-Agree scope a b =
    restore_scope-Agree scope (drop_vector_keys a) (drop_vector_keys b)
      (record { at = λ k v. lookup-drop_vector_keys k a v ∙ sym (lookup-drop_vector_keys k b v) })

pop_all-Agree :
    (keys : List Text) (a b : Dict) → Agree a b → Agree (pop_all keys a) (pop_all keys b)
unfolding pop_all
pop_all-Agree [] a b h = h
pop_all-Agree (key ∷ keys) a b h = pop_all-Agree keys (pop key a) (pop key b) (pop-Agree key a b h)

put_all-Agree : (more a b : Dict) → Agree a b → Agree (put_all more a) (put_all more b)
unfolding put_all
put_all-Agree [] a b h = h
put_all-Agree ((key, value) ∷ more) a b h =
    put_all-Agree more (put key value a) (put key value b) (put-Agree key value a b h)

put_option-Agree :
    (key : Text) (o : Option Text) (a b : Dict)
    → Agree a b
    → Agree (put_option key o a) (put_option key o b)
put_option-Agree key none a b h = h
put_option-Agree key (some value) a b h = put-Agree key value a b h

put_text-Agree :
    (key value : Text) (a b : Dict)
    → Agree a b
    → Agree (put_text key value a) (put_text key value b)
put_text-Agree key [] a b h = h
put_text-Agree key (c ∷ s) a b h = put-Agree key (c ∷ s) a b h

put_profile-Agree :
    (i : Instance) (a b : Dict) → Agree a b → Agree (put_profile i a) (put_profile i b)
unfolding put_profile
put_profile-Agree i a b h = put_option-Agree _ i.banner_file _ _ (
    put_option-Agree _ i.avatar_file _ _ (
      put_text-Agree (codes "VECTOR_BOT_ABOUT") i.bot_about _ _
        (put_text-Agree (codes "VECTOR_BOT_NAME") i.bot_name a b h)))

-- The keys that the settings may set are VECTOR_ variables.
all_vector : Dict → Bool
all_vector [] = true
all_vector ((env_key, extra_key) ∷ mapping) = is_vector_key env_key && all_vector mapping

overlay-Agree :
    (mapping : Dict) (extra : Value) (a b : Dict)
    → all_vector mapping ≡ true
    → Agree a b
    → Agree (overlay mapping extra a) (overlay mapping extra b)
unfolding overlay all_vector
overlay-Agree [] extra a b v h = h
overlay-Agree ((env_key, extra_key) ∷ mapping) extra a b v h =
    let (vector, rest) = &&-eq-true (is_vector_key env_key) (all_vector mapping) v in
    let same : is_set env_key b ≡ is_set env_key a =
      ap (λ (o : Option Text). nonempty (strip (text_or o []))) (sym (h.at env_key vector)) in
    rw same (
      overlay-Agree mapping extra _ _ rest (
        if-Agree (is_set env_key a) _ _ _ _ h
          (put_option-Agree env_key (extra_text (get extra_key extra)) a b h)))

pop_secrets-Agree : (a b : Dict) → Agree a b → Agree (pop_secrets a) (pop_secrets b)
unfolding pop_secrets
pop_secrets-Agree a b h = pop-Agree _ _ _ (pop-Agree _ _ _ (pop-Agree (codes "VECTOR_NSEC") a b h))

-- Where a secret scope is installed, the VECTOR_ variables of the sidecar are a function of the scope,
-- the settings and the instance: two environments of the gateway give it the same.
pub spawn_env_isolates_profiles :
    (scope : Map Value) (i : Instance) (environ other : Dict) (key : Text)
    → is_vector_key key ≡ true
    → lookup key (spawn_env (some scope) i environ) ≡ lookup key (spawn_env (some scope) i other)
unfolding spawn_env overlay_sidecar_extra_env all_vector starts_with
spawn_env_isolates_profiles scope i environ other key v =
    (pop_secrets-Agree _ _ (
        put_profile-Agree i _ _ (
          overlay-Agree overlay_mapping i.extra _ _ refl (
            pop_all-Agree profile_keys _ _
              (put_all-Agree (instance_env i) _ _ (rewrite-Agree scope environ other)))))).at
      key v
