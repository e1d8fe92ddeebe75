-- ===== src/Sidecar/Secrets.antt =====
-- What the sidecar process is given, and what not.
use hermes_vector_platform.Prelude.{
  Text, ◌≡◌, refl, ◌∙◌, true, false, Bool, not, ◌&&◌, &&-eq-true, all, codes, text_eq, Option, none,
  some, List, [], ◌∷◌, text_eq_iff, mem, if◌then◌else◌, arith,
}
use hermes_vector_platform.Prelude.Dicts.{Dict, Map, lookup, pop, put, lookup-pop, lookup-put}
use hermes_vector_platform.Prelude.Values.{Value, get}
use hermes_vector_platform.Sidecar.Child.{
  Instance, pop_all, pop_secrets, profile_keys, overlay_mapping, overlay, overlay_sidecar_extra_env,
  extra_text, put_option, put_text, put_profile, put_all, instance_env, rewrite_sidecar_profile_env,
  spawn_env, bridge_cli_env,
}
use hermes_vector_platform.Settings.{is_set}

-- What is removed is gone, and the rest stays.
lookup-pop_all :
    (k : Text) (keys : List Text) (env : Dict)
    → lookup k (pop_all keys env) ≡ (if mem k keys then none else lookup k env)
unfolding pop_all mem
lookup-pop_all k [] env = refl
lookup-pop_all k (key ∷ keys) env = ground (
  arith,
  lookup-pop_all k keys (pop key env),
  lookup-pop k key env,
  text_eq_iff k key,
  text_eq_iff key k,
)

-- The three secrets are not in the environment.
abbrev pub IsClean : Dict → Type 0
IsClean env =
    (lookup (codes "VECTOR_NSEC") env ≡ none)
    × (lookup (codes "VECTOR_MNEMONIC") env ≡ none)
    × (lookup (codes "VECTOR_STUB") env ≡ none)

pop_secrets-IsClean : (env : Dict) → IsClean (pop_secrets env)
unfolding pop_secrets text_eq
pop_secrets-IsClean env = (
  lookup-pop (codes "VECTOR_NSEC") (codes "VECTOR_STUB") _
      ∙ (lookup-pop (codes "VECTOR_NSEC") (codes "VECTOR_MNEMONIC") _
          ∙ lookup-pop (codes "VECTOR_NSEC") (codes "VECTOR_NSEC") env),
  lookup-pop (codes "VECTOR_MNEMONIC") (codes "VECTOR_STUB") _
      ∙ lookup-pop (codes "VECTOR_MNEMONIC") (codes "VECTOR_MNEMONIC") _,
  lookup-pop (codes "VECTOR_STUB") (codes "VECTOR_STUB") _,
)

-- A name that nothing behind the instance's own variables writes or removes.
abbrev is_own : Text → Bool
is_own key =
    not (mem key profile_keys) && all (λ (p : Text × Text). not (text_eq key p.0)) overlay_mapping

lookup-put_option :
    (k key : Text) (o : Option Text) (env : Dict)
    → text_eq k key ≡ false
    → lookup k (put_option key o env) ≡ lookup k env
lookup-put_option k key none env e = refl
lookup-put_option k key (some value) env e = lookup-put k key value env ∙ rw e refl

lookup-put_text :
    (k key value : Text) (env : Dict)
    → text_eq k key ≡ false
    → lookup k (put_text key value env) ≡ lookup k env
lookup-put_text k key [] env e = refl
lookup-put_text k key (c ∷ s) env e = lookup-put k key (c ∷ s) env ∙ rw e refl

overlay_step :
    (b : Bool) (k key : Text) (o : Option Text) (env : Dict)
    → text_eq k key ≡ false
    → lookup k (if b then env else put_option key o env) ≡ lookup k env
overlay_step true k key o env e = refl
overlay_step false k key o env e = lookup-put_option k key o env e

lookup-overlay :
    (k : Text) (mapping : Dict) (extra : Value) (env : Dict)
    → all (λ (p : Text × Text). not (text_eq k p.0)) mapping ≡ true
    → lookup k (overlay mapping extra env) ≡ lookup k env
unfolding overlay
lookup-overlay k [] extra env h = refl
lookup-overlay k ((key, name) ∷ mapping) extra env h =
    let (apart, rest) =
      &&-eq-true (not (text_eq k key)) (all (λ (p : Text × Text). not (text_eq k p.0)) mapping) h in
    let e : text_eq k key ≡ false = ground arith in
    lookup-overlay k mapping extra _ rest
    ∙ overlay_step (is_set key env) k key (extra_text (get name extra)) env e

-- What the instance's own variables are, once they are put.
abbrev pub HasInstance : Instance → Dict → Type 0
HasInstance i env =
    (lookup (codes "VECTOR_DATA_DIR") env ≡ some i.data_dir)
    × (lookup (codes "VECTOR_BRIDGE_PORT") env ≡ some i.bridge_port)
    × (lookup (codes "VECTOR_BRIDGE_HOST") env ≡ some i.bridge_host)
    × (lookup (codes "VECTOR_SIDECAR_TOKEN") env ≡ some i.token)

put_all-HasInstance : (i : Instance) (env : Dict) → HasInstance i (put_all (instance_env i) env)
unfolding put_all text_eq
put_all-HasInstance i env =
    let port = codes "VECTOR_BRIDGE_PORT" in
    let host = codes "VECTOR_BRIDGE_HOST" in
    let token = codes "VECTOR_SIDECAR_TOKEN" in
    let dir = codes "VECTOR_DATA_DIR" in
    let watch = codes "VECTOR_SIDECAR_WATCH_STDIN" in
    (
      lookup-put dir watch _ _
          ∙ (lookup-put dir token _ _
              ∙ (lookup-put dir host _ _ ∙ (lookup-put dir port _ _ ∙ lookup-put dir dir _ env))),
      lookup-put port watch _ _
          ∙ (lookup-put port token _ _ ∙ (lookup-put port host _ _ ∙ lookup-put port port _ _)),
      lookup-put host watch _ _ ∙ (lookup-put host token _ _ ∙ lookup-put host host _ _),
      lookup-put token watch _ _ ∙ lookup-put token token _ _,
    )

-- Neither a secret, nor a name of the profile, nor one that the settings may set.
abbrev IsApart : Text → Type 0
IsApart key =
    (mem key (codes "VECTOR_NSEC" ∷ codes "VECTOR_MNEMONIC" ∷ codes "VECTOR_STUB" ∷ []) ≡ false)
    × (mem key profile_keys ≡ false)
    × (text_eq key (codes "VECTOR_BOT_NAME") ≡ false)
    × (text_eq key (codes "VECTOR_BOT_ABOUT") ≡ false)
    × (text_eq key (codes "VECTOR_BOT_AVATAR") ≡ false)
    × (text_eq key (codes "VECTOR_BOT_BANNER") ≡ false)
    × (all (λ (p : Text × Text). not (text_eq key p.0)) overlay_mapping ≡ true)

lookup-pop_secrets :
    (key : Text) (env : Dict)
    → mem key (codes "VECTOR_NSEC" ∷ codes "VECTOR_MNEMONIC" ∷ codes "VECTOR_STUB" ∷ []) ≡ false
    → lookup key (pop_secrets env) ≡ lookup key env
unfolding pop_secrets mem
lookup-pop_secrets key env e = ground (
  arith,
  lookup-pop key (codes "VECTOR_STUB")
      (pop (codes "VECTOR_MNEMONIC") (pop (codes "VECTOR_NSEC") env)),
  lookup-pop key (codes "VECTOR_MNEMONIC") (pop (codes "VECTOR_NSEC") env),
  lookup-pop key (codes "VECTOR_NSEC") env,
  text_eq_iff key (codes "VECTOR_STUB"),
  text_eq_iff (codes "VECTOR_STUB") key,
  text_eq_iff key (codes "VECTOR_MNEMONIC"),
  text_eq_iff (codes "VECTOR_MNEMONIC") key,
  text_eq_iff key (codes "VECTOR_NSEC"),
  text_eq_iff (codes "VECTOR_NSEC") key,
)

-- The variables of the instance stay what they are through the rest of `spawn`.
lookup-spawn_env :
    (scope : Option (Map Value)) (i : Instance) (environ : Dict) (key : Text)
    → IsApart key
    → lookup key (spawn_env scope i environ)
      ≡ lookup key (put_all (instance_env i) (rewrite_sidecar_profile_env scope environ))
unfolding spawn_env put_profile overlay_sidecar_extra_env
lookup-spawn_env scope i environ key (secret, own, name, about, avatar, banner, other) =
    let start = put_all (instance_env i) (rewrite_sidecar_profile_env scope environ) in
    lookup-pop_secrets key _ secret
    ∙ (lookup-put_option key (codes "VECTOR_BOT_BANNER") i.banner_file _ banner
        ∙ (lookup-put_option key (codes "VECTOR_BOT_AVATAR") i.avatar_file _ avatar
            ∙ (lookup-put_text key (codes "VECTOR_BOT_ABOUT") i.bot_about _ about
                ∙ (lookup-put_text key (codes "VECTOR_BOT_NAME") i.bot_name _ name
                    ∙ (lookup-overlay key overlay_mapping i.extra _ other
                        ∙ (lookup-pop_all key profile_keys start ∙ rw own refl))))))

lookup-cli_dir :
    (data_dir : Text) (environ : Dict)
    → lookup (codes "VECTOR_DATA_DIR") (bridge_cli_env data_dir environ) ≡ some data_dir
unfolding bridge_cli_env text_eq mem
lookup-cli_dir data_dir environ =
    let dir = codes "VECTOR_DATA_DIR" in
    lookup-pop dir (codes "VECTOR_SIDECAR_TOKEN") _
    ∙ (lookup-pop_secrets dir _ refl ∙ lookup-put dir dir data_dir environ)

cli_secrets : (data_dir : Text) (environ : Dict) → IsClean (bridge_cli_env data_dir environ)
unfolding bridge_cli_env text_eq
cli_secrets data_dir environ =
    let (nsec, mnemonic, stub) =
      pop_secrets-IsClean (put (codes "VECTOR_DATA_DIR") data_dir environ) in
    let token = codes "VECTOR_SIDECAR_TOKEN" in
    (
      lookup-pop (codes "VECTOR_NSEC") token _ ∙ nsec,
      lookup-pop (codes "VECTOR_MNEMONIC") token _ ∙ mnemonic,
      lookup-pop (codes "VECTOR_STUB") token _ ∙ stub,
    )

-- The sidecar process is never given VECTOR_NSEC, VECTOR_MNEMONIC or VECTOR_STUB, and it is always given
-- the folder, port, host and token of its own instance, whatever the gateway's environment, the secret
-- scope and the settings hold. The runs of `--check` and `--setup` get none of the three secrets either,
-- nor a token, and the folder that they are for.
pub spawn_env_has_no_secrets :
    (scope : Option (Map Value)) (i : Instance) (environ : Dict) (data_dir : Text)
    → let env = spawn_env scope i environ in
      let cli = bridge_cli_env data_dir environ in
      IsClean env
      × HasInstance i env
      × IsClean cli
      × (lookup (codes "VECTOR_SIDECAR_TOKEN") cli ≡ none)
      × (lookup (codes "VECTOR_DATA_DIR") cli ≡ some data_dir)
unfolding spawn_env bridge_cli_env text_eq mem
spawn_env_has_no_secrets scope i environ data_dir =
    let (dir, port, host, token) =
      put_all-HasInstance i (rewrite_sidecar_profile_env scope environ) in
    (
      pop_secrets-IsClean _,
      (
        lookup-spawn_env scope i environ (codes "VECTOR_DATA_DIR")
              (refl, refl, refl, refl, refl, refl, refl)
            ∙ dir,
        lookup-spawn_env scope i environ (codes "VECTOR_BRIDGE_PORT")
              (refl, refl, refl, refl, refl, refl, refl)
            ∙ port,
        lookup-spawn_env scope i environ (codes "VECTOR_BRIDGE_HOST")
              (refl, refl, refl, refl, refl, refl, refl)
            ∙ host,
        lookup-spawn_env scope i environ (codes "VECTOR_SIDECAR_TOKEN")
              (refl, refl, refl, refl, refl, refl, refl)
            ∙ token,
      ),
      cli_secrets data_dir environ,
      lookup-pop (codes "VECTOR_SIDECAR_TOKEN") (codes "VECTOR_SIDECAR_TOKEN") _,
      lookup-cli_dir data_dir environ,
    )
