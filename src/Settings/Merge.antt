-- ===== src/Settings/Merge.antt =====
-- What the merge into config.yaml changes, and what it leaves.
use hermes_vector_platform.Prelude.{
  Text, ◌≡◌, inl, inr, refl, sym, ap, ◌∙◌, true, false, [], ◌∷◌, codes, text_eq, text_eq_refl,
  Bool-cases, if◌then◌else◌, arith,
}
use mathlib.Core.Path.{subst}
use hermes_vector_platform.Prelude.Dicts.{Map}
use hermes_vector_platform.Prelude.Values.{Value, null, bool, str, obj, find, get, is_obj}
use hermes_vector_platform.Prelude.Fields.{
  set, unset, within, mapping, find-put_field, find-pop_field,
}
use hermes_vector_platform.Settings.Display.{
  display_settings, apply_vector_display_settings, set_or_pop, apply_vector_platform_settings,
  merged, clears,
}

pub get-set :
    (k key : Text) (value v : Value)
    → is_obj v ≡ true
    → get k (set key value v) ≡ (if text_eq k key then value else get k v)
unfolding get set is_obj
get-set k key value (obj t fs) h = find-put_field k key value fs
get-set k key value null h = absurd (ground arith)
get-set k key value (bool b) h = absurd (ground arith)
get-set k key value _ h = absurd (ground arith)

get-unset :
    (k key : Text) (v : Value)
    → is_obj v ≡ true
    → get k (unset key v) ≡ (if text_eq k key then null else get k v)
unfolding get unset is_obj
get-unset k key (obj t fs) h = find-pop_field k key fs
get-unset k key null h = absurd (ground arith)
get-unset k key _ h = absurd (ground arith)

pub set-is_obj : (key : Text) (value v : Value) → is_obj v ≡ true → is_obj (set key value v) ≡ true
unfolding set is_obj
set-is_obj key value (obj t fs) h = refl
set-is_obj key value null h = h
set-is_obj key value _ h = absurd (ground arith)

pub unset-is_obj : (key : Text) (v : Value) → is_obj v ≡ true → is_obj (unset key v) ≡ true
unfolding unset is_obj
unset-is_obj key (obj t fs) h = refl
unset-is_obj key null h = h
unset-is_obj key _ h = absurd (ground arith)

pub mapping-is_obj : (v : Value) → is_obj (mapping v) ≡ true
unfolding is_obj
mapping-is_obj (obj t fs) = refl
mapping-is_obj null = refl
mapping-is_obj _ = refl

get-mapping : (k : Text) (v : Value) → get k (mapping v) ≡ get k v
unfolding get find
get-mapping k (obj t fs) = refl
get-mapping k null = refl
get-mapping k _ = refl

set_or_pop-is_obj :
    (platform : Map Value) (v : Value) → is_obj v ≡ true → is_obj (set_or_pop platform v) ≡ true
unfolding set_or_pop
set_or_pop-is_obj [] v h = h
set_or_pop-is_obj ((key, value) ∷ platform) v h = elim (Bool-cases (clears value)) [
  | inl c ↦ rw c (set_or_pop-is_obj platform (unset key v) (unset-is_obj key v h))
  | inr c ↦ rw c (set_or_pop-is_obj platform (set key value v) (set-is_obj key value v h))
]

-- Keys of the file other than the two blocks.
abbrev pub IsOther : Text → Type 0
IsOther k = (text_eq k (codes "display") ≡ false) × (text_eq k (codes "vector") ≡ false)

apply_display-other :
    (k : Text) (root : Value)
    → is_obj root ≡ true
    → text_eq k (codes "display") ≡ false
    → get k (apply_vector_display_settings root) ≡ get k root
unfolding apply_vector_display_settings within
apply_display-other k root h other = get-set k (codes "display") _ root h ∙ rw other

pub apply_display-is_obj :
    (root : Value) → is_obj root ≡ true → is_obj (apply_vector_display_settings root) ≡ true
unfolding apply_vector_display_settings within
apply_display-is_obj root h = set-is_obj (codes "display") _ root h

apply_platform-other :
    (k : Text) (platform : Map Value) (root : Value)
    → is_obj root ≡ true
    → text_eq k (codes "vector") ≡ false
    → get k (apply_vector_platform_settings platform root) ≡ get k root
unfolding apply_vector_platform_settings
apply_platform-other k platform root h other = ground (
  arith,
  get-set k (codes "vector") (set_or_pop platform (mapping (get (codes "vector") root))) root,
  get-unset k (codes "vector") root,
)

pub merged-other :
    (k : Text) (platform : Map Value) (root : Value)
    → IsOther k
    → get k (merged platform root) ≡ get k root
unfolding merged
merged-other k platform root (d, v) =
    apply_platform-other k platform (apply_vector_display_settings (mapping root))
      (apply_display-is_obj (mapping root) (mapping-is_obj root)) v
    ∙ (apply_display-other k (mapping root) (mapping-is_obj root) d ∙ get-mapping k root)

-- The display settings that the plugin wants.
abbrev pub HasDisplaySettings : Value → Type 0
HasDisplaySettings vector =
    (get (codes "tool_progress") vector ≡ str (codes "new"))
    × (get (codes "interim_assistant_messages") vector ≡ bool false)
    × (get (codes "long_running_notifications") vector ≡ bool false)
    × (get (codes "busy_ack_detail") vector ≡ bool false)
    × (get (codes "streaming") vector ≡ bool false)

within_lem :
    (key : Text) (change : Value → Value) (v : Value)
    → is_obj v ≡ true
    → get key (within key change v) ≡ change (mapping (get key v))
unfolding within
within_lem key change v h = get-set key key _ v h ∙ rw (text_eq_refl key)

display_settings_lem : (v : Value) → is_obj v ≡ true → HasDisplaySettings (display_settings v)
unfolding display_settings text_eq
display_settings_lem v h =
    let tool_progress = set (codes "tool_progress") (str (codes "new")) v in
    let interim = set (codes "interim_assistant_messages") (bool false) tool_progress in
    let long = set (codes "long_running_notifications") (bool false) interim in
    let busy = set (codes "busy_ack_detail") (bool false) long in
    let a = set-is_obj (codes "tool_progress") (str (codes "new")) v h in
    let b = set-is_obj (codes "interim_assistant_messages") (bool false) tool_progress a in
    let c = set-is_obj (codes "long_running_notifications") (bool false) interim b in
    let d = set-is_obj (codes "busy_ack_detail") (bool false) long c in
    (
      get-set _ _ _ busy d
          ∙ (get-set _ _ _ long c
              ∙ (get-set _ _ _ interim b ∙ (get-set _ _ _ tool_progress a ∙ get-set _ _ _ v h))),
      get-set _ _ _ busy d
          ∙ (get-set _ _ _ long c ∙ (get-set _ _ _ interim b ∙ get-set _ _ _ tool_progress a)),
      get-set _ _ _ busy d ∙ (get-set _ _ _ long c ∙ get-set _ _ _ interim b),
      get-set _ _ _ busy d ∙ get-set _ _ _ long c,
      get-set _ _ _ busy d,
    )

abbrev pub platform_display : Value → Value
platform_display root = get (codes "vector") (get (codes "platforms") (get (codes "display") root))

apply_display_lem :
    (root : Value)
    → is_obj root ≡ true
    → HasDisplaySettings (platform_display (apply_vector_display_settings root))
unfolding apply_vector_display_settings
apply_display_lem root h =
    let display = mapping (get (codes "display") root) in
    let platforms = mapping (get (codes "platforms") display) in
    let vector = mapping (get (codes "vector") platforms) in
    let e : platform_display (apply_vector_display_settings root) ≡ display_settings vector =
      ap (λ (v : Value). get (codes "vector") (get (codes "platforms") v))
        (within_lem (codes "display")
          (within (codes "platforms") (within (codes "vector") display_settings)) root h)
      ∙ (ap (get (codes "vector")) (
            within_lem (codes "platforms") (within (codes "vector") display_settings) display
              (mapping-is_obj _))
          ∙ within_lem (codes "vector") display_settings platforms (mapping-is_obj _)) in
    subst HasDisplaySettings (sym e) (display_settings_lem vector (mapping-is_obj _))

pub merged_display :
    (platform : Map Value) (root : Value)
    → HasDisplaySettings (platform_display (merged platform root))
unfolding merged text_eq
merged_display platform root =
    let shown = apply_vector_display_settings (mapping root) in
    let kept =
      apply_platform-other (codes "display") platform shown
        (apply_display-is_obj (mapping root) (mapping-is_obj root)) refl in
    subst (λ (v : Value). HasDisplaySettings (get (codes "vector") (get (codes "platforms") v)))
      (sym kept) (apply_display_lem (mapping root) (mapping-is_obj root))
