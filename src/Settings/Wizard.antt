-- ===== src/Settings/Wizard.antt =====
-- What the merge of the wizard's answers keeps of config.yaml.
use hermes_vector_platform.Prelude.{
  Text, ◌≡◌, refl, sym, ◌∙◌, Bool, true, false, Option, none, some, strip, nonempty, ◌⊎◌,
  Bool-cases, inl, inr, if◌then◌else◌, arith,
}
use hermes_vector_platform.Prelude.Dicts.{Map}
use hermes_vector_platform.Prelude.Maybe.{some_inj}
use hermes_vector_platform.Prelude.Values.{Value, get}
use hermes_vector_platform.Settings.Display.{
  Yaml, text, first_of, display_config_is_writable, merged, merge_root, merge_vector_display_config,
}
use hermes_vector_platform.Settings.Merge.{
  IsOther, HasDisplaySettings, platform_display, merged-other, merged_display,
}

merge_root_lem :
    (writes : Value → Bool) (platform : Map Value) (o : Option Value) (v : Value)
    → merge_root writes platform o ≡ some v
    → (root : Value) × (o ≡ some root) × (v ≡ merged platform root)
unfolding merge_root
merge_root_lem writes platform none v e = absurd (ground arith)
merge_root_lem writes platform (some root) v e = (root, refl, ground (arith))

first_of_lem :
    (first second : Option Value) (installed : Bool) (v : Value)
    → first_of first (if installed then second else none) ≡ some v
    → (first ≡ some v) ⊎ (second ≡ some v)
first_of_lem none second true v e = inr e
first_of_lem none second false v e = absurd (ground arith)
first_of_lem (some u) second installed v e = inl e

-- Which mapping is written over a file with content.
written :
    (yaml : Yaml) (platform : Map Value) (raw : Text) (v : Value)
    → yaml.ruamel_load raw ≡ yaml.safe_load raw
    → nonempty (strip raw) ≡ true
    → merge_vector_display_config yaml platform (text raw) ≡ some v
    → (root : Value) × (yaml.safe_load raw ≡ some root) × (v ≡ merged platform root)
unfolding merge_vector_display_config
written yaml platform raw v agree filled e =
    elim (Bool-cases (display_config_is_writable yaml (text raw))) [
      | inr refused ↦ absurd (ground arith)
      | inl writable ↦
          let e' = rw (writable, filled, agree) at e in
          elim (first_of_lem _ _ yaml.pyyaml_installed v e') [
            | inl first ↦ merge_root_lem _ platform (yaml.safe_load raw) v first
            | inr second ↦ merge_root_lem _ platform (yaml.safe_load raw) v second
          ]
    ]

-- Where a config.yaml with content, which both YAML libraries read alike, is merged with the wizard's
-- answers, the mapping that is handed to the writer keeps the values of the keys other than `display`
-- and `vector`, and its platform has the plugin's display settings.
pub config_merge_keeps_the_rest :
    (yaml : Yaml) (platform : Map Value) (raw : Text) (v root : Value) (k : Text)
    → yaml.ruamel_load raw ≡ yaml.safe_load raw
    → nonempty (strip raw) ≡ true
    → yaml.safe_load raw ≡ some root
    → merge_vector_display_config yaml platform (text raw) ≡ some v
    → IsOther k
    → (get k v ≡ get k root) × HasDisplaySettings (platform_display v)
config_merge_keeps_the_rest yaml platform raw v root k agree filled loaded e other =
    let (read, same, value) = written yaml platform raw v agree filled e in
    let root_same : read ≡ root = some_inj (sym same ∙ loaded) in
    rw value (rw root_same (merged-other k platform root other, merged_display platform root))
