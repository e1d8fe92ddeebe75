-- ===== src/Prelude/Fields.antt =====
-- Changes of a mapping of values. The text that `str` prints for a changed mapping is not kept up.
use mathlib.Core.Path.{◌≡◌}
use native.Mathlib.Omega.{arith}
use mathlib.Core.List.{[]}
use hermes_vector_platform.Prelude.Tests.{if◌then◌else◌}
use hermes_vector_platform.Prelude.Strings.{Text, text_eq, text_eq_iff}
use hermes_vector_platform.Prelude.Values.{Value, null, obj, Fields, end, field, find, get}

unfoldable pub put_field : Text → Value → Fields → Fields
put_field key value end = field key value end
put_field key value (field k v fs) =
    let rest = put_field key value fs in if text_eq k key then field k value fs else field k v rest

unfoldable pub pop_field : Text → Fields → Fields
pop_field key end = end
pop_field key (field k v fs) =
    let rest = pop_field key fs in if text_eq k key then rest else field k v rest

-- `d[key] = value` and `d.pop(key, None)`
unfoldable pub set : Text → Value → Value → Value
unfolding put_field
set key value (obj t fs) = obj t (put_field key value fs)
set key value v = v

unfoldable pub unset : Text → Value → Value
unfolding pop_field
unset key (obj t fs) = obj t (pop_field key fs)
unset key v = v

-- `d[key]` is a mapping behind the call, and is changed in place.
abbrev pub mapping : Value → Value
mapping (obj t fs) = obj t fs
mapping v = obj [] end

unfoldable pub within : Text → (Value → Value) → Value → Value
within key change v = set key (change (mapping (get key v))) v

pub find-put_field :
    (k key : Text) (value : Value) (fs : Fields)
    → find k (put_field key value fs) ≡ (if text_eq k key then value else find k fs)
unfolding find put_field
find-put_field k key value end = ground (arith, text_eq_iff k key, text_eq_iff key k)
find-put_field k key value (field j v fs) =
    ground
      (arith, find-put_field k key value fs, text_eq_iff j key, text_eq_iff j k, text_eq_iff k key)

pub find-pop_field :
    (k key : Text) (fs : Fields)
    → find k (pop_field key fs) ≡ (if text_eq k key then null else find k fs)
unfolding find pop_field
find-pop_field k key end = ground arith
find-pop_field k key (field j v fs) =
    ground (arith, find-pop_field k key fs, text_eq_iff j key, text_eq_iff j k, text_eq_iff k key)
