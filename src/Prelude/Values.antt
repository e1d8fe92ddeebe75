-- ===== src/Prelude/Values.antt =====
-- The values that `json.loads` and `yaml.safe_load` give. A list and a mapping carry the text that
-- `str` prints for them, and `other` is a value of any further type (a float, a date) with its truth
-- value and its text.
use Prim.Native.Nat.{ℕ, zero, suc, ◌+◌, ◌/◌, ◌%◌}
use mathlib.Core.Bool.{Bool, true, false}
use mathlib.Core.List.{List, [], ◌∷◌, ◌++◌}
use hermes_vector_platform.Prelude.Tests.{ltb, ◌==◌, if◌then◌else◌}
use hermes_vector_platform.Prelude.Lists.{nonempty}
use hermes_vector_platform.Prelude.Strings.{Text, text_eq, codes}
use hermes_vector_platform.Prelude.Numbers.{Signed, is_negative}

mutual
  pub data Value : Type 0 where
    null : Value
    bool : Bool → Value
    int : Signed → Value
    str : Text → Value
    arr : Text → Items → Value
    obj : Text → Fields → Value
    other : Bool → Text → Value

  pub data Items : Type 0 where
    nil : Items
    cons : Value → Items → Items

  pub data Fields : Type 0 where
    end : Fields
    field : Text → Value → Fields → Fields

-- The items of a list.
unfoldable pub to_list : Items → List Value
to_list nil = []
to_list (cons v vs) = v ∷ to_list vs

-- `bool(v)`
unfoldable pub truthy : Value → Bool
truthy null = false
truthy (bool b) = b
truthy (int n) = if n.magnitude == 0 then false else true
truthy (str t) = nonempty t
truthy (arr t nil) = false
truthy (arr t (cons v vs)) = true
truthy (obj t end) = false
truthy (obj t (field k v fs)) = true
truthy (other b t) = b

unfoldable pub digits_of : ℕ → ℕ → Text
digits_of zero n = []
digits_of (suc fuel) n =
    let front = digits_of fuel (n / 10) in
    (if ltb n 10 then [] else front) ++ ((n % 10 + b'0') ∷ [])

-- `str(v)`. A number has fewer decimal digits than the number is large, plus one.
unfoldable pub show : Value → Text
unfolding digits_of
show null = codes "None"
show (bool true) = codes "True"
show (bool false) = codes "False"
show (int n) = (if is_negative n then b'-' ∷ [] else []) ++ digits_of (suc n.magnitude) n.magnitude
show (str t) = t
show (arr t vs) = t
show (obj t fs) = t
show (other b t) = t

unfoldable pub find : Text → Fields → Value
find key end = null
find key (field k v fs) = if text_eq k key then v else find key fs

-- `d.get(key)`, where `null` stands for a key that is not there
unfoldable pub get : Text → Value → Value
unfolding find
get key (obj t fs) = find key fs
get key _ = null

unfoldable pub has_key : Text → Fields → Bool
has_key key end = false
has_key key (field k v fs) = if text_eq k key then true else has_key key fs

-- `key in d`
unfoldable pub has : Text → Value → Bool
unfolding has_key
has key (obj t fs) = has_key key fs
has key _ = false

-- `isinstance(v, dict)` and `isinstance(v, list)`
unfoldable pub is_obj : Value → Bool
is_obj (obj t fs) = true
is_obj _ = false

unfoldable pub is_arr : Value → Bool
is_arr (arr t vs) = true
is_arr _ = false

-- `str(v or "")`
unfoldable pub text_of : Value → Text
unfolding truthy show
text_of v = if truthy v then show v else []

-- The items of `v if isinstance(v, list) else []`.
unfoldable pub items_of : Value → List Value
unfolding to_list
items_of (arr t vs) = to_list vs
items_of _ = []
