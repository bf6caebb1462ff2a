-- ===== src/Operator/Value.antt =====
-- The contents of a Kubernetes object, as in `unstructured.Unstructured`: texts, numbers, flags,
-- lists and maps. A typed object is its map of fields, by the names of its JSON.
pub mod Fields
use ogo.Base.{ℕ, String, Bool, Option, none, some, List, [], ◌∷◌, ◌==◌, if◌then◌else◌}
use ogo.Dict.{Dict}

pub data Value : Type 0 where
  text : String → Value
  number : ℕ → Value
  flag : Bool → Value
  end : Value  -- of a list or a map
  item : Value → Value → Value
  entry : String → Value → Value → Value

abbrev pub list_of : List Value → Value
list_of [] = end
list_of (v ∷ vs) = item v (list_of vs)

abbrev pub map_of : Dict Value → Value
map_of [] = end
map_of ((k, v) ∷ m) = entry k v (map_of m)

-- a map of texts
abbrev pub texts_of : Dict String → Value
texts_of [] = end
texts_of ((k, v) ∷ m) = entry k (text v) (texts_of m)

abbrev pub text_list : List String → Value
text_list [] = end
text_list (s ∷ ss) = item (text s) (text_list ss)

unfoldable pub field : String → Value → Option Value
field k (entry j v m) = if j == k then some v else field k m
field k _ = none

unfoldable pub nested : List String → Value → Option Value
unfolding field
nested [] v = some v
nested (k ∷ ks) v = elim (field k v) [ none ↦ none | some w ↦ nested ks w ]

abbrev as_text : Option Value → String
as_text (some (text s)) = s
as_text _ = ""

-- `unstructured.NestedString`; "" where there is none
unfoldable pub nested_string : List String → Value → String
unfolding nested
nested_string path v = as_text (nested path v)

-- `o[k] = v`; the order of a map is of no account
unfoldable pub set_field : String → Value → Value → Value
set_field k v (entry j u m) =
    let rest = set_field k v m in if j == k then entry k v m else entry j u rest
set_field k v _ = entry k v end

-- the map under a key, empty where there is none
unfoldable pub map_under : String → Value → Value
unfolding field
map_under k v = elim (field k v) [ none ↦ end | some w ↦ w ]

-- a change of an object's spec in place
unfoldable pub change_spec : (Value → Value) → Value → Value
unfolding map_under set_field
change_spec f v = set_field "spec" (f (map_under "spec" v)) v
