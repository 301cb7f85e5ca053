-- ===== src/Json/Value.antt =====
-- JSON values. An object is walked and searched as a list of entries.
use caminus.Prelude.{◌≡◌, refl, ap, Bool, true, false, ◌&&◌, Option, none, some, [], ◌∷◌, ◌==◌}
use caminus.Text.Defs.{Text, text_eq, text_beq}
use caminus.Dict.Defs.{Dict, get}
use caminus.Json.Number.{Number, number_eq}

mutual
  pub data Value : Type 0 where
    null : Value
    bool : Bool → Value
    number : Number → Value
    string : Text → Value
    array : Items → Value
    object : Fields → Value

  pub data Items : Type 0 where
    nil : Items
    item : Value → Items → Items

  pub data Fields : Type 0 where
    end : Fields
    field : Text → Value → Fields → Fields

bool_eq : Bool → Bool → Bool
bool_eq true b = b
bool_eq false true = false
bool_eq false false = true

unfoldable mutual
  unfolding bool_eq number_eq

  pub value_eq : Value → Value → Bool
  value_eq null null = true
  value_eq (bool a) (bool b) = bool_eq a b
  value_eq (number a) (number b) = number_eq a b
  value_eq (string a) (string b) = a == b
  value_eq (array a) (array b) = items_eq a b
  value_eq (object a) (object b) = fields_eq a b
  value_eq _ _ = false

  pub items_eq : Items → Items → Bool
  items_eq nil nil = true
  items_eq (item a as') (item b bs) = value_eq a b && items_eq as' bs
  items_eq _ _ = false

  pub fields_eq : Fields → Fields → Bool
  fields_eq end end = true
  fields_eq (field j a as') (field k b bs) = j == k && (value_eq a b && fields_eq as' bs)
  fields_eq _ _ = false

unfoldable pub entries : Fields → Dict Text Value
entries end = []
entries (field k v fs) = (k, v) ∷ entries fs

unfoldable pub from_entries : Dict Text Value → Fields
from_entries [] = end
from_entries ((k, v) ∷ m) = field k v (from_entries m)

pub entries-from_entries : (m : Dict Text Value) → entries (from_entries m) ≡ m
unfolding entries from_entries
entries-from_entries [] = refl
entries-from_entries ((k, v) ∷ m) = ap (◌∷◌ (k, v)) (entries-from_entries m)

-- `value.as_object()`
unfoldable pub as_object : Value → Option (Dict Text Value)
unfolding entries
as_object (object fs) = some (entries fs)
as_object _ = none

-- `value.get(name)`
unfoldable pub get_field : Text → Value → Option Value
unfolding entries get
get_field k (object fs) = get k (entries fs)
get_field k _ = none

-- `value.as_str()`
unfoldable pub as_str : Value → Option Text
as_str (string s) = some s
as_str _ = none

unfoldable pub is_string : Value → Bool
is_string (string s) = true
is_string _ = false

unfoldable pub is_boolean : Value → Bool
is_boolean (bool b) = true
is_boolean _ = false

unfoldable pub is_number : Value → Bool
is_number (number n) = true
is_number _ = false

value_eq_nested :
    value_eq
      (object (field (1 ∷ []) (array (item null nil)) end))
      (object (field (1 ∷ []) (array (item null nil)) end))
    ≡ true
unfolding value_eq text_beq
value_eq_nested = refl
