-- ===== src/Storage/Database.antt =====
-- What the store uses of RocksDB and of `serde_json`, neither of which is part of the repository:
-- their operations, and the documented behaviour that the store relies on.
use caminus.Prelude.{
  ℕ, ◌≡◌, ◌^◌, Bool, true, false, ◌&&◌, ◌||◌, Option, some, List, [], ◌∷◌, Result, ok, ◌==◌,
  if◌then◌else◌, ltb, nat_eq, suc, max, ◌+◌,
}
use caminus.Text.Defs.{Text, text_eq}
use caminus.Json.Number.{pos_int, neg_int, float}
use caminus.Json.Value.{
  Value, null, bool, number, string, array, object, Items, nil, item, Fields, end, field,
}

-- A key is the text whose bytes are written. A failed operation is a RocksDB error.
pub record Database : Type 1 where
  pub State : Type 0
  pub Failure : Type 0
  pub put : State → Text → List ℕ → Result Failure State
  pub get : State → Text → Result Failure (Option (List ℕ))
  -- A read of the key that was written finds the value, any other read what it found before.
  pub get-put :
      (s s' : State) (k j : Text) (v : List ℕ)
      → put s k v ≡ ok s'
      → get s' j ≡ (if k == j then ok (some v) else get s j)

text_lt : Text → Text → Bool
text_lt s [] = false
text_lt [] (c ∷ t) = true
text_lt (b ∷ s) (c ∷ t) = ltb b c || (nat_eq b c && text_lt s t)

first_above : Text → Fields → Bool
unfolding text_lt
first_above k end = true
first_above k (field j v fs) = text_lt k j

-- How deep arrays and objects are nested.
unfoldable mutual
  pub depth : Value → ℕ
  depth (array xs) = suc (items_depth xs)
  depth (object fs) = suc (fields_depth fs)
  depth _ = 0

  items_depth : Items → ℕ
  items_depth nil = 0
  items_depth (item v xs) = max (depth v) (items_depth xs)

  fields_depth : Fields → ℕ
  fields_depth end = 0
  fields_depth (field k v fs) = max (depth v) (fields_depth fs)

-- No floats, whose parsing may round, and objects as the map of `serde_json` holds them, with ascending
-- keys.
unfoldable mutual
  unfolding first_above

  pub is_exact : Value → Bool
  is_exact null = true
  is_exact (bool b) = true
  is_exact (number (pos_int n)) = ltb n (2 ^ 64)
  is_exact (number (neg_int n)) = ltb n (2 ^ 63)
  is_exact (number (float bits)) = false
  is_exact (string s) = true
  is_exact (array xs) = exact_items xs
  is_exact (object fs) = exact_fields fs

  exact_items : Items → Bool
  exact_items nil = true
  exact_items (item v xs) = is_exact v && exact_items xs

  exact_fields : Fields → Bool
  exact_fields end = true
  exact_fields (field k v fs) = first_above k fs && (is_exact v && exact_fields fs)

-- Values that `serde_json` prints and parses without loss inside so many objects: its parser refuses
-- what is nested deeper than 127.
unfoldable pub is_plain_within : ℕ → Value → Bool
unfolding is_exact depth
is_plain_within outer v = ltb (depth v + outer) 128 && is_exact v

unfoldable pub is_plain : Value → Bool
unfolding is_plain_within
is_plain v = is_plain_within 0 v

pub record Serde : Type 1 where
  pub Failure : Type 0
  pub to_vec : Value → Result Failure (List ℕ)
  pub from_slice : List ℕ → Result Failure Value
  -- What is printed of a plain value is parsed back.
  pub from_slice-to_vec :
      (v : Value) (bytes : List ℕ)
      → is_plain v ≡ true
      → to_vec v ≡ ok bytes
      → from_slice bytes ≡ ok v
