-- ===== src/Storage/Instances.antt =====
-- A database in memory, and a printer for schemas of one field: the assumptions on the database and
-- on `serde_json` can be met, and the store can be run.
use caminus.Prelude.Fallible.{Result, ok, err}
use caminus.Prelude.{
  ℕ, ◌≡◌, true, Option, some, List, ◌∷◌, ◌++◌, ◌==◌, if◌then◌else◌, take, drop, length,
  take-append_self, drop-append_self, arith,
}
use caminus.Text.Defs.{Text, text_eq}
use caminus.Dict.Defs.{Dict, get, insert}
use caminus.Dict.Laws.{get-insert}
use caminus.Json.Value.{Value, string, object, end, field}
use caminus.Storage.Database.{Database, Serde, is_plain}

abbrev pub Memory : Type 0
Memory = Dict Text (List ℕ)

abbrev pub put_memory : Memory → Text → List ℕ → Result (Unit {0}) Memory
put_memory s k v = ok (insert k v s)

abbrev pub get_memory : Memory → Text → Result (Unit {0}) (Option (List ℕ))
get_memory s k = ok (get k s)

pub get-put_memory :
    (s s' : Memory) (k j : Text) (v : List ℕ)
    → put_memory s k v ≡ ok s'
    → get_memory s' j ≡ (if k == j then ok (some v) else get_memory s j)
get-put_memory s s' k j v h = ground (arith, h, get-insert k j v s)

abbrev pub memory : Database
memory = record {
  State = Memory;
  Failure = Unit;
  put = put_memory;
  get = get_memory;
  get-put = get-put_memory;
}

-- An object that holds an object with one text, as lengths and texts; nothing else is printed.
unfoldable pub print : Value → Result (Unit {0}) (List ℕ)
print (object (field k (object (field n (string t) end)) end)) =
    ok (length k ∷ length n ∷ (k ++ (n ++ t)))
print _ = err tt

unfoldable pub parse : List ℕ → Result (Unit {0}) Value
parse (a ∷ b ∷ s) = ok (
    object
      (field (take a s) (object (field (take b (drop a s)) (string (drop b (drop a s))) end)) end))
parse _ = err tt

abbrev one_field : Text → Text → Text → Value
one_field k n t = object (field k (object (field n (string t) end)) end)

parse-printed :
    (k n t : Text) → parse (length k ∷ length n ∷ (k ++ (n ++ t))) ≡ ok (one_field k n t)
unfolding parse
parse-printed k n t = rw (
  take-append_self k (n ++ t),
  drop-append_self k (n ++ t),
  take-append_self n t,
  drop-append_self n t,
)

pub parse-print :
    (v : Value) (bytes : List ℕ) → is_plain v ≡ true → print v ≡ ok bytes → parse bytes ≡ ok v
unfolding print
parse-print (object (field k (object (field n (string t) end)) end)) bytes plain h =
    cc (parse-printed k n t)
parse-print v bytes plain h = cc

abbrev pub plain_json : Serde
plain_json = record {
  Failure = Unit;
  to_vec = print;
  from_slice = parse;
  from_slice-to_vec = parse-print;
}
