-- ===== src/Confluent/Defs.antt =====
-- `ConfluentRegistryClient`: ids of subjects and the wire format. What is printed is left out.
use caminus.Prelude.{
  ℕ, ◌+◌, ◌*◌, ◌/◌, ◌%◌, ◌^◌, Option, none, some, List, [], ◌∷◌, nat_eq, if◌then◌else◌, Result, ok,
  err,
}
use caminus.Text.Defs.{Text, text_eq}
use caminus.Dict.Defs.{Dict, get, insert}

pub record ConfluentRegistryClient : Type 0 where
  pub registry_url : Text
  pub next_schema_id : ℕ
  pub schema_cache : Dict Text ℕ

abbrev pub new : Text → ConfluentRegistryClient
new registry_url = record { registry_url = registry_url; next_schema_id = 100; schema_cache = [] }

-- Under the read lock.
abbrev pub cached : Text → ConfluentRegistryClient → Option ℕ
cached subject s = get subject s.schema_cache

-- Under the write locks, with the addition of `u32`.
abbrev pub assign : Text → ConfluentRegistryClient → ℕ × ConfluentRegistryClient
assign subject s = (
  s.next_schema_id,
  record s {
    next_schema_id = (s.next_schema_id + 1) % 2 ^ 32;
    schema_cache = insert subject s.next_schema_id s.schema_cache;
  },
)

-- A call that no other call comes between.
unfoldable pub register_schema : Text → ConfluentRegistryClient → ℕ × ConfluentRegistryClient
register_schema subject s = elim (cached subject s) [ some id ↦ (id, s) | none ↦ assign subject s ]

abbrev pub to_be_bytes : ℕ → List ℕ → List ℕ
to_be_bytes id rest =
    (id / 2 ^ 24 % 256) ∷ (id / 2 ^ 16 % 256) ∷ (id / 2 ^ 8 % 256) ∷ (id % 256) ∷ rest

unfoldable pub encode_wire_format : ℕ → List ℕ → List ℕ
encode_wire_format schema_id payload_bytes = 0 ∷ to_be_bytes schema_id payload_bytes

-- The two texts of an error; that of a wrong magic byte has the byte.
pub data DecodeError : Type 0 where
  too_short : DecodeError
  invalid_magic : ℕ → DecodeError

unfoldable pub decode_wire_format : List ℕ → Result DecodeError (ℕ × List ℕ)
decode_wire_format (magic ∷ a ∷ b ∷ c ∷ d ∷ payload) =
    if nat_eq magic 0
    then ok (a * 2 ^ 24 + b * 2 ^ 16 + c * 2 ^ 8 + d, payload)
    else err (invalid_magic magic)
decode_wire_format _ = err too_short
