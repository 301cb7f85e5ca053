-- ===== src/Confluent/Avro.antt =====
-- `AvroEncoder` (src/serialize/avro.rs). The JSON of an event is a parameter; of the texts of errors
-- only the stage that failed is kept.
use caminus.Prelude.{
  ℕ, ◌^◌, ◌<◌, ◌≡◌, true, sym, List, ◌++◌, Result, ok, map_err, map_err-ok, bind-eq-ok, ◌>>=◌,
}
use caminus.Text.Defs.{Text, codes}
use caminus.Event.{ChangeEvent}
use caminus.Transform.Wasm.{EventSerde, is_plain_event}
use caminus.Confluent.Defs.{
  ConfluentRegistryClient, DecodeError, register_schema, encode_wire_format, decode_wire_format,
}
use caminus.Confluent.Wire.{decode-encode}
use caminus.Confluent.Ids.{IsValid, register_schema-lt}

pub data AvroError (F : Type 0) : Type 0 where
  serialization : F → AvroError F
  deserialization : F → AvroError F
  wire : DecodeError → AvroError F

abbrev pub subject_of : ChangeEvent → Text
subject_of event = event.source_table_or_collection ++ codes "-value"

module _ (j : EventSerde) where
  -- The id is registered whether the event can be serialized or not.
  unfoldable pub encode_event :
      ChangeEvent
      → ConfluentRegistryClient
      → Result (AvroError j.Failure) (List ℕ) × ConfluentRegistryClient
  encode_event event s =
      let registered = register_schema (subject_of event) s in
      (
        do
          raw_payload ← map_err serialization (j.to_vec event)
          ok (encode_wire_format registered.0 raw_payload),
        registered.1,
      )

  unfoldable pub decode_event : List ℕ → Result (AvroError j.Failure) (ℕ × ChangeEvent)
  decode_event buffer = do
    decoded ← map_err wire (decode_wire_format buffer)
    event ← map_err deserialization (j.from_slice decoded.1)
    ok (decoded.0, event)

  -- What is encoded of a plain event is decoded to the event, with the id of the subject of its table.
  -- Plain are events without floats, without rows that are there but null, and whose values are nested
  -- no deeper than the parser takes.
  pub decode_event-encode_event :
      (event : ChangeEvent) (s : ConfluentRegistryClient) (buffer : List ℕ)
      → s.next_schema_id < 2 ^ 32
      → IsValid s
      → is_plain_event event ≡ true
      → (encode_event event s).0 ≡ ok buffer
      → decode_event buffer ≡ ok ((register_schema (subject_of event) s).0, event)
  unfolding encode_event decode_event
  decode_event-encode_event event s buffer room v plain h =
      let (payload, printed', made) = bind-eq-ok (map_err serialization (j.to_vec event)) _ h in
      let printed : j.to_vec event ≡ ok payload =
        map_err-ok serialization (j.to_vec event) printed' in
      let id : ℕ = (register_schema (subject_of event) s).0 in
      let e : encode_wire_format id payload ≡ buffer = cc made in
      rw (sym e) (
        rw (
          decode-encode id payload (register_schema-lt (subject_of event) s room v),
          j.from_slice-to_vec event payload plain printed,
        ))
