-- ===== src/Worker/Instances.antt =====
-- A world in memory: the transformation lets events pass whose offset is a text.
use caminus.Prelude.{◌≡◌, refl, Bool, true, false, Result, ok, err}
use caminus.Text.Defs.{Text, codes, text_beq}
use caminus.Text.Utf8.{is_utf8}
use caminus.Event.{ChangeEvent}
use caminus.Storage.Store.{save_offset}
use caminus.Storage.Instances.{memory, plain_json}
use caminus.Limiter.Instances.{billionths}
use caminus.Worker.World.{World}

abbrev pub passthrough_if : Bool → ChangeEvent → Result (Unit {0}) ChangeEvent
passthrough_if true event = ok event
passthrough_if false event = err tt

abbrev pub passthrough : ChangeEvent → Result (Unit {0}) ChangeEvent
passthrough event = passthrough_if (is_utf8 event.offset) event

pub passthrough-valid : (e t : ChangeEvent) → passthrough e ≡ ok t → is_utf8 t.offset ≡ true
passthrough-valid e t h = from (is_utf8 e.offset) refl h
  where
    from : (b : Bool) → is_utf8 e.offset ≡ b → passthrough_if b e ≡ ok t → is_utf8 t.offset ≡ true
    from true valid same = cc
    from false valid same = absurd (cc same)

pub saves :
    (source_id : Text) (s : memory.State) (offset : Text)
    → (s' : memory.State) × (save_offset memory plain_json s source_id offset ≡ ok s')
unfolding save_offset
saves source_id s offset = (_, refl)

-- The event 2 cannot be serialized; the others become their ids.
abbrev pub unless_two : ChangeEvent → Bool → Result (Unit {0}) Text
unless_two e true = err tt
unless_two e false = ok e.id

abbrev pub world : World
world = record {
  database = memory;
  serde = plain_json;
  float = billionths;
  key_text = λ key. codes "key";
  hash = λ key. 6;
  TransformError = Unit {0};
  transform = passthrough;
  SimdError = Unit {0};
  to_string = λ e. unless_two e (text_beq e.id (codes "2"));
  StreamError = Unit {0};
  fault_text = λ e. codes "refused";
  transform_text = λ e. codes "failed";
  simd_text = λ e. codes "simd";
  stream_text = λ e. codes "gone";
  letter_time = λ e. 0;
}
