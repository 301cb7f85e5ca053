-- ===== src/Transform/Instances.antt =====
-- A small engine, whose modules are a number: what they return for the length of the output. It keeps
-- the bytes that were written last, in a memory of 65536 bytes.
use caminus.Prelude.{
  ℕ, ◌+◌, ◌-◌, ◌^◌, ◌≡◌, subst, ap, sym, true, false, Bool, Option, none, some, List, [], ◌∷◌,
  Result, ok, err, ltb, nat_eq, nat_eq_iff, length, if◌then◌else◌, arith, ◌&&◌,
}
use caminus.Text.Defs.{Text}
use caminus.Json.Value.{Value, null}
use caminus.Event.{ChangeEvent, Operation, create}
use caminus.Transform.Wasm.{Wasm, EventSerde, is_plain_event}

abbrev pub Machine : Type 0
Machine = ℕ × (ℕ × List ℕ)

-- The first byte is the module; nothing else compiles.
abbrev pub compile_byte : List ℕ → Result (Unit {0}) ℕ
compile_byte [] = err tt
compile_byte (b ∷ bytes) = ok b

-- The module 0 returns the length it is given, any other one a negative number.
abbrev pub call_machine : ℕ → Machine → ℕ → ℕ → Result (Unit {0}) (ℕ × Machine)
call_machine f i ptr len = ok (if nat_eq f 0 then len else 2 ^ 32 - 1, i)

abbrev pub write_machine : Unit {0} → Machine → ℕ → List ℕ → Result (Unit {0}) Machine
write_machine m i at bytes =
    if ltb (2 ^ 16) (at + length bytes) then err tt else ok (i.0, (at, bytes))

abbrev pub read_machine : Unit {0} → Machine → ℕ → ℕ → Result (Unit {0}) (List ℕ)
read_machine m i at n = if nat_eq i.1.0 at && nat_eq (length i.1.1) n then ok i.1.1 else err tt

read_written :
    (m : Unit {0}) (n at : ℕ) (bytes : List ℕ)
    → read_machine m (n, (at, bytes)) at (length bytes) ≡ ok bytes
read_written m n at bytes =
    ground (arith, nat_eq_iff at at, nat_eq_iff (length bytes) (length bytes))

pub machine_read-write :
    (m : Unit {0}) (i i' : Machine) (at : ℕ) (bytes : List ℕ)
    → write_machine m i at bytes ≡ ok i'
    → read_machine m i' at (length bytes) ≡ ok bytes
machine_read-write m i i' at bytes h = by_size (ltb (2 ^ 16) (at + length bytes)) h
  where
    by_size :
        (full : Bool)
        → (if full then err tt else ok (i.0, (at, bytes))) ≡ ok i'
        → read_machine m i' at (length bytes) ≡ ok bytes
    by_size true stored = absurd (cc stored)
    by_size false stored =
        let same : ◌≡◌ {A = Machine} (i.0, (at, bytes)) i' = cc stored in
        subst (λ i. read_machine m i at (length bytes) ≡ ok bytes) same
          (read_written m i.0 at bytes)

abbrev pub machines : Wasm
machines = record {
  Module = ℕ;
  Instance = Machine;
  Unary = Unit;
  Binary = ℕ;
  Memory = Unit;
  Failure = Unit;
  AccessFailure = Unit;
  compile = compile_byte;
  instantiate = λ m. ok (m, (0, []));
  get_unary = λ i name. ok tt;
  get_binary = λ i name. ok i.0;
  get_memory = λ i name. some tt;
  call_unary = λ f i len. ok (0, i);
  call_binary = call_machine;
  write = write_machine;
  read = read_machine;
  read-write = machine_read-write;
}

-- Events of which only the id and the time are given.
abbrev pub event_of : ℕ → Text → ChangeEvent
event_of now id = record {
  id = id;
  source_database = [];
  source_table_or_collection = [];
  operation = create;
  timestamp = now;
  key = null;
  before = none;
  after = none;
  transaction_id = none;
  offset = [];
}

unfoldable pub print_parts :
    Text
    → Text
    → Text
    → Operation
    → ℕ
    → Value
    → Option Value
    → Option Value
    → Option Text
    → Text
    → Result (Unit {0}) (List ℕ)
print_parts id [] [] create now null none none none [] = ok (now ∷ id)
print_parts _ _ _ _ _ _ _ _ _ _ = err tt

abbrev pub print_event : ChangeEvent → Result (Unit {0}) (List ℕ)
print_event e =
    print_parts e.id e.source_database e.source_table_or_collection e.operation e.timestamp e.key
      e.before e.after e.transaction_id e.offset

unfoldable pub parse_event : List ℕ → Result (Unit {0}) ChangeEvent
parse_event [] = err tt
parse_event (now ∷ id) = ok (event_of now id)

parse_parts :
    (id s t : Text) (op : Operation) (now : ℕ) (key : Value) (before after : Option Value)
    (tx : Option Text) (offset : Text) (bytes : List ℕ)
    → print_parts id s t op now key before after tx offset ≡ ok bytes
    → parse_event bytes
      ≡ ok record {
        id = id;
        source_database = s;
        source_table_or_collection = t;
        operation = op;
        timestamp = now;
        key = key;
        before = before;
        after = after;
        transaction_id = tx;
        offset = offset;
      }
unfolding print_parts parse_event
parse_parts id [] [] create now null none none none [] bytes h =
    let same : ◌≡◌ {A = List ℕ} (now ∷ id) bytes = cc h in ap parse_event (sym same)
parse_parts id s t op now key before after tx offset bytes h = absurd (cc h)

pub parse-print_event :
    (event : ChangeEvent) (bytes : List ℕ)
    → is_plain_event event ≡ true
    → print_event event ≡ ok bytes
    → parse_event bytes ≡ ok event
parse-print_event e bytes plain h =
    parse_parts e.id e.source_database e.source_table_or_collection e.operation e.timestamp e.key
      e.before e.after e.transaction_id e.offset bytes h

abbrev pub event_json : EventSerde
event_json = record {
  Failure = Unit;
  to_vec = print_event;
  from_slice = parse_event;
  from_slice-to_vec = parse-print_event;
}
