-- ===== src/Transform/Wasm.antt =====
-- What the transformer uses of `wasmtime`, and of `serde_json` for events, neither of which is part of
-- the repository. An `i32` is its pattern of 32 bits, and the addresses of the host have 64 bits.
use caminus.Prelude.{
  ℕ, ◌+◌, ◌-◌, ◌%◌, ◌^◌, ◌≡◌, Bool, true, false, ◌&&◌, Option, none, some, List, Result, ok, ltb,
  length, if◌then◌else◌,
}
use caminus.Text.Defs.{Text}
use caminus.Json.Value.{Value, null}
use caminus.Event.{ChangeEvent}
use caminus.Storage.Database.{is_plain_within}

-- An instance stands for its store too, and a function or a memory is a handle into it. A call of a
-- function that traps is an error.
pub record Wasm : Type 1 where
  pub Module : Type 0
  pub Instance : Type 0
  pub Unary : Type 0
  pub Binary : Type 0
  pub Memory : Type 0
  pub Failure : Type 0
  pub AccessFailure : Type 0
  pub compile : List ℕ → Result Failure Module
  pub instantiate : Module → Result Failure Instance
  pub get_unary : Instance → Text → Result Failure Unary
  pub get_binary : Instance → Text → Result Failure Binary
  pub get_memory : Instance → Text → Option Memory
  pub call_unary : Unary → Instance → ℕ → Result Failure (ℕ × Instance)
  pub call_binary : Binary → Instance → ℕ → ℕ → Result Failure (ℕ × Instance)
  pub write : Memory → Instance → ℕ → List ℕ → Result AccessFailure Instance
  pub read : Memory → Instance → ℕ → ℕ → Result AccessFailure (List ℕ)
  -- What has been written is read.
  pub read-write :
      (m : Memory) (i i' : Instance) (at : ℕ) (bytes : List ℕ)
      → write m i at bytes ≡ ok i'
      → read m i' at (length bytes) ≡ ok bytes

-- A row that is there but null is printed like one that is not there.
abbrev pub is_plain_row : Option Value → Bool
is_plain_row none = true
is_plain_row (some null) = false
is_plain_row (some row) = is_plain_within 1 row

-- Events that are printed and parsed without loss. Each of their values stands inside one object.
abbrev pub is_plain_event : ChangeEvent → Bool
is_plain_event event =
    is_plain_within 1 event.key && (is_plain_row event.before && is_plain_row event.after)

pub record EventSerde : Type 1 where
  pub Failure : Type 0
  pub to_vec : ChangeEvent → Result Failure (List ℕ)
  pub from_slice : List ℕ → Result Failure ChangeEvent
  -- What is printed of a plain event is parsed back.
  pub from_slice-to_vec :
      (event : ChangeEvent) (bytes : List ℕ)
      → is_plain_event event ≡ true
      → to_vec event ≡ ok bytes
      → from_slice bytes ≡ ok event

-- `x as i32` of a `usize`, and `x as usize` of an `i32`, whose sign is extended.
abbrev pub as_i32 : ℕ → ℕ
as_i32 x = x % 2 ^ 32

abbrev pub as_usize : ℕ → ℕ
as_usize x = if ltb x (2 ^ 31) then x else x + 2 ^ 64 - 2 ^ 32
