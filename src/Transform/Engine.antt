-- ===== src/Transform/Engine.antt =====
-- `WasmTransformer` (src/transform/mod.rs).
use caminus.Prelude.{
  ℕ, ◌^◌, List, Result, ok, err, map_err, ok_or, ◌>>=◌, ltb, length, if◌then◌else◌,
}
use caminus.Text.Defs.{Text, codes}
use caminus.Event.{ChangeEvent}
use caminus.Transform.Wasm.{Wasm, EventSerde, as_i32, as_usize}

module _ (w : Wasm) (j : EventSerde) where
  -- The two ways to a `Wasm` error: one of the engine's, and the one for the memory.
  pub data WasmError : Type 0 where
    engine_failed : w.Failure → WasmError
    missing_memory : WasmError

  pub data TransformError : Type 0 where
    wasm : WasmError → TransformError
    serialization : j.Failure → TransformError
    missing_export : Text → TransformError
    memory_access : w.AccessFailure → TransformError

  -- A transformation returns an error, or panics when the buffer for the output is larger than any
  -- allocation may be.
  pub data Exit : Type 0 where
    failed : TransformError → Exit
    capacity_overflow : Exit

  pub record WasmTransformer : Type 0 where
    pub module_of : w.Module

  unfoldable pub new : List ℕ → Result TransformError WasmTransformer
  new wat_or_wasm_bytes = do
    compiled ← map_err (λ e. wasm (engine_failed e)) (w.compile wat_or_wasm_bytes)
    ok record { module_of = compiled }

  -- `vec![0u8; n]`
  abbrev pub allocated : ℕ → Result Exit ℕ
  allocated n = if ltb n (2 ^ 63) then ok n else err capacity_overflow

  abbrev pub engine_exit : w.Failure → Exit
  engine_exit e = failed (wasm (engine_failed e))

  unfoldable pub transform : WasmTransformer → ChangeEvent → Result Exit ChangeEvent
  transform t event = do
    instance_of ← map_err engine_exit (w.instantiate t.module_of)
    alloc ←
        map_err (λ e. failed (missing_export (codes "alloc")))
          (w.get_unary instance_of (codes "alloc"))
    transform_fn ←
        map_err (λ e. failed (missing_export (codes "transform")))
          (w.get_binary instance_of (codes "transform"))
    memory ← ok_or (failed (wasm missing_memory)) (w.get_memory instance_of (codes "memory"))
    json_bytes ← map_err (λ e. failed (serialization e)) (j.to_vec event)
    let len = as_i32 (length json_bytes)
    (guest_ptr, allocated_in) ← map_err engine_exit (w.call_unary alloc instance_of len)
    written ←
        map_err (λ e. failed (memory_access e))
          (w.write memory allocated_in (as_usize guest_ptr) json_bytes)
    (out_len, run) ← map_err engine_exit (w.call_binary transform_fn written guest_ptr len)
    size ← allocated (as_usize out_len)
    out_buffer ←
        map_err (λ e. failed (memory_access e)) (w.read memory run (as_usize guest_ptr) size)
    map_err (λ e. failed (serialization e)) (j.from_slice out_buffer)
