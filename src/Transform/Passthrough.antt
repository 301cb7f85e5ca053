-- ===== src/Transform/Passthrough.antt =====
-- Runs of a module: one that returns its input, and one that returns a negative length.
use caminus.Prelude.{
  ℕ, ◌^◌, ◌≤◌, ◌<◌, ◌≡◌, refl, true, some, List, Result, ok, err, map_err, ◌>>=◌, length, ltb,
  arith,
}
use caminus.Text.Defs.{codes}
use caminus.Event.{ChangeEvent}
use caminus.Transform.Wasm.{Wasm, EventSerde, is_plain_event, as_i32, as_usize}
use caminus.Transform.Engine.{
  Exit, failed, memory_access, serialization, capacity_overflow, engine_exit, allocated,
  WasmTransformer, transform,
}

module _ (w : Wasm) (j : EventSerde) where
  -- A module that starts, with the three exports.
  pub record Exports (t : WasmTransformer w j) : Type 0 where
    pub instance_of : w.Instance
    pub alloc : w.Unary
    pub transform_fn : w.Binary
    pub memory : w.Memory
    pub starts : w.instantiate t.module_of ≡ ok instance_of
    pub has_alloc : w.get_unary instance_of (codes "alloc") ≡ ok alloc
    pub has_transform : w.get_binary instance_of (codes "transform") ≡ ok transform_fn
    pub has_memory : w.get_memory instance_of (codes "memory") ≡ some memory

  -- The module of the program: every block is at 0, and the output is the input.
  pub record IsPassthrough {t : WasmTransformer w j} (x : Exports t) : Type 0 where
    pub allocates : (i : w.Instance) (len : ℕ) → w.call_unary x.alloc i len ≡ ok (0, i)
    pub returns :
        (i : w.Instance) (ptr len : ℕ) → w.call_binary x.transform_fn i ptr len ≡ ok (len, i)

  -- From the call of the guest's function on.
  abbrev finish :
      {t : WasmTransformer w j} → Exports t → ℕ → ℕ → w.Instance → Result (Exit w j) ChangeEvent
  finish x guest_ptr len written = do
    (out_len, run) ← map_err (engine_exit w j) (w.call_binary x.transform_fn written guest_ptr len)
    size ← allocated w j (as_usize out_len)
    out_buffer ←
        map_err (λ e. failed (memory_access e)) (w.read x.memory run (as_usize guest_ptr) size)
    map_err (λ e. failed (serialization e)) (j.from_slice out_buffer)

  small_length : (n : ℕ) → n < 2 ^ 31 → as_usize (as_i32 n) ≡ n
  small_length n small = ground (arith, small)

  finish-passthrough :
      {t : WasmTransformer w j} (x : Exports t) (event : ChangeEvent) (json_bytes : List ℕ)
      (written : w.Instance)
      → IsPassthrough x
      → is_plain_event event ≡ true
      → j.to_vec event ≡ ok json_bytes
      → length json_bytes < 2 ^ 31
      → w.write x.memory x.instance_of 0 json_bytes ≡ ok written
      → finish x 0 (as_i32 (length json_bytes)) written ≡ ok event
  finish-passthrough x event json_bytes written p plain printed small wrote =
      let fits : ltb (length json_bytes) (2 ^ 63) ≡ true = ground (arith, small) in
      rw
        (
          p.returns,
          small_length (length json_bytes) small,
          fits,
          w.read-write x.memory x.instance_of written 0 json_bytes wrote,
          j.from_slice-to_vec event json_bytes plain printed,
        )
        refl

  after_write :
      (r : Result w.AccessFailure w.Instance) (next : w.Instance → Result (Exit w j) ChangeEvent)
      (event : ChangeEvent)
      → ((written : w.Instance) → r ≡ ok written → next written ≡ ok event)
      → (map_err (λ e. failed (memory_access e)) r >>= next)
        ≡ (map_err (λ e. failed (memory_access e)) r >>= λ written. ok event)
  after_write (ok written) next event h = h written refl
  after_write (err e) next event h = refl

  -- A passthrough module with its exports returns a plain event as it is, if its JSON is shorter than
  -- 2 ^ 31 bytes and fits the guest's memory; if the write to the memory fails, that is the error.
  pub transform-passthrough :
      (t : WasmTransformer w j) (x : Exports t) (event : ChangeEvent) (json_bytes : List ℕ)
      → IsPassthrough x
      → is_plain_event event ≡ true
      → j.to_vec event ≡ ok json_bytes
      → length json_bytes < 2 ^ 31
      → transform w j t event ≡ (
          map_err (λ e. failed (memory_access e)) (w.write x.memory x.instance_of 0 json_bytes)
          >>= λ written. ok event)
  unfolding transform
  transform-passthrough t x event json_bytes p plain printed small =
      rw (x.starts, x.has_alloc, x.has_transform, x.has_memory, printed, p.allocates)
        (after_write (w.write x.memory x.instance_of 0 json_bytes)
          (finish x 0 (as_i32 (length json_bytes))) event
          (λ written. finish-passthrough x event json_bytes written p plain printed small))

  -- Whatever the module, if the event is printed, the guest gives a block that the JSON is written to,
  -- and its function returns a negative length, the transformation panics: it returns no error.
  pub transform-negative :
      (t : WasmTransformer w j) (x : Exports t) (event : ChangeEvent) (json_bytes : List ℕ)
      (guest_ptr out_len : ℕ) (allocated_in written run : w.Instance)
      → j.to_vec event ≡ ok json_bytes
      → w.call_unary x.alloc x.instance_of (as_i32 (length json_bytes))
        ≡ ok (guest_ptr, allocated_in)
      → w.write x.memory allocated_in (as_usize guest_ptr) json_bytes ≡ ok written
      → w.call_binary x.transform_fn written guest_ptr (as_i32 (length json_bytes))
        ≡ ok (out_len, run)
      → 2 ^ 31 ≤ out_len
      → out_len < 2 ^ 32
      → transform w j t event ≡ err capacity_overflow
  unfolding transform
  transform-negative t x event json_bytes guest_ptr out_len allocated_in written run printed called
        wrote returned negative small =
      let too_large : allocated w j (as_usize out_len) ≡ err capacity_overflow =
        ground (arith, negative, small) in
      rw
        (
          x.starts, x.has_alloc, x.has_transform, x.has_memory, printed, called, wrote, returned,
          too_large,
        )
        refl
