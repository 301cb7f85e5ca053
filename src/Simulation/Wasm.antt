-- ===== src/Simulation/Wasm.antt =====
-- The program's own transformation of the events of the Postgres stream.
use caminus.Prelude.{
  ℕ, ◌%◌, ◌^◌, ◌<◌, ◌≡◌, List, refl, ◌∙◌, true, Bool-cases, inl, inr, ok, length, nat_eq, arith,
}
use caminus.Storage.Database.{is_plain_within}
use caminus.Source.Postgres.{row_at, event_at}
use caminus.Transform.Wasm.{Wasm, EventSerde, is_plain_event}
use caminus.Transform.Engine.{WasmTransformer, transform}
use caminus.Transform.Passthrough.{Exports, IsPassthrough, transform-passthrough}

event_at-IsPlain : (now n : ℕ) → n < 2 ^ 64 → is_plain_event (event_at now n) ≡ true
unfolding is_plain_within event_at row_at
event_at-IsPlain now n small = elim (Bool-cases (nat_eq (n % 4) 0)) [
  | inl commits ↦ rw commits (ground (arith, small))
  | inr writes ↦ rw writes (ground (arith, small))
]

module _ (w : Wasm) (j : EventSerde) where
  -- The JSON of an event, if it is short and fits the memory of the guest.
  pub record Fits {t : WasmTransformer w j} (x : Exports w j t) (now n : ℕ) : Type 0 where
    pub json_bytes : List ℕ
    pub printed : j.to_vec (event_at now n) ≡ ok json_bytes
    pub short : length json_bytes < 2 ^ 31
    pub written : w.Instance
    pub wrote : w.write x.memory x.instance_of 0 json_bytes ≡ ok written

  -- A passthrough module returns the events of the stream as they are, if their JSON is short and fits
  -- the memory of the guest: what the sessions assume of the transformation.
  pub transform-stream :
      {t : WasmTransformer w j} (x : Exports w j t)
      → IsPassthrough w j x
      → ((now n : ℕ) → n < 2 ^ 64 → Fits x now n)
      → (now n : ℕ) → n < 2 ^ 64
      → transform w j t (event_at now n) ≡ ok (event_at now n)
  transform-stream {t = t} x p fits now n small =
      let f = fits now n small in
      transform-passthrough w j t x (event_at now n) f.json_bytes p (event_at-IsPlain now n small)
        f.printed f.short
      ∙ rw f.wrote refl
