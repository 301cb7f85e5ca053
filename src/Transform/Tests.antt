-- ===== src/Transform/Tests.antt =====
-- A module that returns its input, one that returns a negative length, and a reload.
use caminus.Prelude.{ℕ, ◌^◌, ◌-◌, ◌≡◌, refl, none, List, [], ◌∷◌, ok, err, map_err, ◌>>=◌, arith}
use caminus.Text.Defs.{codes}
use caminus.Event.{ChangeEvent}
use caminus.Storage.Database.{is_plain_within}
use caminus.Transform.Engine.{failed, memory_access, capacity_overflow, WasmTransformer, transform}
use caminus.Transform.Passthrough.{
  Exports, IsPassthrough, transform-passthrough, transform-negative,
}
use caminus.Transform.Registry.{new, execute_transform}
use caminus.Transform.Reload.{
  Load, register, hot_reload, load_all, last_loaded, run_last, execute-last_loaded,
}
use caminus.Transform.Instances.{machines, event_json, event_of, print_parts}

abbrev with_length : ℕ → WasmTransformer machines event_json
with_length n = record { module_of = n }

abbrev exports : (n : ℕ) → Exports machines event_json (with_length n)
exports n = record {
  instance_of = (n, (0, []));
  alloc = tt;
  transform_fn = n;
  memory = tt;
  starts = refl;
  has_alloc = refl;
  has_transform = refl;
  has_memory = refl;
}

returns_input : IsPassthrough machines event_json (exports 0)
returns_input = record { allocates = λ i len. refl; returns = λ i ptr len. refl }

abbrev first : ChangeEvent
first = event_of 5 (codes "1")

transform-passthrough_example : transform machines event_json (with_length 0) first ≡ (
    map_err (λ e. failed (memory_access e)) (machines.write tt (0, (0, [])) 0 (5 ∷ codes "1"))
    >>= λ written. ok first)
unfolding is_plain_within print_parts
transform-passthrough_example =
    transform-passthrough machines event_json (with_length 0) (exports 0) first (5 ∷ codes "1")
      returns_input refl refl (omega arith)

transform-negative_example :
    transform machines event_json (with_length 1) first ≡ err capacity_overflow
unfolding print_parts
transform-negative_example =
    transform-negative machines event_json (with_length 1) (exports 1) first (5 ∷ codes "1") 0
      (2 ^ 32 - 1) (1, (0, [])) (1, (0, 5 ∷ codes "1")) (1, (0, 5 ∷ codes "1")) refl refl refl refl
      (omega arith) (omega arith)

abbrev loads : List Load
loads =
    register 0 (codes "p") (codes "1") (0 ∷ [])
    ∷ register 1 (codes "q") (codes "1") (0 ∷ [])
    ∷ hot_reload 2 (codes "p") (codes "2") (1 ∷ [])
    ∷ hot_reload 3 (codes "p") (codes "3") []
    ∷ []

execute-last_loaded_example :
    execute_transform machines event_json
      (load_all machines event_json (new machines event_json) loads)
      (codes "p")
      first
    ≡ run_last machines event_json
        (last_loaded machines event_json (codes "p") none loads)
        (codes "p")
        first
execute-last_loaded_example = execute-last_loaded machines event_json loads (codes "p") first
