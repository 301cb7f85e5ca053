-- ===== src/Transform/Registry.antt =====
-- `WasmPluginRegistry` (src/transform/registry.rs). The clock's reading is an argument.
use caminus.Prelude.{
  ℕ, Bool, true, Option, none, some, List, [], Result, ok, err, ◌>>=◌, length, nat_eq, not,
  if◌then◌else◌, ◌++◌,
}
use caminus.Text.Defs.{Text, codes, text_eq}
use caminus.Dict.Defs.{Dict, get, insert}
use caminus.Event.{ChangeEvent}
use caminus.Transform.Wasm.{Wasm, EventSerde}
use caminus.Transform.Engine.{
  TransformError, missing_export, Exit, failed, WasmTransformer, new as new_engine, transform,
}

pub record PluginMetadata : Type 0 where
  pub name : Text
  pub version : Text
  pub enabled : Bool
  pub loaded_at : ℕ

module _ (w : Wasm) (j : EventSerde) where
  pub record WasmPluginRegistry : Type 0 where
    pub plugins : Dict Text (PluginMetadata × WasmTransformer w j)

  abbrev pub new : WasmPluginRegistry
  new = record { plugins = [] }

  abbrev pub with_plugin :
      WasmPluginRegistry → ℕ → Text → Text → WasmTransformer w j → WasmPluginRegistry
  with_plugin r now name version engine =
      let metadata : PluginMetadata = record {
        name = name;
        version = version;
        enabled = true;
        loaded_at = now;
      } in
      record r { plugins = insert name (metadata, engine) r.plugins }

  unfoldable pub register_plugin :
      WasmPluginRegistry → ℕ → Text → Text → List ℕ → Result (TransformError w j) WasmPluginRegistry
  register_plugin r now name version wasm_bytes = do
    engine ← new_engine w j wasm_bytes
    ok (with_plugin r now name version engine)

  unfoldable pub hot_reload_plugin :
      WasmPluginRegistry → ℕ → Text → Text → List ℕ → Result (TransformError w j) WasmPluginRegistry
  hot_reload_plugin r now name new_version wasm_bytes = do
    engine ← new_engine w j wasm_bytes
    ok (with_plugin r now name new_version engine)

  abbrev pub not_registered : Text → Text
  not_registered name = codes "Plugin '" ++ (name ++ codes "' not registered")

  abbrev pub map_some : {E : Type 0} → Result E ChangeEvent → Result E (Option ChangeEvent)
  map_some (ok event) = ok (some event)
  map_some (err e) = err e

  abbrev pub executed :
      Option (PluginMetadata × WasmTransformer w j)
      → Text
      → ChangeEvent
      → Result (Exit w j) (Option ChangeEvent)
  executed none name event = err (failed (missing_export (not_registered name)))
  executed (some (metadata, engine)) name event =
      if not metadata.enabled then ok (some event) else map_some (transform w j engine event)

  unfoldable pub execute_transform :
      WasmPluginRegistry → Text → ChangeEvent → Result (Exit w j) (Option ChangeEvent)
  execute_transform r name event = executed (get name r.plugins) name event

  unfoldable pub get_metadata : WasmPluginRegistry → Text → Option PluginMetadata
  get_metadata r name = elim (get name r.plugins) [ none ↦ none | some plugin ↦ some plugin.0 ]

  abbrev pub len : WasmPluginRegistry → ℕ
  len r = length r.plugins

  abbrev pub is_empty : WasmPluginRegistry → Bool
  is_empty r = nat_eq (len r) 0
