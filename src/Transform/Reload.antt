-- ===== src/Transform/Reload.antt =====
-- Which module a plugin runs after any registrations and reloads.
use caminus.Prelude.{
  ℕ, ◌≡◌, refl, ap, ◌∙◌, Bool, true, Option, none, some, List, [], ◌∷◌, Result, ok, err,
  if◌then◌else◌, map_err, ◌>>=◌, not, Bool-cases, inl, inr,
}
use caminus.Text.Defs.{Text, text_eq, text_beq}
use caminus.Dict.Defs.{get}
use caminus.Dict.Laws.{get-insert}
use caminus.Event.{ChangeEvent}
use caminus.Transform.Wasm.{Wasm, EventSerde}
use caminus.Transform.Engine.{
  TransformError, wasm, engine_failed, missing_export, Exit, failed, WasmTransformer,
  new as new_engine, transform,
}
use caminus.Transform.Registry.{
  PluginMetadata, WasmPluginRegistry, new, with_plugin, register_plugin, hot_reload_plugin,
  not_registered, map_some, executed, execute_transform,
}

-- A load of a plugin: at which time, under which name and version, and from which bytes.
pub data Load : Type 0 where
  register : ℕ → Text → Text → List ℕ → Load
  hot_reload : ℕ → Text → Text → List ℕ → Load

module _ (w : Wasm) (j : EventSerde) where
  -- A load that fails leaves the registry as it was.
  abbrev pub registry_after :
      WasmPluginRegistry w j
      → Result (TransformError w j) (WasmPluginRegistry w j)
      → WasmPluginRegistry w j
  registry_after r (ok r') = r'
  registry_after r (err e) = r

  abbrev pub load : WasmPluginRegistry w j → Load → WasmPluginRegistry w j
  load r (register now name version wasm_bytes) =
      registry_after r (register_plugin w j r now name version wasm_bytes)
  load r (hot_reload now name version wasm_bytes) =
      registry_after r (hot_reload_plugin w j r now name version wasm_bytes)

  unfoldable pub load_all : WasmPluginRegistry w j → List Load → WasmPluginRegistry w j
  load_all r [] = r
  load_all r (l ∷ loads) = load_all (load r l) loads

  -- The version and the module of the last load under a name whose bytes compile.
  abbrev pub or_compiled :
      Text → Result w.Failure w.Module → Option (Text × w.Module) → Option (Text × w.Module)
  or_compiled version (ok compiled) before = some (version, compiled)
  or_compiled version (err e) before = before

  abbrev pub loaded : Text → Load → Option (Text × w.Module) → Option (Text × w.Module)
  loaded name (register now n version wasm_bytes) before =
      if text_beq n name then or_compiled version (w.compile wasm_bytes) before else before
  loaded name (hot_reload now n version wasm_bytes) before =
      if text_beq n name then or_compiled version (w.compile wasm_bytes) before else before

  unfoldable pub last_loaded :
      Text → Option (Text × w.Module) → List Load → Option (Text × w.Module)
  last_loaded name before [] = before
  last_loaded name before (l ∷ loads) = last_loaded name (loaded name l before) loads

  -- What a registry holds of a plugin, and an enabled plugin.
  abbrev pub shown :
      Option (PluginMetadata × WasmTransformer w j) → Option (Bool × (Text × w.Module))
  shown none = none
  shown (some (metadata, engine)) = some (metadata.enabled, (metadata.version, engine.module_of))

  abbrev pub enabled : Option (Text × w.Module) → Option (Bool × (Text × w.Module))
  enabled none = none
  enabled (some plugin) = some (true, plugin)

  abbrev Holds : Text → WasmPluginRegistry w j → Option (Text × w.Module) → Type 0
  Holds name r before = shown (get name r.plugins) ≡ enabled before

  with_plugin-Holds :
      (r : WasmPluginRegistry w j) (now : ℕ) (n name version : Text) (compiled : w.Module)
      (before : Option (Text × w.Module))
      → Holds name r before
      → Holds name
          (with_plugin w j r now n version record { module_of = compiled })
          (if text_beq n name then some (version, compiled) else before)
  with_plugin-Holds r now n name version compiled before h =
      let found =
        get-insert n name
          (
            record { name = n; version = version; enabled = true; loaded_at = now },
            record { module_of = compiled },
          )
          r.plugins in
      ap shown found
      ∙ elim (Bool-cases (text_beq n name)) [ inl mine ↦ rw mine refl | inr other ↦ rw other h ]

  -- The registry after a load, by the result of the compilation.
  abbrev built :
      WasmPluginRegistry w j
      → ℕ
      → Text
      → Text
      → Result w.Failure w.Module
      → Result (TransformError w j) (WasmPluginRegistry w j)
  built r now n version result = do
    engine ← (do
      compiled ← map_err (λ e. wasm (engine_failed e)) result
      ok record { module_of = compiled })
    ok (with_plugin w j r now n version engine)

  built-Holds :
      (r : WasmPluginRegistry w j) (now : ℕ) (n name version : Text)
      (result : Result w.Failure w.Module) (before : Option (Text × w.Module))
      → Holds name r before
      → Holds name
          (registry_after r (built r now n version result))
          (if text_beq n name then or_compiled version result before else before)
  built-Holds r now n name version (ok compiled) before h =
      with_plugin-Holds r now n name version compiled before h
  built-Holds r now n name version (err e) before h = elim (Bool-cases (text_beq n name)) [
    | inl mine ↦ rw mine h
    | inr other ↦ rw other h
  ]

  load-Holds :
      (r : WasmPluginRegistry w j) (name : Text) (l : Load) (before : Option (Text × w.Module))
      → Holds name r before
      → Holds name (load r l) (loaded name l before)
  unfolding register_plugin hot_reload_plugin new_engine
  load-Holds r name (register now n version wasm_bytes) before h =
      built-Holds r now n name version (w.compile wasm_bytes) before h
  load-Holds r name (hot_reload now n version wasm_bytes) before h =
      built-Holds r now n name version (w.compile wasm_bytes) before h

  load_all-Holds :
      (r : WasmPluginRegistry w j) (name : Text) (loads : List Load)
      (before : Option (Text × w.Module))
      → Holds name r before
      → Holds name (load_all r loads) (last_loaded name before loads)
  unfolding load_all last_loaded
  load_all-Holds r name [] before h = h
  load_all-Holds r name (l ∷ loads) before h =
      load_all-Holds (load r l) name loads (loaded name l before) (load-Holds r name l before h)

  -- The result of an execution, by what is held of the plugin.
  abbrev executed_as :
      Option (Bool × (Text × w.Module))
      → Text
      → ChangeEvent
      → Result (Exit w j) (Option ChangeEvent)
  executed_as none name event = err (failed (missing_export (not_registered w j name)))
  executed_as (some (is_enabled, (version, compiled))) name event =
      if not is_enabled
      then ok (some event)
      else map_some w j (transform w j record { module_of = compiled } event)

  executed-shown :
      (got : Option (PluginMetadata × WasmTransformer w j)) (name : Text) (event : ChangeEvent)
      → executed w j got name event ≡ executed_as (shown got) name event
  executed-shown none name event = refl
  executed-shown (some (metadata, engine)) name event = refl

  -- What an execution does of a plugin with the given module, or of none.
  abbrev pub run_last :
      Option (Text × w.Module) → Text → ChangeEvent → Result (Exit w j) (Option ChangeEvent)
  run_last none name event = err (failed (missing_export (not_registered w j name)))
  run_last (some (version, compiled)) name event =
      map_some w j (transform w j record { module_of = compiled } event)

  executed_as-enabled :
      (last : Option (Text × w.Module)) (name : Text) (event : ChangeEvent)
      → executed_as (enabled last) name event ≡ run_last last name event
  executed_as-enabled none name event = refl
  executed_as-enabled (some (version, compiled)) name event = refl

  -- After any registrations and reloads of any plugins from an empty registry, an execution runs the
  -- module of the last of them, of either kind, that was for the plugin and compiled; it fails if
  -- there is none. A load that does not compile changes nothing.
  pub execute-last_loaded :
      (loads : List Load) (name : Text) (event : ChangeEvent)
      → execute_transform w j (load_all (new w j) loads) name event
        ≡ run_last (last_loaded name none loads) name event
  unfolding execute_transform get
  execute-last_loaded loads name event =
      executed-shown (get name (load_all (new w j) loads).plugins) name event
      ∙ ap (λ held. executed_as held name event) (load_all-Holds (new w j) name loads none refl)
      ∙ executed_as-enabled (last_loaded name none loads) name event
