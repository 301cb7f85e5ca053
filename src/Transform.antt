-- ===== src/Transform.antt =====
-- WebAssembly transformations and the registry of plugins (src/transform/).
pub mod Wasm
pub mod Engine
pub mod Passthrough
pub mod Registry
pub mod Reload
pub mod Instances
mod Tests
