-- ===== src/Loader.antt =====
-- zpoline_loader: the start, and the pass over the memory of the process.
pub mod Config
pub mod HookLibrary
pub mod Pass
pub mod Startup
pub mod Sample
mod Tests
