-- ===== src/HookLibs.antt =====
-- The hook libraries and sample hooks of the repository: hooks that print, count, and pass every system
-- call on.
pub mod Printing
pub mod Observer
pub mod Stats
pub mod Names
pub mod Tracer
pub mod Samples
mod Tests
