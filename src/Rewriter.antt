-- ===== src/Rewriter.antt =====
-- zpoline_rewriter: the regions of memory, which of them are rewritten, and how.
pub mod Region
pub mod Maps
pub mod FilePath
pub mod Config
pub mod Decoder
pub mod Find
pub mod World
pub mod Rewrite
pub mod Sample
mod Tests
