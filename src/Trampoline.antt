-- ===== src/Trampoline.antt =====
-- zpoline_loader/src/trampoline.rs: the code at address 0, and the machine that runs it.
pub mod Generate
pub mod Machine
pub mod Listing
pub mod Steps
pub mod Call
pub mod Run
pub mod Placed
pub mod Alignment
pub mod Typed
mod Tests
