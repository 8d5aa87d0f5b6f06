-- ===== src/System.antt =====
-- A hooked system call from end to end: the rewritten instruction, the trampoline, `hook_entry` and the
-- kernel.
pub mod Instruction
pub mod Answered
pub mod Started
pub mod Replaced
mod Tests
