-- ===== src/HookApi.antt =====
-- zpoline_hook_api: the hook ABI, the trait of system call hooks, and the hook entry point.
pub mod Regs
pub mod Program
pub mod Defaults
pub mod Hooks
pub mod Dispatch
pub mod Abi
pub mod Process
pub mod Entry
pub mod Threads
pub mod Sample
mod Tests
