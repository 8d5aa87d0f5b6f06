-- ===== src/Lib.antt =====
-- zpoline-rs: a loader that replaces the syscall instructions of a process by calls of a trampoline at
-- address 0, through which every system call reaches a hook.
--
-- The parts, and how they interact:
-- * zpoline_loader/src/trampoline.rs puts code at address 0: a no-operation at the address of each
--   syscall number, and behind them a stub that saves the registers as a `SyscallRegs` on the stack,
--   calls `hook_entry` and restores them (Trampoline).
-- * zpoline_rewriter finds the instructions syscall and sysenter in a region of memory and writes
--   `call *%rax` over them; rax is the syscall number, so the call lands in the trampoline (Rewriter).
-- * zpoline_loader/src/init.rs runs the rewriter over the regions of /proc/self/maps, with a
--   configuration that leaves out the trampoline, the page of `raw_syscall`, and what the environment
--   names (Loader).
-- * zpoline_hook_api has `hook_entry`, which runs the hook that is set, once per thread at a time,
--   and makes the system call itself when it is entered again (HookApi). A hook can be an object of
--   the trait `SyscallHooks`, with a method for each of 28 system calls and a default for each.
-- * zpoline_loader/src/dlmopen.rs loads a hook library into a namespace of its own and takes the hook
--   from it; zpoline_hook_impl, zpoline_hook_trait_example and zpoline_samples have hooks that print and
--   count (HookLibs).
-- * System puts the rewritten instruction, the trampoline, `hook_entry` and the kernel together.
--
-- Files and code:
-- * Prelude has tests on ℕ, lists, words of 32 and 64 bits. Slice is a `&mut [u8]` with Rust's bounds
--   checks; `none` is the panic.
-- * Trampoline/Generate is `generate_trampoline_code` and `generate_hook_stub`, byte for byte; the
--   address of `hook_entry` is an argument. Trampoline/Machine is not code of the repository but what
--   the processor does: a decoder of machine code and its steps. The other files of Trampoline prove.
-- * Rewriter/Region is `MemoryRegion` and Rewriter/Maps is `parse_maps_line` of
--   zpoline_rewriter/src/maps.rs, with texts as lists of code points, and Rewriter/Maps/File the rest of
--   that file; Rewriter/Config is `RewriteConfig`, Rewriter/Find is `find_syscalls` and Rewriter/Rewrite is `rewrite_region` and the
--   rest of zpoline_rewriter/src/rewriter.rs. Rewriter/FilePath is what std says of `Path::starts_with`
--   and of the equality of paths; Rewriter/Decoder is the interface of the crate iced_x86, with its
--   documentation as a record of hypotheses; Rewriter/World is the memory, with a protection for each
--   address, and mprotect.
-- * Loader/Config is `build_rewrite_config` and Loader/Pass is `rewrite_syscalls`; the surroundings (the
--   path of the program, the address of `raw_syscall`, the variable ZPOLINE_EXCLUDE) are a record.
-- * Loader/Startup is `setup_trampoline` of zpoline_loader/src/trampoline.rs and `zpoline_init` of
--   zpoline_loader/src/lib.rs, one run of it. Loader/HookLibrary is zpoline_loader/src/dlmopen.rs, and
--   with `find_hook` the part of `zpoline_init` that uses it; the dynamic linker is a record.
-- * HookApi/Regs, HookApi/Process and HookApi/Entry are zpoline_hook_api/src/lib.rs: the statics and
--   the thread-local flag are the record `Process`, `__hook_init` is `hook_init`, `trait_based_hook` is
--   `run_trait_based_hook`. HookApi/Hooks, HookApi/Defaults and HookApi/Dispatch are
--   zpoline_hook_api/src/syscall_hooks.rs: the trait is a record over the object's state. HookApi/Abi
--   has the C prototypes of the 28 calls, from the manual pages, as an independent description.
--   HookApi/Entry/Registering is `register_syscall_hooks` with the system calls of the allocator, which
--   it uses under the lock.
-- * HookApi/Threads is `hook_entry`, the hook functions, `__hook_init` and `register_syscall_hooks` again,
--   as the steps of many threads over HOOK_FUNCTION and the mutex of HOOK_TRAIT_OBJECT. A step is the way
--   into a hook or out of it, the take or the drop of the mutex, a system call, the registration of an
--   object, or the set of a hook function.
-- * HookLibs/Tracer is `zpoline_hook_function` of zpoline_hook_impl/src/lib.rs and `trace_hook` of
--   zpoline_samples/src/main.rs, with their tables in HookLibs/Names. HookLibs/Stats is `StatsHook` of
--   zpoline_hook_trait_example/src/lib.rs, its statics as the object's state. HookLibs/Samples has
--   `LoggingHook` and `StatisticsHook` of zpoline_samples/examples, and HookLibs/Samples/Demos the three
--   `main` functions of zpoline_samples, as lists of steps; a static is loaded from the process.
--   HookLibs/Observer is not code of the
--   repository but what such an object is: it prints, passes the call on, and records it.
--   A hook library in its own namespace has statics of its own: for such a hook the record `Process` has
--   the hook function and the guard of the loader, and the trait object of the library.
-- * System/Instruction has the instructions `syscall` and `callq *%rax`, after the manual.
-- * A hook is a `Program`: it may make system calls directly (`raw_syscall`) or through the C library,
--   whose instruction is rewritten and enters `hook_entry` again.
--
-- Bounds and fuel: `hook_entry` carries how deep it may be nested, and two levels are enough because
-- the flag stops the third; the search for syscalls has one unit of fuel for each byte of the region
-- and one more, since every instruction has a byte at least. Words are natural numbers with the
-- wrap-around written out.
--
-- Parameters: the kernel (the answer to a system call, which depends on its number, its six arguments
-- and the kernel's own state), the compiled code of `hook_entry` (a machine step that follows the calling
-- convention of System V where the stack is aligned, the structure lies above the return address and
-- there is the stack that it needs), the instruction decoder, the answers of mmap and mprotect, the page
-- size, the dynamic linker, the environment, the files that exist, what opening a file gives, and how a
-- message is printed: a program of system calls for each message, or for a step of a sample's `main` a
-- list of system calls.
--
-- Not modelled: panics of hooks; system calls whose outcome depends on rsp, which the stub has moved
-- (rt_sigreturn, clone, vfork); what an application keeps below rsp; the machine behind a misaligned call
-- of `hook_entry`; faults of reading a region that may only be executed; the flags and the vector
-- registers of the processor; output of the loader on stderr; the way of the loader's own mprotect calls
-- and messages through `hook_entry` once libc is rewritten; a refused mprotect that has changed a part of
-- its range; the slice that starts at address 0, which is used as any other; what a hook library does to
-- the memory of the process when it is loaded; test_program.rs and `get_stats`, which only print, and the
-- texts of errors. A program of zpoline_samples has a copy of zpoline_hook_api of its own where it is not
-- the one that the trampoline leads to; how it is linked is not modelled.
pub mod HookApi
pub mod HookLibs
pub mod Loader
pub mod Prelude
pub mod Rewriter
pub mod Slice
pub mod System
pub mod Trampoline
