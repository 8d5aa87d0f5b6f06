-- ===== src/HookApi/Dispatch.antt =====
-- zpoline_hook_api/src/syscall_hooks.rs: `dispatch_syscall_hooks`. The `match` on rax is the ladder of
-- tests; `as c_int` and the like take the low 32 bits, and the result `as i64` is sign-extended where
-- the method returns a c_int or a pid_t.
pub mod Forward
use zpoline_rs.Prelude.{ℕ, low_32, sign_extend, ◌==◌, if◌then◌else◌}
use zpoline_rs.HookApi.Regs.{SyscallRegs}
use zpoline_rs.HookApi.Program.{Program, done, raw_syscall, ◌>>=◌}
use zpoline_rs.HookApi.Hooks.{SyscallHooks, keep}

-- The result of a method, `as i64`.
abbrev pub extended : {S : Type 0} → Program (ℕ × S) → Program (ℕ × S)
extended p = p >>= λ r. done (sign_extend r.0, r.1)

-- A value of type `!` is a value of any type.
abbrev pub diverging : {S : Type 0} → Program ⊥ → Program (ℕ × S)
diverging p = p >>= λ r. absurd r

unfoldable pub dispatch_syscall_hooks :
    {S : Type 0} → SyscallHooks S → S → SyscallRegs → Program (ℕ × S)
dispatch_syscall_hooks hooks s regs =
    if regs.rax == 0
    then hooks.hook_read s (low_32 regs.rdi) regs.rsi regs.rdx
    else if regs.rax == 1
    then hooks.hook_write s (low_32 regs.rdi) regs.rsi regs.rdx
    else if regs.rax == 2
    then extended (hooks.hook_open s regs.rdi (low_32 regs.rsi) (low_32 regs.rdx))
    else if regs.rax == 3
    then extended (hooks.hook_close s (low_32 regs.rdi))
    else if regs.rax == 8
    then hooks.hook_lseek s (low_32 regs.rdi) regs.rsi (low_32 regs.rdx)
    else if regs.rax == 9
    then hooks.hook_mmap s regs.rdi regs.rsi (low_32 regs.rdx) (low_32 regs.r10) (low_32 regs.r8)
        regs.r9
    else if regs.rax == 10
    then extended (hooks.hook_mprotect s regs.rdi regs.rsi (low_32 regs.rdx))
    else if regs.rax == 11
    then extended (hooks.hook_munmap s regs.rdi regs.rsi)
    else if regs.rax == 12
    then extended (hooks.hook_brk s regs.rdi)
    else if regs.rax == 16
    then extended (hooks.hook_ioctl s (low_32 regs.rdi) regs.rsi regs.rdx)
    else if regs.rax == 21
    then extended (hooks.hook_access s regs.rdi (low_32 regs.rsi))
    else if regs.rax == 22
    then extended (hooks.hook_pipe s regs.rdi)
    else if regs.rax == 32
    then extended (hooks.hook_dup s (low_32 regs.rdi))
    else if regs.rax == 33
    then extended (hooks.hook_dup2 s (low_32 regs.rdi) (low_32 regs.rsi))
    else if regs.rax == 39
    then extended (hooks.hook_getpid s)
    else if regs.rax == 41
    then extended (hooks.hook_socket s (low_32 regs.rdi) (low_32 regs.rsi) (low_32 regs.rdx))
    else if regs.rax == 42
    then extended (hooks.hook_connect s (low_32 regs.rdi) regs.rsi (low_32 regs.rdx))
    else if regs.rax == 43
    then extended (hooks.hook_accept s (low_32 regs.rdi) regs.rsi regs.rdx)
    else if regs.rax == 49
    then extended (hooks.hook_bind s (low_32 regs.rdi) regs.rsi (low_32 regs.rdx))
    else if regs.rax == 50
    then extended (hooks.hook_listen s (low_32 regs.rdi) (low_32 regs.rsi))
    else if regs.rax == 57
    then extended (hooks.hook_fork s)
    else if regs.rax == 59
    then extended (hooks.hook_execve s regs.rdi regs.rsi regs.rdx)
    else if regs.rax == 60
    then diverging (hooks.hook_exit s (low_32 regs.rdi))
    else if regs.rax == 61
    then extended (hooks.hook_wait4 s (low_32 regs.rdi) regs.rsi (low_32 regs.rdx) regs.r10)
    else if regs.rax == 62
    then extended (hooks.hook_kill s (low_32 regs.rdi) (low_32 regs.rsi))
    else if regs.rax == 186
    then extended (hooks.hook_gettid s)
    else if regs.rax == 231
    then diverging (hooks.hook_exit_group s (low_32 regs.rdi))
    else if regs.rax == 257
    then extended
        (hooks.hook_openat s (low_32 regs.rdi) regs.rsi (low_32 regs.rdx) (low_32 regs.r10))
    else keep s (raw_syscall regs)
