-- ===== src/HookApi/Defaults/Processes.antt =====
-- zpoline_hook_api/src/syscall_hooks.rs: the default implementations, processes.
-- Arguments and results are bit patterns of the C types.
use zpoline_rs.Prelude.{ℕ, low_32, sign_extend}
use zpoline_rs.HookApi.Regs.{new}
use zpoline_rs.HookApi.Program.{Program, done, unreachable, raw_syscall, ◌>>=◌}

unfoldable pub default_getpid : Program ℕ
default_getpid = do v ← raw_syscall (new 39 0 0 0 0 0 0); done (low_32 v)

unfoldable pub default_gettid : Program ℕ
default_gettid = do v ← raw_syscall (new 186 0 0 0 0 0 0); done (low_32 v)

unfoldable pub default_fork : Program ℕ
default_fork = do v ← raw_syscall (new 57 0 0 0 0 0 0); done (low_32 v)

unfoldable pub default_execve : (pathname argv envp : ℕ) → Program ℕ
default_execve pathname argv envp = do
  v ← raw_syscall (new 59 pathname argv envp 0 0 0)
  done (low_32 v)

unfoldable pub default_exit : (status : ℕ) → Program ⊥
default_exit status = raw_syscall (new 60 (sign_extend status) 0 0 0 0 0) >>= λ _. unreachable

unfoldable pub default_exit_group : (status : ℕ) → Program ⊥
default_exit_group status =
    raw_syscall (new 231 (sign_extend status) 0 0 0 0 0) >>= λ _. unreachable

unfoldable pub default_wait4 : (pid wstatus options rusage : ℕ) → Program ℕ
default_wait4 pid wstatus options rusage = do
  v ← raw_syscall (new 61 (sign_extend pid) wstatus (sign_extend options) rusage 0 0)
  done (low_32 v)

unfoldable pub default_kill : (pid sig : ℕ) → Program ℕ
default_kill pid sig = do
  v ← raw_syscall (new 62 (sign_extend pid) (sign_extend sig) 0 0 0 0)
  done (low_32 v)
