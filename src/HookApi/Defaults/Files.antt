-- ===== src/HookApi/Defaults/Files.antt =====
-- zpoline_hook_api/src/syscall_hooks.rs: the default implementations, file I/O.
-- Arguments and results are bit patterns of the C types.
use zpoline_rs.Prelude.{ℕ, low_32, sign_extend}
use zpoline_rs.HookApi.Regs.{new}
use zpoline_rs.HookApi.Program.{Program, done, raw_syscall, ◌>>=◌}

unfoldable pub default_read : (fd buf count : ℕ) → Program ℕ
default_read fd buf count = raw_syscall (new 0 (sign_extend fd) buf count 0 0 0)

unfoldable pub default_write : (fd buf count : ℕ) → Program ℕ
default_write fd buf count = raw_syscall (new 1 (sign_extend fd) buf count 0 0 0)

unfoldable pub default_open : (pathname flags mode : ℕ) → Program ℕ
default_open pathname flags mode = do
  v ← raw_syscall (new 2 pathname (sign_extend flags) mode 0 0 0)
  done (low_32 v)

unfoldable pub default_close : (fd : ℕ) → Program ℕ
default_close fd = do v ← raw_syscall (new 3 (sign_extend fd) 0 0 0 0 0); done (low_32 v)

unfoldable pub default_lseek : (fd offset whence : ℕ) → Program ℕ
default_lseek fd offset whence =
    raw_syscall (new 8 (sign_extend fd) offset (sign_extend whence) 0 0 0)

unfoldable pub default_openat : (dirfd pathname flags mode : ℕ) → Program ℕ
default_openat dirfd pathname flags mode = do
  v ← raw_syscall (new 257 (sign_extend dirfd) pathname (sign_extend flags) mode 0 0)
  done (low_32 v)

unfoldable pub default_dup : (oldfd : ℕ) → Program ℕ
default_dup oldfd = do v ← raw_syscall (new 32 (sign_extend oldfd) 0 0 0 0 0); done (low_32 v)

unfoldable pub default_dup2 : (oldfd newfd : ℕ) → Program ℕ
default_dup2 oldfd newfd = do
  v ← raw_syscall (new 33 (sign_extend oldfd) (sign_extend newfd) 0 0 0 0)
  done (low_32 v)

unfoldable pub default_pipe : (pipefd : ℕ) → Program ℕ
default_pipe pipefd = do v ← raw_syscall (new 22 pipefd 0 0 0 0 0); done (low_32 v)
